-- ===== src/Dev/Acpi/Tests.antt =====
-- Runs of the ACPI code, and the theorems at concrete tables.
use otrix.Prelude.{
  ℕ, zero, suc, ◌-◌, ◌<◌, ◌≡◌, ◌≢◌, refl, List, [], ◌∷◌, arith, false, inr, ltb, if◌then◌else◌,
  ne→==, get_or, returns,
}
use otrix.Error.{ok, inval}
use otrix.IntrusiveList.{update}
use otrix.Dev.Acpi.{
  Bytes, AcpiContext, checksum_loop, acpi_validate_checksum, parse_entry, entries_loop,
  acpi_parse_madt, acpi_parse_sdt_entry, tables_loop, acpi_parse_rsdt, search_loop, acpi_init,
  has_signature, rsdp_signature, acpi_madt_parse_ioapic, acpi_get_io_apic, acpi_get_lapic_addr,
}
use otrix.Dev.Acpi.Checksum.{acpi_validate_checksum-detects}
use otrix.Dev.Acpi.Madt.{described, acpi_parse_madt-described}
use otrix.Dev.Acpi.Search.{place}

-- An RSDT at 4096 that names one MADT, behind it, with one I/O APIC; the root pointer is at 0xE0008.
abbrev tables : List ℕ
tables =
    82 ∷ 83 ∷ 68 ∷ 84 ∷ 40 ∷ 0 ∷ 0 ∷ 0 ∷ 0 ∷ 99 ∷ 0 ∷ 0 ∷ 0 ∷ 0 ∷ 0 ∷ 0 ∷ 0 ∷ 0 ∷ 0 ∷ 0 ∷ 0 ∷ 0 ∷ 0
    ∷ 0 ∷ 0 ∷ 0 ∷ 0 ∷ 0 ∷ 0 ∷ 0 ∷ 0 ∷ 0 ∷ 0 ∷ 0 ∷ 0 ∷ 0 ∷ 40 ∷ 16 ∷ 0 ∷ 0 ∷ 65 ∷ 80 ∷ 73 ∷ 67 ∷ 56
    ∷ 0 ∷ 0 ∷ 0 ∷ 0 ∷ 0 ∷ 0 ∷ 0 ∷ 0 ∷ 0 ∷ 0 ∷ 0 ∷ 0 ∷ 0 ∷ 0 ∷ 0 ∷ 0 ∷ 0 ∷ 0 ∷ 0 ∷ 0 ∷ 0 ∷ 0 ∷ 0 ∷ 0
    ∷ 0 ∷ 0 ∷ 0 ∷ 0 ∷ 0 ∷ 0 ∷ 0 ∷ 0 ∷ 0 ∷ 224 ∷ 254 ∷ 0 ∷ 0 ∷ 0 ∷ 0 ∷ 1 ∷ 12 ∷ 2 ∷ 0 ∷ 0 ∷ 0 ∷ 192
    ∷ 254 ∷ 0 ∷ 0 ∷ 0 ∷ 0 ∷ []

abbrev root : List ℕ
root = 82 ∷ 83 ∷ 68 ∷ 32 ∷ 80 ∷ 84 ∷ 82 ∷ 32 ∷ 0 ∷ 0 ∷ 0 ∷ 0 ∷ 0 ∷ 0 ∷ 0 ∷ 0 ∷ 0 ∷ 16 ∷ 0 ∷ 0 ∷ []

abbrev mem : Bytes
mem p = if ltb p 0x2000 then get_or tables (p - 4096) 0 else get_or root (p - 0xE0008) 0

abbrev zeros : Bytes
zeros p = 0

abbrev blank : AcpiContext
blank = record { ioapic_base = 0; ioapic_id = 0; lapic_base = 0 }

abbrev found : AcpiContext
found = record { ioapic_base = 0xFEC00000; ioapic_id = 2; lapic_base = 0xFEE00000 }

acpi_init-finds : acpi_init 2 2 mem blank ≡ returns (ok, found)
unfolding acpi_init search_loop acpi_parse_rsdt tables_loop acpi_parse_sdt_entry acpi_parse_madt
    entries_loop parse_entry acpi_madt_parse_ioapic acpi_validate_checksum checksum_loop
acpi_init-finds = refl

getters :
    ◌≡◌ {A = ℕ × ℕ} (acpi_get_io_apic found, acpi_get_lapic_addr found) (0xFEC00000, 0xFEE00000)
unfolding acpi_get_io_apic acpi_get_lapic_addr
getters = refl

update-same : (m : Bytes) (q v a : ℕ) → a ≢ q → update m q v a ≡ m a
update-same m q v a ne = rw (ne→== ne) refl

acpi_validate_checksum-detects_example : acpi_validate_checksum (update mem 4106 7) 4096 ≡ inval
unfolding acpi_validate_checksum checksum_loop
acpi_validate_checksum-detects_example =
    acpi_validate_checksum-detects mem (update mem 4106 7) 4096 10 refl (omega arith)
      (inr (omega arith)) (update-same mem 4106 7) (omega arith)

acpi_parse_madt-described_example :
    acpi_parse_madt 2 mem 4136 blank
    ≡ returns (ok, described mem 4180 (12 ∷ []) (record blank { lapic_base = 0xFEE00000 }))
acpi_parse_madt-described_example =
    acpi_parse_madt-described 2 mem 4136 (12 ∷ []) blank (refl, omega arith, tt) refl (omega arith)

before_root : (j : ℕ) → j < 1 → has_signature mem (place j) rsdp_signature ≡ false
before_root zero h = refl
before_root (suc j) h = absurd (omega arith)
