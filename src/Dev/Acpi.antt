-- ===== src/Dev/Acpi.antt =====
-- dev/acpi.cpp: the search for the root pointer, the tables that it leads to, and the entries of the
-- MADT. Memory is a parameter, `mem`, of bytes by their address; what the code prints is left out.
use otrix.Prelude.{
  ℕ, zero, suc, ◌+◌, ◌-◌, ◌*◌, ◌/◌, ◌%◌, ◌^◌, List, [], ◌∷◌, Bool, true, false, not, ◌&&◌, ◌==◌,
  ltb, if◌then◌else◌, Outcome, returns, out_of_fuel, ◌>>=◌,
}
use otrix.Error.{Kerror, ok, nodev, inval}
use otrix.IntrusiveList.{Ptr}
pub mod Checksum
pub mod Madt
pub mod Search
mod Tests

abbrev pub Bytes : Type 0
Bytes = Ptr → ℕ

abbrev pub read8 : Bytes → Ptr → ℕ
read8 mem p = mem p % 256

abbrev pub read32 : Bytes → Ptr → ℕ
read32 mem p =
    read8 mem p + read8 mem (p + 1) * 256 + read8 mem (p + 2) * 65536 + read8 mem (p + 3) * 16777216

abbrev pub read64 : Bytes → Ptr → ℕ
read64 mem p = read32 mem p + read32 mem (p + 4) * 2 ^ 32

-- The constants of the source: the texts without their terminating zero, as `strlen` counts them.
abbrev pub bios_area_start : Ptr
bios_area_start = 0xE0000

abbrev pub bios_area_end : Ptr
bios_area_end = 0xFFFFF

abbrev pub rsdp_signature : List ℕ
rsdp_signature = b'R' ∷ b'S' ∷ b'D' ∷ b' ' ∷ b'P' ∷ b'T' ∷ b'R' ∷ []

abbrev pub rsdt_signature : List ℕ
rsdt_signature = b'R' ∷ b'S' ∷ b'D' ∷ b'T' ∷ []

abbrev pub madt_signature : List ℕ
madt_signature = b'A' ∷ b'P' ∷ b'I' ∷ b'C' ∷ []

-- `memcmp(p, signature, strlen(signature)) == 0`
abbrev pub has_signature : Bytes → Ptr → List ℕ → Bool
has_signature mem p [] = true
has_signature mem p (c ∷ cs) = (read8 mem p == c) && has_signature mem (p + 1) cs

-- The members of the packed structures, by their offsets.
abbrev pub rsdp_revision : Bytes → Ptr → ℕ
rsdp_revision mem rsdp = read8 mem (rsdp + 15)

abbrev pub rsdt_addr : Bytes → Ptr → ℕ
rsdt_addr mem rsdp = read32 mem (rsdp + 16)

abbrev pub xsdt_addr : Bytes → Ptr → ℕ
xsdt_addr mem rsdp = read64 mem (rsdp + 24)

abbrev pub sdt_length : Bytes → Ptr → ℕ
sdt_length mem sdt = read32 mem (sdt + 4)

-- sizeof(struct acpi_rsdt) and sizeof(struct acpi_madt): their arrays have no size.
abbrev pub sizeof_rsdt : ℕ
sizeof_rsdt = 36

abbrev pub sizeof_madt : ℕ
sizeof_madt = 44

abbrev pub sdt_pointer : Bytes → Ptr → ℕ → Ptr
sdt_pointer mem rsdt i = read32 mem (rsdt + sizeof_rsdt + 4 * i)

abbrev pub local_apic_address : Bytes → Ptr → ℕ
local_apic_address mem madt = read32 mem (madt + 36)

-- enum acpi_madt_entry_type, as far as the code handles it
abbrev pub madt_ioapic : ℕ
madt_ioapic = 1

abbrev pub madt_lapic_override : ℕ
madt_lapic_override = 5

-- `acpi_context`
pub record AcpiContext : Type 0 where
  pub ioapic_base : Ptr
  pub ioapic_id : ℕ
  pub lapic_base : Ptr

-- `for (i = 0; i < sdt->length; i++) checksum += sdt[i];`, with the rounds that are left
unfoldable pub checksum_loop : ℕ → Bytes → Ptr → ℕ → ℕ
checksum_loop zero mem p checksum = checksum
checksum_loop (suc rounds) mem p checksum =
    checksum_loop rounds mem (p + 1) ((checksum + read8 mem p) % 256)

unfoldable pub acpi_validate_checksum : Bytes → Ptr → Kerror
unfolding checksum_loop
acpi_validate_checksum mem sdt =
    if checksum_loop (sdt_length mem sdt) mem sdt 0 == 0 then ok else inval

unfoldable pub acpi_madt_parse_ioapic : Bytes → Ptr → AcpiContext → AcpiContext
acpi_madt_parse_ioapic mem ioapic context = record context {
  ioapic_base = read32 mem (ioapic + 4);
  ioapic_id = read8 mem (ioapic + 2);
}

-- The `switch` on the type of an entry.
unfoldable pub parse_entry : Bytes → Ptr → AcpiContext → AcpiContext
unfolding acpi_madt_parse_ioapic
parse_entry mem hdr context =
    if read8 mem hdr == madt_lapic_override
    then record context { lapic_base = read64 mem (hdr + 4) }
    else (if read8 mem hdr == madt_ioapic then acpi_madt_parse_ioapic mem hdr context else context)

-- `while (len > 0)`; `len` is a uint32_t.
unfoldable pub entries_loop : ℕ → Bytes → Ptr → ℕ → AcpiContext → Outcome AcpiContext
entries_loop zero mem entry len context = out_of_fuel
entries_loop (suc fuel) mem entry len context =
    let size = read8 mem (entry + 1) in
    let again =
      entries_loop fuel mem (entry + size) ((len + 2 ^ 32 - size) % 2 ^ 32)
        (parse_entry mem entry context) in
    if len == 0 then returns context else again

unfoldable pub acpi_parse_madt : ℕ → Bytes → Ptr → AcpiContext → Outcome (Kerror × AcpiContext)
acpi_parse_madt fuel mem madt context = do
  context' ←
      entries_loop fuel mem (madt + sizeof_madt)
        ((sdt_length mem madt + 2 ^ 32 - sizeof_madt) % 2 ^ 32)
        (record context { lapic_base = local_apic_address mem madt })
  returns (ok, context')

abbrev pub is_ok : Kerror → Bool
is_ok ok = true
is_ok _ = false

unfoldable pub acpi_parse_sdt_entry : ℕ → Bytes → Ptr → AcpiContext → Outcome (Kerror × AcpiContext)
acpi_parse_sdt_entry fuel mem addr context =
    if not (is_ok (acpi_validate_checksum mem addr))
    then returns (inval, context)
    else (if has_signature mem addr madt_signature
        then acpi_parse_madt fuel mem addr context
        else returns (ok, context))

-- `const int num_entries = (rsdt->hdr.length - sizeof(struct acpi_rsdt)) / 4`: a size_t, cut to 32 bits,
-- and no round when it is negative.
abbrev pub num_entries : ℕ → ℕ
num_entries length =
    let n = (length + 2 ^ 64 - sizeof_rsdt) % 2 ^ 64 / 4 % 2 ^ 32 in if ltb n (2 ^ 31) then n else 0

-- `for (int i = 0; i < num_entries; i++)`, with the rounds that are left
unfoldable pub tables_loop : ℕ → ℕ → Bytes → Ptr → ℕ → AcpiContext → Outcome (Kerror × AcpiContext)
tables_loop zero fuel mem rsdt i context = returns (ok, context)
tables_loop (suc rounds) fuel mem rsdt i context = do
  (ret, context') ← acpi_parse_sdt_entry fuel mem (sdt_pointer mem rsdt i) context
  if is_ok ret then tables_loop rounds fuel mem rsdt (i + 1) context' else returns (ret, context')

unfoldable pub acpi_parse_rsdt : ℕ → Bytes → Ptr → AcpiContext → Outcome (Kerror × AcpiContext)
acpi_parse_rsdt fuel mem rsdt context =
    if not (is_ok (acpi_validate_checksum mem rsdt))
    then returns (inval, context)
    else (if not (has_signature mem rsdt rsdt_signature)
        then returns (inval, context)
        else tables_loop (num_entries (sdt_length mem rsdt)) fuel mem rsdt 0 context)

-- The table that the root pointer names, by its revision.
abbrev pub root_table : Bytes → Ptr → Ptr
root_table mem rsdp = if rsdp_revision mem rsdp == 0 then rsdt_addr mem rsdp else xsdt_addr mem rsdp

-- `while (ptr != ACPI_BIOS_AREA_END)`: `ptr++` moves on by the 8 bytes of a uint64_t.
unfoldable pub search_loop : ℕ → ℕ → Bytes → Ptr → AcpiContext → Outcome (Kerror × AcpiContext)
search_loop zero fuel mem ptr context = out_of_fuel
search_loop (suc rounds) fuel mem ptr context =
    let again = search_loop rounds fuel mem (ptr + 8) context in
    if ptr == bios_area_end
    then returns (nodev, context)
    else (if not (has_signature mem ptr rsdp_signature)
        then again
        else acpi_parse_rsdt fuel mem (root_table mem ptr) context)

unfoldable pub acpi_init : ℕ → ℕ → Bytes → AcpiContext → Outcome (Kerror × AcpiContext)
unfolding search_loop
acpi_init rounds fuel mem context = search_loop rounds fuel mem bios_area_start context

unfoldable pub acpi_get_io_apic : AcpiContext → Ptr
acpi_get_io_apic context = context.ioapic_base

unfoldable pub acpi_get_lapic_addr : AcpiContext → Ptr
acpi_get_lapic_addr context = context.lapic_base
