-- ===== src/Dev/Acpi/Madt.antt =====
-- acpi_parse_madt: the entries of the MADT.
use otrix.Prelude.{
  ℕ, zero, suc, ◌+◌, ◌-◌, ◌%◌, ◌^◌, ◌<◌, ◌≡◌, ◌≢◌, refl, List, [], ◌∷◌, length, arith, false, ◌==◌,
  returns, out_of_fuel, if◌then◌else◌,
}
use otrix.Error.{ok}
use otrix.IntrusiveList.{Ptr}
use otrix.Dev.Acpi.{
  Bytes, AcpiContext, read8, read32, read64, sdt_length, sizeof_madt, local_apic_address,
  madt_ioapic, madt_lapic_override, parse_entry, entries_loop, acpi_parse_madt,
}

-- Entries of these sizes lie one after the other from `p`, each with its size in its second byte.
abbrev pub Entries : Bytes → Ptr → List ℕ → Type 0
Entries mem p [] = Unit {0}
Entries mem p (n ∷ ns) = (read8 mem (p + 1) ≡ n) × (0 < n) × Entries mem (p + n) ns

abbrev pub total : List ℕ → ℕ
total [] = 0
total (n ∷ ns) = n + total ns

-- The last entry of a type, or else `q`.
abbrev pub last_entry : Bytes → ℕ → Ptr → List ℕ → Ptr → Ptr
last_entry mem type p [] q = q
last_entry mem type p (n ∷ ns) q =
    last_entry mem type (p + n) ns (if read8 mem p == type then p else q)

-- What the entry at `q` says, where there is one.
abbrev pub entry_or {ℓ} : {A : Type ℓ} → Ptr → A → A → A
entry_or q there other = if q == 0 then other else there

-- What the entries make of a context: the base of the local APIC that the last override gives, and the
-- base and the id of the last I/O APIC; a value that no entry gives is kept.
abbrev pub described : Bytes → Ptr → List ℕ → AcpiContext → AcpiContext
described mem p ns context =
    let override = last_entry mem madt_lapic_override p ns 0 in
    let ioapic = last_entry mem madt_ioapic p ns 0 in
    record {
      ioapic_base = entry_or ioapic (read32 mem (ioapic + 4)) context.ioapic_base;
      ioapic_id = entry_or ioapic (read8 mem (ioapic + 2)) context.ioapic_id;
      lapic_base = entry_or override (read64 mem (override + 4)) context.lapic_base;
    }

last_entry-kept :
    (mem : Bytes) (type p : ℕ) (ns : List ℕ) (q : Ptr)
    → 0 < p
    → last_entry mem type p ns q
      ≡ (if last_entry mem type p ns 0 == 0 then q else last_entry mem type p ns 0)
last_entry-kept mem type p [] q h = refl
last_entry-kept mem type p (n ∷ ns) q h =
    ground (arith, last_entry-kept mem type (p + n) ns q, last_entry-kept mem type (p + n) ns p)

-- One entry, and then the others.
described-cons :
    (mem : Bytes) (p n : ℕ) (ns : List ℕ) (context : AcpiContext)
    → 0 < p
    → described mem (p + n) ns (parse_entry mem p context) ≡ described mem p (n ∷ ns) context
unfolding parse_entry
described-cons mem p n ns context h = ground (
  arith,
  last_entry-kept mem madt_ioapic (p + n) ns p,
  last_entry-kept mem madt_lapic_override (p + n) ns p,
)

entries_loop-described :
    (fuel : ℕ) (mem : Bytes) (p : ℕ) (ns : List ℕ) (context : AcpiContext)
    → Entries mem p ns
    → 0 < p
    → total ns < 2 ^ 32
    → length ns < fuel
    → entries_loop fuel mem p (total ns) context ≡ returns (described mem p ns context)
unfolding entries_loop
entries_loop-described zero mem p ns context e h t f = absurd (omega arith)
entries_loop-described (suc fuel) mem p [] context e h t f = refl
entries_loop-described (suc fuel) mem p (n ∷ ns) context e h t f =
    let more : (n + total ns == 0) ≡ false = ground arith in
    let rest : (n + total ns + 2 ^ 32 - n) % 2 ^ 32 ≡ total ns = omega arith in
    let again =
      entries_loop-described fuel mem (p + n) ns (parse_entry mem p context) e.2 (omega arith)
        (omega arith) (omega arith) in
    rw (more, e.0, rest, again) (rw (described-cons mem p n ns context h) refl)

-- A MADT whose length is that of its header and of entries that lie one after the other, none of them of
-- no bytes, is read within one round for each entry and one more: the context has the base of the local
-- APIC that the last override gives, or else that of the table, and the base and the id of the last I/O
-- APIC, or else those that it had.
pub acpi_parse_madt-described :
    (fuel : ℕ) (mem : Bytes) (madt : Ptr) (ns : List ℕ) (context : AcpiContext)
    → Entries mem (madt + sizeof_madt) ns
    → sdt_length mem madt ≡ sizeof_madt + total ns
    → length ns < fuel
    → acpi_parse_madt fuel mem madt context
      ≡ returns (
        ok,
        described mem
            (madt + sizeof_madt)
            ns
            (record context { lapic_base = local_apic_address mem madt }),
      )
unfolding acpi_parse_madt
acpi_parse_madt-described fuel mem madt ns context e size f =
    let small : total ns < 2 ^ 32 = omega (arith, size) in
    let rest : (sizeof_madt + total ns + 2 ^ 32 - sizeof_madt) % 2 ^ 32 ≡ total ns = omega arith in
    let read =
      entries_loop-described fuel mem (madt + sizeof_madt) ns
        (record context { lapic_base = local_apic_address mem madt }) e (omega arith) small f in
    rw (size, rest, read) refl

entries_loop-stuck :
    (fuel : ℕ) (mem : Bytes) (p len : ℕ) (context : AcpiContext)
    → read8 mem (p + 1) ≡ 0
    → 0 < len
    → len < 2 ^ 32
    → entries_loop fuel mem p len context ≡ out_of_fuel
unfolding entries_loop
entries_loop-stuck zero mem p len context z h t = refl
entries_loop-stuck (suc fuel) mem p len context z h t =
    let more : (len == 0) ≡ false = ground arith in
    let stay : p + 0 ≡ p = omega arith in
    let same : (len + 2 ^ 32 - 0) % 2 ^ 32 ≡ len = omega arith in
    rw (more, z, stay, same) (entries_loop-stuck fuel mem p len (parse_entry mem p context) z h t)

-- When the first entry of a MADT has no bytes, the loop over the entries never ends, whatever the fuel, but
-- for a table that its length says has no entries.
pub acpi_parse_madt-stuck :
    (fuel : ℕ) (mem : Bytes) (madt : Ptr) (context : AcpiContext)
    → read8 mem (madt + sizeof_madt + 1) ≡ 0
    → sdt_length mem madt ≢ sizeof_madt
    → acpi_parse_madt fuel mem madt context ≡ out_of_fuel
unfolding acpi_parse_madt
acpi_parse_madt-stuck fuel mem madt context z ne =
    let stuck =
      entries_loop-stuck fuel mem (madt + sizeof_madt)
        ((sdt_length mem madt + 2 ^ 32 - sizeof_madt) % 2 ^ 32)
        (record context { lapic_base = local_apic_address mem madt }) z (omega (arith, ne))
        (omega arith) in
    rw stuck refl
