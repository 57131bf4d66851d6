-- ===== src/Dev/Acpi/Search.antt =====
-- acpi_init: the search for the root pointer.
use otrix.Prelude.{
  ℕ, zero, suc, ◌+◌, ◌*◌, ◌<◌, ◌≡◌, refl, arith, true, false, ◌==◌, Bool, ap, ◌∙◌, subst,
  out_of_fuel,
}
use otrix.IntrusiveList.{Ptr}
use otrix.Dev.Acpi.{
  Bytes, AcpiContext, has_signature, rsdp_signature, bios_area_start, bios_area_end, root_table,
  search_loop, acpi_parse_rsdt, acpi_init,
}

-- The address that the search tests in round `i`.
abbrev pub place : ℕ → Ptr
place i = bios_area_start + 8 * i

module _ (fuel : ℕ) (mem : Bytes) (context : AcpiContext) where
  abbrev tests_at : ℕ → Bool
  tests_at i = has_signature mem (place i) rsdp_signature

  search_loop-found :
      (rounds k i : ℕ)
      → ((j : ℕ) → j < k → tests_at (i + j) ≡ false)
      → tests_at (i + k) ≡ true
      → k < rounds
      → search_loop rounds fuel mem (place i) context
        ≡ acpi_parse_rsdt fuel mem (root_table mem (place (i + k))) context
  unfolding search_loop
  search_loop-found zero k i none_before here h = absurd (omega arith)
  search_loop-found (suc rounds) zero i none_before here h =
      let at : i + 0 ≡ i = omega arith in
      let found : tests_at i ≡ true = subst (λ a. tests_at a ≡ true) at here in
      let inside : (place i == bios_area_end) ≡ false = ground arith in
      rw at (rw (inside, found) refl)
  search_loop-found (suc rounds) (suc k) i none_before here h =
      let inside : (place i == bios_area_end) ≡ false = ground arith in
      let first : tests_at i ≡ false =
        subst (λ a. tests_at a ≡ false) (omega arith) (none_before 0 (omega arith)) in
      let next : place i + 8 ≡ place (i + 1) = omega arith in
      let shift : i + suc k ≡ i + 1 + k = omega arith in
      let others : (j : ℕ) → j < k → tests_at (i + 1 + j) ≡ false = λ j less.
        subst (λ a. tests_at a ≡ false) (omega arith) (none_before (suc j) (omega arith)) in
      let rest =
        search_loop-found rounds k (i + 1) others (subst (λ a. tests_at a ≡ true) shift here)
          (omega arith) in
      rw shift (rw (inside, first, next, rest) refl)

  search_loop-lost :
      (rounds i : ℕ)
      → ((j : ℕ) → has_signature mem (place j) rsdp_signature ≡ false)
      → search_loop rounds fuel mem (place i) context ≡ out_of_fuel
  unfolding search_loop
  search_loop-lost zero i nowhere = refl
  search_loop-lost (suc rounds) i nowhere =
      let inside : (place i == bios_area_end) ≡ false = ground arith in
      let next : place i + 8 ≡ place (i + 1) = omega arith in
      rw (inside, nowhere i, next) (search_loop-lost rounds (i + 1) nowhere)

-- The first place of the search that has the text "RSD PTR", wherever it lies, the end of the BIOS area
-- or not, is the root pointer that acpi_init follows: its result is that of the table which the pointer
-- names, by the 32-bit address for revision 0 and by the 64-bit one for any other.
pub acpi_init-acpi_parse_rsdt :
    (rounds fuel : ℕ) (mem : Bytes) (context : AcpiContext) (k : ℕ)
    → ((j : ℕ) → j < k → has_signature mem (place j) rsdp_signature ≡ false)
    → has_signature mem (place k) rsdp_signature ≡ true
    → k < rounds
    → acpi_init rounds fuel mem context
      ≡ acpi_parse_rsdt fuel mem (root_table mem (place k)) context
unfolding acpi_init
acpi_init-acpi_parse_rsdt rounds fuel mem context k none_before here h =
    let from_start : (j : ℕ) → 0 + j ≡ j = λ j. omega arith in
    let before : (j : ℕ) → j < k → has_signature mem (place (0 + j)) rsdp_signature ≡ false =
      λ j less.
        subst (λ a. has_signature mem (place a) rsdp_signature ≡ false) (omega arith)
          (none_before j less) in
    let found : has_signature mem (place (0 + k)) rsdp_signature ≡ true =
      subst (λ a. has_signature mem (place a) rsdp_signature ≡ true) (omega arith) here in
    search_loop-found fuel mem context rounds k 0 before found h
    ∙ ap (λ a. acpi_parse_rsdt fuel mem (root_table mem (place a)) context) (from_start k)

-- Where no place has the text, the search never ends: the address that ends it is odd, and the search
-- moves on by 8 bytes from an even one, so E_NODEV is never returned.
pub acpi_init-lost :
    (rounds fuel : ℕ) (mem : Bytes) (context : AcpiContext)
    → ((j : ℕ) → has_signature mem (place j) rsdp_signature ≡ false)
    → acpi_init rounds fuel mem context ≡ out_of_fuel
unfolding acpi_init
acpi_init-lost rounds fuel mem context nowhere = search_loop-lost fuel mem context rounds 0 nowhere
