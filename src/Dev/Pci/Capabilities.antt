-- ===== src/Dev/Pci/Capabilities.antt =====
-- `read_capabilities`: whether its loop ends, and what it writes.
use otrix.Prelude.{
  ℕ, zero, suc, ◌+◌, ◌%◌, ◌≤◌, ◌<◌, ◌≡◌, ◌≢◌, refl, List, [], ◌∷◌, ◌++◌, length, length-append,
  false, not, ◌&&◌, ◌==◌, ne→==, ltb, lt→ltb, Bool-cases, inl, inr, returns, out_of_fuel, arith,
}
use otrix.Dev.Pci.{Capability, max_capabilities, read_loop}

-- Every place where a capability can stand has one that is not the null one, and leads to such a place.
pub record NonNull (read8 : ℕ → ℕ) : Type 0 where
  pub ids : (p : ℕ) → p % 4 ≡ 0 → read8 p ≢ 0
  pub links : (p : ℕ) → p % 4 ≡ 0 → read8 ((p + 1) % 256) % 4 ≡ 0

-- The identifiers of the entries that are kept.
abbrev pub Kept : List Capability → Type 0
Kept [] = Unit
Kept (c ∷ cs) = (c.cap_id ≢ 0) × Kept cs

Kept-append :
    (cs : List Capability) (c : Capability) → Kept cs → c.cap_id ≢ 0 → Kept (cs ++ (c ∷ []))
Kept-append [] c k h = (h, tt)
Kept-append (x ∷ xs) c k h = (k.0, Kept-append xs c k.1 h)

module _ (read8 : ℕ → ℕ) where
  read_loop-Kept :
      (fuel next : ℕ) (caps : List Capability)
      → NonNull read8
      → next % 4 ≡ 0
      → Kept caps
      → length caps < max_capabilities
      → max_capabilities ≤ length caps + fuel
      → (out : List Capability) × (read_loop fuel read8 next caps ≡ returns out)
        × (length out ≤ max_capabilities)
        × Kept out
  unfolding read_loop
  read_loop-Kept zero next caps non_null at kept room enough = absurd (omega arith)
  read_loop-Kept (suc fuel) next caps non_null at kept room enough =
      let id : (read8 next == 0) ≡ false = ne→== (non_null.ids next at) in
      let found : Capability = record { cap_id = read8 next; place = next } in
      let longer : length (caps ++ (found ∷ [])) ≡ length caps + 1 =
        length-append caps (found ∷ []) in
      let next' = read8 ((next + 1) % 256) in
      let kept' = Kept-append caps found kept (non_null.ids next at) in
      elim (Bool-cases (not (next' == 0) && ltb (length (caps ++ (found ∷ []))) max_capabilities)) [
        | inr e ↦ (caps ++ (found ∷ []), rw (read_loop, id, e) refl, omega arith, kept')
        | inl e ↦
            rw (read_loop, id, e)
              (read_loop-Kept fuel next' (caps ++ (found ∷ [])) non_null (non_null.links next at)
                kept' (ground arith) (omega arith))
      ]

  -- On a device with no null capability in its list, whatever the list's length and also when it is a
  -- ring, the loop ends within 16 rounds, writes at most the 16 entries of the array, and keeps no null one.
  pub read_loop-Bounded :
      (next : ℕ)
      → NonNull read8
      → next % 4 ≡ 0
      → (out : List Capability) × (read_loop max_capabilities read8 next [] ≡ returns out)
        × (length out ≤ max_capabilities)
        × Kept out
  read_loop-Bounded next non_null at =
      read_loop-Kept max_capabilities next [] non_null at tt (omega arith) (omega arith)

  -- On a device whose list has a null capability that leads to itself the loop does not end: no fuel is
  -- enough, with any number of entries in front.
  pub read_loop-null :
      (fuel next : ℕ) (caps : List Capability)
      → read8 next ≡ 0
      → read8 ((next + 1) % 256) ≡ next
      → next ≢ 0
      → length caps < max_capabilities
      → read_loop fuel read8 next caps ≡ out_of_fuel
  unfolding read_loop
  read_loop-null zero next caps null self live room = refl
  read_loop-null (suc fuel) next caps null self live room =
      rw (read_loop, null, self, ne→== live, lt→ltb (length caps) max_capabilities room)
        (read_loop-null fuel next caps null self live room)
