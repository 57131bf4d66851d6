-- ===== src/Sync/Ring.antt =====
-- The places of a ring of any size, and the last element of a list.
use otrix.Prelude.{
  ℕ, ◌+◌, ◌-◌, ◌%◌, ◌≤◌, ◌<◌, ◌≡◌, ◌≢◌, refl, ◌∙◌, Bool, true, false, ◌&&◌, ltb, Bool-cases, ◌⊎◌,
  inl, inr, arith,
}
use native.Mathlib.Nat.{mod-eq_of_lt, mod-eq-sub-mod}

-- The place of the message `i` of a ring that is read at `r`.
module _ (n : ℕ) where
  place-cases :
      (r i : ℕ)
      → r < n
      → i < n
      → (((r + i) % n ≡ r + i) × (r + i < n)) ⊎ (((r + i) % n ≡ r + i - n) × (n ≤ r + i))
  place-cases r i hr hi = elim (Bool-cases (ltb (r + i) n)) [
    | inl e ↦ inl (mod-eq_of_lt (ground arith), ground arith)
    | inr e ↦
        let wraps : n ≤ r + i = ground arith in
        inr (mod-eq-sub-mod wraps ∙ mod-eq_of_lt (omega arith), wraps)
  ]

  pub place-ne : (r i j : ℕ) → r < n → i < n → j < n → i ≢ j → (r + i) % n ≢ (r + j) % n
  place-ne r i j hr hi hj ne same = elim (place-cases r i hr hi) [
    | inl (a, b) ↦ elim (place-cases r j hr hj) [
      | inl (c, d) ↦ omega arith
      | inr (c, d) ↦ omega arith
    ]
    | inr (a, b) ↦ elim (place-cases r j hr hj) [
      | inl (c, d) ↦ omega arith
      | inr (c, d) ↦ omega arith
    ]
  ]

pub and_false : (b : Bool) → (b && false) ≡ false
and_false true = refl
and_false false = refl
