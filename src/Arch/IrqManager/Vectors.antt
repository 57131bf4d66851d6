-- ===== src/Arch/IrqManager/Vectors.antt =====
-- Which vectors are handed out, and where their interrupts go.
use otrix.Prelude.{
  ℕ, zero, suc, ◌+◌, ◌*◌, ◌≤◌, ◌<◌, ◌≡◌, ◌≢◌, refl, sym, subst, [], ◌∷◌, true, false, ◌==◌, ==_iff,
  ==_self, ne→==, ltb, leb, Bool-cases, inl, inr, none, some, arith,
}
use otrix.IntrusiveList.{Ptr, null, update}
use otrix.Arch.IrqManager.{
  Idt, IrqManager, Routines, idt_entry, set_entry, first_free, allocate, request_irq, free_irq,
  irq_handler,
}

-- The address that an entry leads to.
abbrev pub target : Idt → ℕ
target e = e.offset_low + e.offset_mid * 65536 + e.offset_high * 4294967296

idt_entry-target : (p : Ptr) → p < 18446744073709551616 → target (idt_entry p) ≡ p
idt_entry-target p fits = omega arith

-- The vectors from `i` up to `k` are allocated.
abbrev pub Busy : IrqManager → (i k : ℕ) → Type 0
Busy m i k = (j : ℕ) → i ≤ j → j < k → (m.irq_table j).allocated ≡ true

first_free-some :
    (n : ℕ) (m : IrqManager) (i k : ℕ)
    → i ≤ k
    → k < i + n
    → Busy m i k
    → (m.irq_table k).allocated ≡ false
    → first_free n m i ≡ some k
unfolding first_free
first_free-some zero m i k le lt busy free = absurd (omega arith)
first_free-some (suc n) m i k le lt busy free = elim (Bool-cases (i == k)) [
  | inl e ↦
      let same : i ≡ k = (==_iff i k).0 e in
      subst (λ j. first_free (suc n) m j ≡ some k) (sym same) (rw (first_free, free) refl)
  | inr e ↦
      let less : i < k = ground arith in
      rw (first_free, busy i (omega arith) less)
        (first_free-some n m (suc i) k (omega arith) (omega arith)
          (λ j le' lt'. busy j (omega arith) lt') free)
]

first_free-none : (n : ℕ) (m : IrqManager) (i : ℕ) → Busy m i (i + n) → first_free n m i ≡ none
unfolding first_free
first_free-none zero m i busy = refl
first_free-none (suc n) m i busy =
    rw (first_free, busy i (omega arith) (omega arith))
      (first_free-none n m (suc i) (λ j le lt. busy j (omega arith) (omega arith)))

ne_test : (j k : ℕ) → j < k → (j == k) ≡ false
ne_test j k lt = ground arith

module _ (r : Routines) (m : IrqManager) (handler owner context : Ptr) where
  -- What an allocation of the vector `k` leaves.
  pub record Dispatches (k : ℕ) (m' : IrqManager) : Type 0 where
    pub entry : target (m'.idt_table k) ≡ r.used
    pub calls : (irq_handler m' (some k)).1 ≡ record { function = handler; argument = context } ∷ []
    pub taken : (m'.irq_table k).allocated ≡ true

  allocate-Dispatches :
      (k : ℕ)
      → handler ≢ null
      → r.used < 18446744073709551616
      → Dispatches k (allocate r m handler owner context k)
  unfolding allocate set_entry irq_handler
  allocate-Dispatches k live fits = record {
    entry = rw (allocate, set_entry, ==_self k) (idt_entry-target r.used fits);
    calls = rw (irq_handler, allocate, set_entry, ==_self k, ne→== live) refl;
    taken = rw (allocate, set_entry, ==_self k) refl;
  }

  -- A handler that is not NULL gets the lowest vector from 32 on that is not allocated, and the
  -- interrupts of that vector go to it, with its argument; the tables at every other vector stay.
  pub request_irq-Dispatches :
      (k j : ℕ)
      → 32 ≤ k
      → k < 256
      → Busy m 32 k
      → (m.irq_table k).allocated ≡ false
      → handler ≢ null
      → r.used < 18446744073709551616
      → j ≢ k
      → (m' : IrqManager) × (request_irq r m handler owner context ≡ (some k, m'))
        × Dispatches k m'
        × (m'.irq_table j ≡ m.irq_table j)
        × (m'.idt_table j ≡ m.idt_table j)
  unfolding request_irq allocate set_entry
  request_irq-Dispatches k j low high busy free live fits other =
      let found = first_free-some 224 m 32 k low (omega arith) busy free in
      (
        allocate r m handler owner context k,
        rw (request_irq, found) refl,
        allocate-Dispatches k live fits,
        rw (allocate, set_entry, ne→== other) refl,
        rw (allocate, set_entry, ne→== other) refl,
      )

  -- With every vector from 32 to 255 allocated none is handed out, and nothing changes.
  pub request_irq-none : Busy m 32 256 → request_irq r m handler owner context ≡ (none, m)
  unfolding request_irq
  request_irq-none busy = rw (request_irq, first_free-none 224 m 32 busy) refl

  -- A vector that was handed out and is freed is the next one to be handed out, when those below it from
  -- 32 on are allocated.
  pub request_irq-free_irq :
      (k : ℕ)
      → 32 ≤ k
      → k < 256
      → Busy m 32 k
      → (request_irq r (free_irq m k) handler owner context).0 ≡ some k
  unfolding request_irq free_irq
  request_irq-free_irq k low high busy =
      let user : leb 32 k ≡ true = ground arith in
      let inside : ltb k 256 ≡ true = ground arith in
      let freed : IrqManager = record m {
        irq_table = update m.irq_table k (record (m.irq_table k) { allocated = false });
      } in
      let below : Busy freed 32 k = λ j le lt. rw (ne_test j k lt) (busy j le lt) in
      let found : first_free 224 freed 32 ≡ some k =
        first_free-some 224 freed 32 k low (omega arith) below (rw (==_self k) refl) in
      rw (request_irq, free_irq, user, inside, found) refl
