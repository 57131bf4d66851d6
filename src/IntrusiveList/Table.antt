-- ===== src/IntrusiveList/Table.antt =====
-- A table of lists that share no node: the run queues of the scheduler, the buckets of a hash map.
use otrix.Prelude.{
  ◌≡◌, ◌≢◌, ◌↔◌, sym, subst, ◌∙◌, List, [], ◌∷◌, arith, Bool, true, false, if◌then◌else◌,
  Bool-cases, inl, inr, returns,
}
use mathlib.Core.Path.{fun_ext}
use otrix.IntrusiveList.{Ptr, null, Links, push_back, delete}
use otrix.IntrusiveList.Distinct.{NotIn, Apart, Apart-sym, Apart-cons}
use otrix.IntrusiveList.Chain.{IsList}
use otrix.IntrusiveList.Erase.{
  contains, erase, delete-erase, NotIn-erase_self, IsList-Distinct, Apart-contains,
  contains-ne_null,
}
use otrix.IntrusiveList.Frame.{SameOutside, IsList-frame, push_back-cons, delete-SameOutside}

-- Each slot `i` has the list of the nodes `lists i`, and no node is in two of them.
pub record Owns {I : Type 0} (m : Links) (heads : I → Ptr) (lists : I → List Ptr) : Type 0 where
  pub list : (i : I) → IsList m (heads i) (lists i)
  pub apart : (i j : I) → i ≢ j → Apart (lists i) (lists j)

pub Owns-ext :
    {I : Type 0} (m : Links) (heads heads' : I → Ptr) (lists lists' : I → List Ptr)
    → ((i : I) → heads i ≡ heads' i)
    → ((i : I) → lists i ≡ lists' i)
    → Owns m heads lists
    → Owns m heads' lists'
Owns-ext m heads heads' lists lists' e f owns =
    subst (λ h. Owns m h lists') (fun_ext e) (subst (λ l. Owns m heads l) (fun_ext f) owns)

pub Apart-erase : (n : Ptr) (xs ys : List Ptr) → Apart xs ys → Apart (erase n xs) ys
Apart-erase n [] ys h = tt
Apart-erase n (x ∷ xs) ys h = ground (arith, Apart-erase n xs ys h.1)

abbrev pub put {ℓ} : {I : Type 0} {A : Type ℓ} → (I → I → Bool) → (I → A) → I → A → I → A
put same f i v j = if same j i then v else f j

module _ {I : Type 0} (same : I → I → Bool) (same_iff : (i j : I) → (same i j ≡ true) ↔ (i ≡ j))
    (m : Links) (heads : I → Ptr) (lists : I → List Ptr) (owns : Owns m heads lists) (i : I) where
  ne_of : (j : I) → same j i ≡ false → j ≢ i
  ne_of j e k = ground (arith, (same_iff j i).1)

  module _ (m' : Links) (h : Ptr) (xs ws : List Ptr) (is : IsList m' h xs)
      (agree : SameOutside ws m m') (off : (j : I) → j ≢ i → Apart (lists j) ws)
      (out : (j : I) → j ≢ i → Apart (lists j) xs) where
    IsList-put : (j : I) → IsList m' (put same heads i h j) (put same lists i xs j)
    IsList-put j = elim (Bool-cases (same j i)) [
      | inl e ↦ rw e is
      | inr e ↦
          rw e (IsList-frame ws m m' agree (heads j) (lists j) (owns.list j) (off j (ne_of j e)))
    ]

    Apart-put : (j k : I) → j ≢ k → Apart (put same lists i xs j) (put same lists i xs k)
    Apart-put j k ne = elim (Bool-cases (same j i)) [
      | inl e ↦ elim (Bool-cases (same k i)) [
        | inl f ↦ absurd (ne ((same_iff j i).0 e ∙ sym ((same_iff k i).0 f)))
        | inr f ↦ rw (e, f) (Apart-sym (lists k) xs (out k (ne_of k f)))
      ]
      | inr e ↦ elim (Bool-cases (same k i)) [
        | inl f ↦ rw (e, f) (out j (ne_of j e))
        | inr f ↦ rw (e, f) (owns.apart j k ne)
      ]
    ]

    -- Replacing one list, by writes to nodes that no other list has.
    pub Owns-put : Owns m' (put same heads i h) (put same lists i xs)
    Owns-put = record { list = IsList-put; apart = Apart-put }

  -- Pushing a node that is in no list of the table.
  pub push_back-Owns :
      (t : Ptr)
      → t ≢ null
      → ((j : I) → NotIn t (lists j))
      → (m' : Links) × (push_back m (heads i) t ≡ returns (t, m'))
        × Owns m' (put same heads i t) (put same lists i (t ∷ lists i))
        × SameOutside (t ∷ lists i) m m'
  push_back-Owns t ne fresh =
      let (m', calls, is, agree) =
        push_back-cons m (heads i) t (lists i) (owns.list i) ne (fresh i) in
      let out =
        λ (j : I) (off : j ≢ i). Apart-cons t (lists j) (lists i) (fresh j) (owns.apart j i off) in
      (m', calls, Owns-put m' t (t ∷ lists i) (t ∷ lists i) is agree out out, agree)

  -- Deleting a member from its list.
  pub delete-Owns :
      (n : Ptr)
      → contains n (lists i) ≡ true
      → Owns
          (delete m (heads i) n).1
          (put same heads i (delete m (heads i) n).0)
          (put same lists i (erase n (lists i)))
  delete-Owns n mem =
      Owns-put _ _ _ (lists i) (delete-erase m (heads i) n (lists i) (owns.list i) mem)
        (delete-SameOutside m (heads i) n (lists i) (owns.list i) mem) (λ j off. owns.apart j i off)
        (λ j off.
          Apart-sym _ (lists j)
            (Apart-erase n (lists i) (lists j) (owns.apart i j (λ e. off (sym e)))))

-- Moving a member from the list of slot `i` to the front of that of another slot `j`, as every caller
-- does it: a deletion, then a push.
module _ {I : Type 0} (same : I → I → Bool) (same_iff : (i j : I) → (same i j ≡ true) ↔ (i ≡ j))
    (m : Links) (heads : I → Ptr) (lists : I → List Ptr) (owns : Owns m heads lists) (i j : I)
    (apart : j ≢ i) (n : Ptr) (mem : contains n (lists i) ≡ true) where
  not_same : same j i ≡ false
  not_same = elim (Bool-cases (same j i)) [
    | inl e ↦ absurd (apart ((same_iff j i).0 e))
    | inr e ↦ e
  ]

  pub NotIn-put : (k : I) → NotIn n (put same lists i (erase n (lists i)) k)
  NotIn-put k = elim (Bool-cases (same k i)) [
    | inl e ↦
        rw e (NotIn-erase_self n (lists i) (IsList-Distinct m (heads i) (lists i) (owns.list i)))
    | inr e ↦ rw e (
        Apart-contains n (lists i) (lists k) mem
          (owns.apart i k (λ f. ground (arith, (same_iff k i).1 (sym f)))))
  ]

  pub move-Owns :
      (m' : Links) × (push_back (delete m (heads i) n).1 (heads j) n ≡ returns (n, m'))
      × Owns m'
          (put same (put same heads i (delete m (heads i) n).0) j n)
          (put same (put same lists i (erase n (lists i))) j (n ∷ lists j))
  move-Owns =
      let owns1 = delete-Owns same same_iff m heads lists owns i n mem in
      let ne = contains-ne_null m (heads i) n (lists i) (owns.list i) mem in
      let (m', calls, owns2, _) = push_back-Owns same same_iff _ _ _ owns1 j n ne NotIn-put in
      (m', rw not_same at calls, rw not_same at owns2)
