-- ===== src/HashMap/Update.antt =====
-- What inserting and removing a node does to what every key finds.
use otrix.Prelude.{
  ℕ, suc, ◌≤◌, ◌≡◌, ◌≢◌, refl, sym, List, ◌∷◌, Bool, true, false, ◌==◌, ==_iff, if◌then◌else◌,
  Bool-cases, inl, inr, length, ==_self, ap, ◌∙◌, ◌>>=◌, arith, returns,
}
use otrix.IntrusiveList.{Ptr, null, Links, update, push_back}
use otrix.IntrusiveList.Distinct.{NotIn}
use otrix.IntrusiveList.Erase.{contains, erase}
use otrix.IntrusiveList.Table.{Owns, push_back-Owns, delete-Owns, put}
use otrix.HashMap.Lookup.{lookup, Unique, lookup-erase, length-erase, find-table}
use otrix.HashMap.{Eq, HashMap, bucket, insert, remove, find}

true-ne_false : {b : Bool} → b ≡ true → b ≡ false → ⊥
true-ne_false p q = cc

pub insert_calls :
    {K : Type 0} (m m' : Links) (hm : HashMap K) (key : Ptr → K) (n : Ptr) (i : ℕ)
    → bucket hm (key n) ≡ i
    → push_back m (hm.table i) n ≡ returns (n, m')
    → insert m hm key n ≡ returns (record hm { table = update hm.table i n }, m')
unfolding insert
insert_calls m m' hm key n i at calls = rw (at, calls) refl

module _ {K : Type 0} ⦃e : Eq K⦄ (key : Ptr → K) where
  module _ (m : Links) (hm : HashMap K) (lists : ℕ → List Ptr) (owns : Owns m hm.table lists) where
    -- Keys of different buckets differ.
    beq-bucket :
        (n : Ptr) (k : K) → (bucket hm k == bucket hm (key n)) ≡ false → e.beq (key n) k ≡ false
    beq-bucket n k far = elim (Bool-cases (e.beq (key n) k)) [
      | inl hit ↦
          let same : key n ≡ k = (e.beq_iff (key n) k).0 hit in
          let near : (bucket hm k == bucket hm (key n)) ≡ true = rw same (==_self (bucket hm k)) in
          absurd (true-ne_false near far)
      | inr miss ↦ miss
    ]

    bucket-put :
        (n : Ptr) (k : K)
        → lookup key k
            (put ◌==◌ lists (bucket hm (key n)) (n ∷ lists (bucket hm (key n))) (bucket hm k))
          ≡ (if e.beq (key n) k then n else lookup key k (lists (bucket hm k)))
    bucket-put n k = elim (Bool-cases (e.beq (key n) k)) [
      | inl hit ↦
          let same : key n ≡ k = (e.beq_iff (key n) k).0 hit in
          let near : (bucket hm k == bucket hm (key n)) ≡ true = rw same (==_self (bucket hm k)) in
          rw (near, hit) refl
      | inr miss ↦ elim (Bool-cases (bucket hm k == bucket hm (key n))) [
        | inl near ↦ rw (near, miss) (ap (λ i. lookup key k (lists i)) (sym ((==_iff _ _).0 near)))
        | inr far ↦ rw (far, miss) refl
      ]
    ]

    length-put :
        (n : Ptr) (i j fuel : ℕ)
        → suc (length (lists j)) ≤ fuel
        → length (put ◌==◌ lists i (n ∷ lists i) j) ≤ fuel
    length-put n i j fuel le = elim (Bool-cases (j == i)) [
      | inl near ↦ rw near (let same : j ≡ i = (==_iff j i).0 near in rw same at le)
      | inr far ↦ rw far (omega arith)
    ]

    -- Inserting a node that is not NULL and in no bucket of a table whose buckets share no node: the
    -- node comes first in its key's bucket, the buckets still share no node, and from then on its key
    -- finds it and every other key finds what it found before, if the loop of `find` may make
    -- one round for each node of the key's bucket.
    pub insert-find :
        (n : Ptr) (fuel : ℕ) (k : K)
        → n ≢ null
        → ((j : ℕ) → NotIn n (lists j))
        → suc (length (lists (bucket hm k))) ≤ fuel
        → (hm' : HashMap K) × (m' : Links) × (insert m hm key n ≡ returns (hm', m'))
          × Owns m' hm'.table (put ◌==◌ lists (bucket hm (key n)) (n ∷ lists (bucket hm (key n))))
          × (find fuel m' hm' key k
              ≡ returns (if e.beq (key n) k then n else lookup key k (lists (bucket hm k))))
    unfolding insert
    insert-find n fuel k ne fresh le =
        let (m', calls, owns', agree) =
          push_back-Owns ◌==◌ ==_iff m hm.table lists owns (bucket hm (key n)) n ne fresh in
        (
          record hm { table = update hm.table (bucket hm (key n)) n },
          m',
          rw (calls, ◌>>=◌) refl,
          owns',
          find-table key fuel m' hm _ _ owns' k (length-put n _ _ fuel le)
              ∙ ap returns (bucket-put n k),
        )

    bucket-erase-put :
        (n : Ptr) (k : K)
        → contains n (lists (bucket hm (key n))) ≡ true
        → Unique key (lists (bucket hm (key n)))
        → lookup key k
            (put ◌==◌ lists (bucket hm (key n)) (erase n (lists (bucket hm (key n)))) (bucket hm k))
          ≡ (if e.beq (key n) k then null else lookup key k (lists (bucket hm k)))
    bucket-erase-put n k mem only = elim (Bool-cases (bucket hm k == bucket hm (key n))) [
      | inl near ↦
          let same : bucket hm k ≡ bucket hm (key n) = (==_iff _ _).0 near in
          rw (near, same) (lookup-erase key k n _ only mem)
      | inr far ↦ let miss : e.beq (key n) k ≡ false = beq-bucket n k far in rw (far, miss) refl
    ]

    length-erase-put :
        (n : Ptr) (k : K) (fuel : ℕ)
        → length (lists (bucket hm k)) ≤ fuel
        → length
            (put ◌==◌ lists (bucket hm (key n)) (erase n (lists (bucket hm (key n)))) (bucket hm k))
          ≤ fuel
    length-erase-put n k fuel le = elim (Bool-cases (bucket hm k == bucket hm (key n))) [
      | inl near ↦
          let same : bucket hm k ≡ bucket hm (key n) = (==_iff _ _).0 near in
          let small : length (erase n (lists (bucket hm k))) ≤ fuel =
            omega (arith, length-erase key n (lists (bucket hm k))) in
          rw (near, ← same) small
      | inr far ↦ rw far le
    ]

    -- Removing a node of a bucket whose keys are distinct, in a table whose buckets share no node: the
    -- node leaves the bucket, the buckets still share no node, and from then on its key finds nothing and every other key finds what it found before, if the loop of `find` may
    -- make one round for each node of the key's bucket.
    pub remove-find :
        (n : Ptr) (fuel : ℕ) (k : K)
        → contains n (lists (bucket hm (key n))) ≡ true
        → Unique key (lists (bucket hm (key n)))
        → length (lists (bucket hm k)) ≤ fuel
        → Owns
            (remove m hm key n).1
            (remove m hm key n).0.table
            (put ◌==◌ lists (bucket hm (key n)) (erase n (lists (bucket hm (key n)))))
          × (find fuel (remove m hm key n).1 (remove m hm key n).0 key k
              ≡ returns (if e.beq (key n) k then null else lookup key k (lists (bucket hm k))))
    unfolding remove
    remove-find n fuel k mem only le =
        let owns' = delete-Owns ◌==◌ ==_iff m hm.table lists owns (bucket hm (key n)) n mem in
        (
          owns',
          find-table key fuel _ hm _ _ owns' k (length-erase-put n k fuel le)
              ∙ ap returns (bucket-erase-put n k mem only),
        )
