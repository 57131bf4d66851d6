-- ===== src/HashMap/Tests.antt =====
-- The hash tables at concrete nodes, and the theorems at them.
use otrix.Prelude.{
  ℕ, ◌≡◌, ◌≢◌, refl, List, [], ◌∷◌, arith, ◌==◌, ==_iff, if◌then◌else◌, Bool-cases, inl, inr,
  returns, ap,
}
use otrix.IntrusiveList.{Ptr, null, Links}
use otrix.IntrusiveList.Chain.{IsList}
use otrix.IntrusiveList.Distinct.{Apart}
use otrix.IntrusiveList.Table.{Owns, put}
use otrix.HashMap.{Eq, HashMap, hash_map, bucket, insert, remove, find}
use otrix.HashMap.Update.{insert-find, remove-find}
use otrix.HashMap.Pooled.{Entries, PooledHashMap}
use otrix.HashMap.Pooled.Laws.{Slot, pool, bucket_at, heads}

instance abbrev nat_eq : Eq ℕ
nat_eq = record { beq = ◌==◌; beq_iff = ==_iff }

-- Two buckets; node 8 has key 5, every other node key 0.
abbrev key : Ptr → ℕ
key p = if p == 8 then 5 else 0

abbrev alone : Links
alone = record { next = λ p. p; prev = λ p. p }

abbrev empty : HashMap ℕ
empty = record { table_size = 2; hash_func = λ k. k; table = λ _. null }

abbrev single : HashMap ℕ
single = record empty { table = λ i. if i == 1 then 8 else null }

abbrev single_lists : ℕ → List Ptr
single_lists i = if i == 1 then 8 ∷ [] else []

empty-Owns : Owns alone empty.table (λ _. [])
empty-Owns = record { list = λ i. refl; apart = λ i j ne. tt }

single-Owns : Owns alone single.table single_lists
single-Owns = record { list = list; apart = apart }
  where
    list : (i : ℕ) → IsList alone (single.table i) (single_lists i)
    list i = elim (Bool-cases (i == 1)) [ inl e ↦ rw e (omega arith) | inr e ↦ rw e refl ]

    apart : (i j : ℕ) → i ≢ j → Apart (single_lists i) (single_lists j)
    apart i j ne = elim (Bool-cases (i == 1)) [
      | inl e ↦ elim (Bool-cases (j == 1)) [
        | inl f ↦ absurd (ground arith)
        | inr f ↦ rw (e, f) (tt, tt)
      ]
      | inr e ↦ rw e tt
    ]

key_bucket : bucket single 5 ≡ 1
unfolding bucket
key_bucket = refl

hash_map-empty : hash_map 2 (λ k. k) ≡ empty
unfolding hash_map
hash_map-empty = refl

insert-find_example :
    (hm' : HashMap ℕ) × (m' : Links) × (insert alone empty key 8 ≡ returns (hm', m'))
    × Owns m' hm'.table (put ◌==◌ (λ _. []) 1 (8 ∷ []))
    × (find 1 m' hm' key 5 ≡ returns 8)
unfolding bucket
insert-find_example =
    insert-find key alone empty (λ _. []) empty-Owns 8 1 5 (omega arith) (λ j. tt) (omega arith)

remove-find_example :
    Owns
      (remove alone single key 8).1
      (remove alone single key 8).0.table
      (put ◌==◌ single_lists 1 [])
    × (find 1 (remove alone single key 8).1 (remove alone single key 8).0 key 5 ≡ returns null)
unfolding bucket
remove-find_example =
    remove-find key alone single single_lists single-Owns 8 1 5 refl (tt, tt) (omega arith)

-- A pool of two entries of 48 bytes at address 100, each with its node 16 bytes in.
abbrev pair : PooledHashMap ℕ
pair = record {
  base = empty;
  pool_begin = 100;
  pool_size = 2;
  entry_size = 48;
  node_offset = 16;
  pool_head = 164;
}

abbrev pair_links : Links
pair_links = record {
  next = λ p. if p == 164 then 116 else if p == 116 then 164 else p;
  prev = λ p. if p == 164 then 116 else if p == 116 then 164 else p;
}

abbrev entries : Entries ℕ ℕ
entries = record { links = pair_links; key = λ _. 0; value = λ _. 0 }

abbrev pair_lists : Slot → List Ptr
pair_lists pool = 164 ∷ 116 ∷ []
pair_lists (bucket_at i) = []

pair-Owns : Owns pair_links (heads pair) pair_lists
pair-Owns = record { list = list; apart = apart }
  where
    list : (i : Slot) → IsList pair_links (heads pair i) (pair_lists i)
    list pool = omega arith
    list (bucket_at i) = refl

    apart : (i j : Slot) → i ≢ j → Apart (pair_lists i) (pair_lists j)
    apart pool pool ne = absurd (ne refl)
    apart pool (bucket_at j) ne = (tt, (tt, tt))
    apart (bucket_at i) j ne = tt

-- The same pool with entry 164 in the bucket of key 7.
abbrev filled : PooledHashMap ℕ
filled = record pair {
  base = record empty { table = λ i. if i == 1 then 164 else null };
  pool_head = 116;
}

abbrev filled_entries : Entries ℕ ℕ
filled_entries = record entries { links = alone; key = λ p. if p == 164 then 7 else 0 }

abbrev filled_lists : Slot → List Ptr
filled_lists pool = 116 ∷ []
filled_lists (bucket_at i) = if i == 1 then 164 ∷ [] else []

filled-Owns : Owns alone (heads filled) filled_lists
filled-Owns = record { list = list; apart = apart }
  where
    list : (i : Slot) → IsList alone (heads filled i) (filled_lists i)
    list pool = omega arith
    list (bucket_at i) = elim (Bool-cases (i == 1)) [
      | inl e ↦ rw e (omega arith)
      | inr e ↦ rw e refl
    ]

    apart : (i j : Slot) → i ≢ j → Apart (filled_lists i) (filled_lists j)
    apart pool pool ne = absurd (ne refl)
    apart pool (bucket_at j) ne = elim (Bool-cases (j == 1)) [
      | inl e ↦ rw e (omega arith)
      | inr e ↦ rw e (tt, tt)
    ]
    apart (bucket_at i) pool ne = elim (Bool-cases (i == 1)) [
      | inl e ↦ rw e (omega arith)
      | inr e ↦ rw e tt
    ]
    apart (bucket_at i) (bucket_at j) ne = elim (Bool-cases (i == 1)) [
      | inl e ↦ elim (Bool-cases (j == 1)) [
        | inl f ↦ absurd (ne (ap bucket_at (ground arith)))
        | inr f ↦ rw (e, f) (tt, tt)
      ]
      | inr e ↦ rw e tt
    ]
