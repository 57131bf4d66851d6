-- ===== src/Dev/Virtio/Create.antt =====
-- `virtq_create`: the queue's parts in the memory that was allocated for them.
use otrix.Prelude.{
  ℕ, zero, suc, ◌+◌, ◌*◌, ◌%◌, ◌≤◌, ◌<◌, ◌≡◌, ◌≢◌, refl, List, [], ◌∷◌, length, arith, true, false,
  ◌==◌, ltb, ne→==, some, ap,
}
use otrix.Error.{Kerror, ok}
use otrix.IntrusiveList.{Ptr, null}
use otrix.IntrusiveList.Distinct.{NotIn, Distinct, Apart}
use otrix.Dev.Virtio.{
  Virtq, descriptor_table_size, available_ring_size, used_ring_size, alloc_size, new_virtq,
  virtq_create,
}
use otrix.Dev.Virtio.Chain.{Chain, AllBelow, IsValid}

-- `n`, `n + 1`, …, `n + k - 1`
abbrev pub up_from : ℕ → ℕ → List ℕ
up_from n zero = []
up_from n (suc k) = n ∷ up_from (suc n) k

NotIn-up_from : (a n k : ℕ) → a < n → NotIn a (up_from n k)
NotIn-up_from a n zero lt = tt
NotIn-up_from a n (suc k) lt = ((omega arith), NotIn-up_from a (suc n) k (omega arith))

Distinct-up_from : (n k : ℕ) → Distinct (up_from n k)
Distinct-up_from n zero = tt
Distinct-up_from n (suc k) = (NotIn-up_from n (suc n) k (omega arith), Distinct-up_from (suc n) k)

AllBelow-up_from : (m n k : ℕ) → n + k ≤ m → AllBelow m (up_from n k)
AllBelow-up_from m n zero le = tt
AllBelow-up_from m n (suc k) le = (omega arith, AllBelow-up_from m (suc n) k (omega arith))

length-up_from : (n k : ℕ) → length (up_from n k) ≡ k
length-up_from n zero = refl
length-up_from n (suc k) = ap suc (length-up_from (suc n) k)

Apart-nil : (xs : List ℕ) → Apart xs []
Apart-nil [] = tt
Apart-nil (x ∷ xs) = (tt, Apart-nil xs)

module _ (index queue_len : ℕ) (mem handler handler_ctx : Ptr) where
  abbrev pub created : Virtq
  created = new_virtq index queue_len mem handler handler_ctx

  next_is : (n : ℕ) → n + 1 < queue_len → created.desc_next n ≡ suc n
  unfolding new_virtq
  next_is n lt =
      let inner : (n + 1 == queue_len) ≡ false = ground arith in
      let below : ltb n queue_len ≡ true = ground arith in rw (inner, below) (omega arith)

  Chain-up_from : (n k : ℕ) → n + k ≡ queue_len → Chain created.desc_next n (up_from n k)
  Chain-up_from n zero e = tt
  Chain-up_from n (suc zero) e = (refl, tt)
  Chain-up_from n (suc (suc k)) e =
      (refl, rw (next_is n (omega arith)) (Chain-up_from (suc n) (suc k) (omega arith)))

  pub new_virtq-IsValid : queue_len ≤ 32768 → IsValid created (up_from 0 queue_len) []
  unfolding new_virtq
  new_virtq-IsValid small = record {
    chain = Chain-up_from 0 queue_len (omega arith);
    head_fits = omega arith;
    distinct_free = Distinct-up_from 0 queue_len;
    distinct_busy = tt;
    apart = Apart-nil (up_from 0 queue_len);
    free_below = AllBelow-up_from queue_len 0 queue_len (omega arith);
    busy_below = tt;
    counts_free = omega (arith, length-up_from 0 queue_len);
    counts = omega (arith, length-up_from 0 queue_len);
    links_fit = λ i. ground arith;
    small = small;
  }

  -- The parts of a queue: the descriptor table, the available ring and the used ring, the latter on a page
  -- of its own, and the contexts, one behind the other in the `alloc_size` bytes at `mem`.
  pub record LaidOut (q : Virtq) : Type 0 where
    pub table_on_page : q.desc_table % 4096 ≡ 0
    pub table_inside : mem ≤ q.desc_table
    pub table_end : q.desc_table + descriptor_table_size queue_len ≡ q.avail_ring_hdr
    pub avail_end : q.avail_ring_hdr + available_ring_size queue_len ≤ q.used_ring_hdr
    pub used_on_page : q.used_ring_hdr % 4096 ≡ 0
    pub used_end : q.used_ring_hdr + used_ring_size queue_len ≤ q.desc_ctx_at
    pub ctx_end : q.desc_ctx_at + 8 * queue_len ≤ mem + alloc_size queue_len
    pub avail_behind_hdr : q.avail_ring_at ≡ q.avail_ring_hdr + 4
    pub used_behind_hdr : q.used_ring_at ≡ q.used_ring_hdr + 4

  new_virtq-LaidOut : LaidOut created
  unfolding new_virtq
  new_virtq-LaidOut = record {
    table_on_page = omega arith;
    table_inside = omega arith;
    table_end = refl;
    avail_end = omega arith;
    used_on_page = omega arith;
    used_end = omega arith;
    ctx_end = omega arith;
    avail_behind_hdr = refl;
    used_behind_hdr = refl;
  }

  -- For 1 to 32768 descriptors, when both allocations succeed, the new queue has them all free in
  -- ascending order, and its parts lie in the allocated memory, aligned and without overlap.
  pub virtq_create-LaidOut :
      (vq : Ptr) (vector : Kerror × ℕ)
      → 0 < queue_len
      → queue_len ≤ 32768
      → vq ≢ null
      → mem ≢ null
      → (q : Virtq) × ((virtq_create index queue_len vq mem vector handler handler_ctx).0 ≡ ok)
        × ((virtq_create index queue_len vq mem vector handler handler_ctx).1 ≡ some q)
        × IsValid q (up_from 0 queue_len) []
        × LaidOut q
  unfolding virtq_create
  virtq_create-LaidOut vq vector some_len small live backed = (
    created,
    rw (ne→== live, ne→== backed) refl,
    rw (ne→== live, ne→== backed) refl,
    new_virtq-IsValid small,
    new_virtq-LaidOut,
  )
