-- ===== src/Dev/Virtio/Send.antt =====
-- `virtq_send_buffer`: a descriptor goes to the device.
use otrix.Prelude.{
  ℕ, ◌+◌, ◌%◌, ◌≡◌, ◌≢◌, refl, List, [], ◌∷◌, arith, Bool, true, false, ◌==◌, ne→==, ==_self,
  if◌then◌else◌, Bool-cases, inl, inr,
}
use otrix.Error.{ok, nomem}
use otrix.IntrusiveList.{Ptr, null}
use otrix.IntrusiveList.Distinct.{Apart-cons}
use otrix.Dev.Virtio.{
  Virtq, RegWrite, minus_one, no_notify, queue_notify, put_available, virtq_send_buffer,
}
use otrix.Dev.Virtio.Chain.{IsValid, Chain-update}

-- The write to the device that follows a buffer, unless the device asked for none.
abbrev pub notification : Virtq → List RegWrite
notification q =
    if no_notify q.used_flags then [] else record { reg = queue_notify; value = q.index } ∷ []

module _ (q : Virtq) (buffer : Ptr) (n : ℕ) (writable : Bool) (ctx : Ptr) where
  pub put_available-IsValid :
      (x : ℕ) (xs busy : List ℕ)
      → IsValid q (x ∷ xs) busy
      → IsValid (put_available q buffer n writable ctx) xs (x ∷ busy)
  unfolding put_available
  put_available-IsValid x xs busy v =
      let at : q.free_list ≡ x = v.chain.0 in
      record {
        chain = rw at (Chain-update q.desc_next x 0 (q.desc_next x) xs v.distinct_free.0 v.chain.1);
        head_fits = v.links_fit q.free_list;
        distinct_free = v.distinct_free.1;
        distinct_busy = (v.apart.0, v.distinct_busy);
        apart = Apart-cons x xs busy v.distinct_free.0 v.apart.1;
        free_below = v.free_below.1;
        busy_below = (v.free_below.0, v.busy_below);
        counts_free = omega (arith, v.counts_free);
        counts = omega (arith, v.counts);
        links_fit = λ i. elim (Bool-cases (i == q.free_list)) [
          | inl e ↦ rw e (omega arith)
          | inr e ↦ rw e (v.links_fit i)
        ];
        small = v.small;
      }

  -- What the device reads of the queue `q'` that a buffer was sent through: one more entry of the
  -- available ring than in `q`, which names a descriptor with the buffer, and a higher index.
  pub record Sent (q' : Virtq) (x : ℕ) : Type 0 where
    pub slot : q'.avail_ring (q.avail_idx % q.size) ≡ x
    pub idx : q'.avail_idx ≡ (q.avail_idx + 1) % 65536
    pub addr : q'.desc_addr x ≡ buffer
    pub len : q'.desc_len x ≡ n
    pub data_ctx : q'.desc_ctx x ≡ ctx
    pub writable_flag : q'.desc_flags x ≡ (if writable then 2 else 0)

  put_available-Sent : (x : ℕ) → q.free_list ≡ x → Sent (put_available q buffer n writable ctx) x
  unfolding put_available
  put_available-Sent x at = rw at (record {
    slot = rw (==_self (q.avail_idx % q.size)) refl;
    idx = refl;
    addr = rw (==_self x) refl;
    len = rw (==_self x) refl;
    data_ctx = rw (==_self x) refl;
    writable_flag = rw (==_self x) refl;
  })

  -- With a free descriptor, `x`, a buffer that is not NULL and not empty is sent: the invariant holds with
  -- `x` at the device, the other free descriptors stay in order, and in the queue that the call
  -- leaves the device finds the buffer.
  pub virtq_send_buffer-IsValid :
      (x : ℕ) (xs busy : List ℕ)
      → IsValid q (x ∷ xs) busy
      → buffer ≢ null
      → n ≢ 0
      → (q' : Virtq) × (virtq_send_buffer q buffer n writable ctx ≡ (ok, q', notification q))
        × IsValid q' xs (x ∷ busy)
        × Sent q' x
  unfolding virtq_send_buffer
  virtq_send_buffer-IsValid x xs busy v live some =
      let room : (q.free_list == minus_one) ≡ false = ground (arith, v.head_fits) in
      let left : (q.num_free_descriptors == 0) ≡ false = ground (arith, v.counts_free) in
      (
        put_available q buffer n writable ctx,
        rw (ne→== live, ne→== some, room, left) refl,
        put_available-IsValid x xs busy v,
        put_available-Sent x v.chain.0,
      )

  -- When the device has every descriptor, sending fails and changes nothing, although the end of the
  -- free list is 65535 and not the -1 that the code compares with.
  pub virtq_send_buffer-nomem :
      (busy : List ℕ)
      → IsValid q [] busy
      → buffer ≢ null
      → n ≢ 0
      → virtq_send_buffer q buffer n writable ctx ≡ (nomem, q, [])
  unfolding virtq_send_buffer
  virtq_send_buffer-nomem busy v live some =
      let full : (q.num_free_descriptors == 0) ≡ true = ground (arith, v.counts_free) in
      let room : (q.free_list == minus_one) ≡ false = ground (arith, v.head_fits) in
      rw (ne→== live, ne→== some, room, full) refl
