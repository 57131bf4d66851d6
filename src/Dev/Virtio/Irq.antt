-- ===== src/Dev/Virtio/Irq.antt =====
-- `handle_vq_irq`: the descriptors that the device is done with.
use otrix.Prelude.{
  ℕ, zero, suc, ◌+◌, ◌-◌, ◌%◌, ◌<◌, ◌≡◌, ◌≢◌, refl, sym, subst, ap, List, [], ◌∷◌, length, arith,
  true, ◌==◌, ne→==, ==_iff, ==_self, Bool-cases, inl, inr, returns,
}
use otrix.IntrusiveList.{null, update}
use otrix.IntrusiveList.Distinct.{NotIn, Distinct, Apart, Apart-sym}
use otrix.IntrusiveList.Erase.{contains, erase, Apart-contains, NotIn-erase, NotIn-erase_self}
use otrix.Dev.Virtio.{Virtq, Completion, completion, reclaim, handle_vq_irq}
use otrix.Dev.Virtio.Chain.{Chain, AllBelow, IsValid, Chain-update}

AllBelow-contains : (n d : ℕ) (xs : List ℕ) → AllBelow n xs → contains d xs ≡ true → d < n
AllBelow-contains n d [] all mem = cc
AllBelow-contains n d (x ∷ xs) all mem = elim (Bool-cases (d == x)) [
  | inl e ↦ let at : d ≡ x = (==_iff d x).0 e in rw at all.0
  | inr e ↦ AllBelow-contains n d xs all.1 (ground arith)
]

AllBelow-erase : (n d : ℕ) (xs : List ℕ) → AllBelow n xs → AllBelow n (erase d xs)
AllBelow-erase n d [] all = tt
AllBelow-erase n d (x ∷ xs) all = elim (Bool-cases (d == x)) [
  | inl e ↦ rw e all.1
  | inr e ↦ rw e (all.0, AllBelow-erase n d xs all.1)
]

Distinct-erase : (d : ℕ) (xs : List ℕ) → Distinct xs → Distinct (erase d xs)
Distinct-erase d [] h = tt
Distinct-erase d (x ∷ xs) h = elim (Bool-cases (d == x)) [
  | inl e ↦ rw e h.1
  | inr e ↦ rw e (NotIn-erase x d xs h.0, Distinct-erase d xs h.1)
]

pub length-erase :
    (d : ℕ) (xs : List ℕ) → contains d xs ≡ true → suc (length (erase d xs)) ≡ length xs
length-erase d [] mem = cc
length-erase d (x ∷ xs) mem = elim (Bool-cases (d == x)) [
  | inl e ↦ rw e refl
  | inr e ↦ rw e (ap suc (length-erase d xs (ground arith)))
]

Apart-erase_right : (d : ℕ) (xs ys : List ℕ) → Apart xs ys → Apart xs (erase d ys)
Apart-erase_right d [] ys h = tt
Apart-erase_right d (x ∷ xs) ys h = (NotIn-erase x d ys h.0, Apart-erase_right d xs ys h.1)

module _ (q : Virtq) (free busy : List ℕ) (v : IsValid q free busy) (d : ℕ)
    (mem : contains d busy ≡ true) where
  out : NotIn d free
  out = Apart-contains d busy free mem (Apart-sym free busy v.apart)

  next_is : update q.desc_next d (q.free_list % 65536) d ≡ q.free_list
  next_is = rw (==_self d) (omega (arith, v.head_fits))

  pub reclaim-IsValid : IsValid (reclaim q d) (d ∷ free) (erase d busy)
  unfolding reclaim
  reclaim-IsValid = record {
    chain = (
      refl,
      subst (λ h. Chain (update q.desc_next d (q.free_list % 65536)) h free) (sym next_is)
          (Chain-update q.desc_next d (q.free_list % 65536) q.free_list free out v.chain),
    );
    head_fits = omega (arith, AllBelow-contains q.size d busy v.busy_below mem, v.small);
    distinct_free = (out, v.distinct_free);
    distinct_busy = Distinct-erase d busy v.distinct_busy;
    apart = (NotIn-erase_self d busy v.distinct_busy, Apart-erase_right d free busy v.apart);
    free_below = (AllBelow-contains q.size d busy v.busy_below mem, v.free_below);
    busy_below = AllBelow-erase q.size d busy v.busy_below;
    counts_free = omega (arith, v.counts_free);
    counts = omega (arith, v.counts, length-erase d busy mem);
    links_fit = λ i. elim (Bool-cases (i == d)) [
      | inl e ↦ rw e (omega arith)
      | inr e ↦ rw e (v.links_fit i)
    ];
    small = v.small;
  }

-- The identifiers in the used ring, from the index `k` of the driver to the index `dev` of the device.
abbrev pub Pending : (ℕ → ℕ) → ℕ → ℕ → ℕ → List ℕ → Type 0
Pending ring size dev k [] = k ≡ dev
Pending ring size dev k (d ∷ ds) =
    (k ≢ dev) × (ring (k % size) ≡ d) × Pending ring size dev ((k + 1) % 65536) ds

-- The `n` identifiers from the index `k` on.
abbrev pub used_ids : (ℕ → ℕ) → ℕ → ℕ → ℕ → List ℕ
used_ids ring size k zero = []
used_ids ring size k (suc n) = ring (k % size) ∷ used_ids ring size ((k + 1) % 65536) n

-- How many elements the device put into the used ring since the last interrupt.
abbrev pub backlog : Virtq → ℕ
backlog q = (q.device_idx + 65536 - q.used_idx) % 65536

used_ids-Pending :
    (ring : ℕ → ℕ) (size dev k n : ℕ)
    → k < 65536
    → dev < 65536
    → (dev + 65536 - k) % 65536 ≡ n
    → Pending ring size dev k (used_ids ring size k n)
used_ids-Pending ring size dev k zero hk hd e = omega arith
used_ids-Pending ring size dev k (suc n) hk hd e = (
  omega arith,
  refl,
  used_ids-Pending ring size dev ((k + 1) % 65536) n (omega arith) hd (omega arith),
)

length-used_ids : (ring : ℕ → ℕ) (size k n : ℕ) → length (used_ids ring size k n) ≡ n
length-used_ids ring size k zero = refl
length-used_ids ring size k (suc n) = ap suc (length-used_ids ring size ((k + 1) % 65536) n)

-- Each identifier is that of a descriptor at the device, none twice.
abbrev pub AllBusy : List ℕ → List ℕ → Type 0
AllBusy busy [] = Unit {0}
AllBusy busy (d ∷ ds) = (contains d busy ≡ true) × AllBusy (erase d busy) ds

abbrev pub erase_all : List ℕ → List ℕ → List ℕ
erase_all busy [] = busy
erase_all busy (d ∷ ds) = erase_all (erase d busy) ds

-- `xs`, in reverse order, in front of `ys`.
abbrev pub onto {ℓ} : {A : Type ℓ} → List A → List A → List A
onto [] ys = ys
onto (x ∷ xs) ys = onto xs (x ∷ ys)

abbrev pub completions : Virtq → List ℕ → List Completion
completions q [] = []
completions q (d ∷ ds) = completion q d ∷ completions q ds

reclaim-completions :
    (q : Virtq) (d : ℕ) (ds : List ℕ) → completions (reclaim q d) ds ≡ completions q ds
unfolding reclaim
reclaim-completions q d [] = refl
reclaim-completions q d (x ∷ xs) = ap (λ l. completion q x ∷ l) (reclaim-completions q d xs)

handle_vq_irq-Pending :
    (ids : List ℕ) (fuel : ℕ) (q : Virtq) (free busy : List ℕ) (done : List Completion)
    → IsValid q free busy
    → q.irq_handler ≢ null
    → Pending q.used_ring q.size q.device_idx q.used_idx ids
    → AllBusy busy ids
    → length ids < fuel
    → (q' : Virtq) × (handle_vq_irq fuel q done ≡ returns (q', onto (completions q ids) done))
      × IsValid q' (onto ids free) (erase_all busy ids)
      × (q'.used_idx ≡ q.device_idx)
unfolding handle_vq_irq
handle_vq_irq-Pending ids zero q free busy done v live p all enough = elim enough [ ]
handle_vq_irq-Pending [] (suc fuel) q free busy done v live p all enough =
    let stop : (q.used_idx == q.device_idx) ≡ true = (==_iff _ _).1 p in (q, rw stop refl, v, p)
handle_vq_irq-Pending (d ∷ ds) (suc fuel) q free busy done v live p all enough =
    let (q', calls, v', idx) =
      handle_vq_irq-Pending ds fuel (reclaim q d) (d ∷ free) (erase d busy) (completion q d ∷ done)
        (reclaim-IsValid q free busy v d all.0) live p.2 all.1 (omega arith) in
    (q', rw (ne→== p.0, p.1, ne→== live, calls) (rw (reclaim-completions q d ds) refl), v', idx)

-- An interrupt of a queue with a handler, whose used ring names descriptors at the device, none twice:
-- with one round for each of them and one more the loop ends. The handler is called for each, in
-- order, with the buffer that was sent and its whole length; their descriptors come back to the
-- free list, the last one first, the others stay at the device, and the driver has caught up.
pub handle_vq_irq-IsValid :
    (fuel : ℕ) (q : Virtq) (free busy : List ℕ)
    → let ids = used_ids q.used_ring q.size q.used_idx (backlog q) in
      IsValid q free busy
      → q.irq_handler ≢ null
      → q.used_idx < 65536
      → q.device_idx < 65536
      → AllBusy busy ids
      → backlog q < fuel
      → (q' : Virtq) × (handle_vq_irq fuel q [] ≡ returns (q', onto (completions q ids) []))
        × IsValid q' (onto ids free) (erase_all busy ids)
        × (q'.used_idx ≡ q.device_idx)
handle_vq_irq-IsValid fuel q free busy v live hk hd all enough =
    handle_vq_irq-Pending _ fuel q free busy [] v live
      (used_ids-Pending q.used_ring q.size q.device_idx q.used_idx (backlog q) hk hd refl) all
      (omega (arith, enough, length-used_ids q.used_ring q.size q.used_idx (backlog q)))
