-- ===== src/Kmem/PutBack.antt =====
-- A freed block among the free ones: the two merges of kmem_free, one after the other, are `put_back`.
use otrix.Prelude.{
  ℕ, ◌+◌, ◌≤◌, ◌<◌, ◌≡◌, ◌⊎◌, inl, inr, refl, ap, subst, ◌∙◌, List, [], ◌∷◌, ◌++◌, append_assoc,
  arith, true, false, ltb, ◌==◌, ==_iff, if◌then◌else◌, Bool-cases,
}
use otrix.Kmem.{min_free_block_size}
use otrix.Kmem.Blocks.{
  Block, Layout, Clear, Beyond, Coalesced, join, put_back, Layout-split, Layout-hi,
}
use otrix.Kmem.Link.{snoc_cases}

pub put_back-first :
    (b s : ℕ) (zs : List Block) (hi : ℕ)
    → Layout (b + s) zs hi
    → min_free_block_size ≤ s
    → put_back (b, s) zs ≡ join (b, s) zs
put_back-first b s [] hi l big = refl
put_back-first b s ((a, t) ∷ zs) hi l big =
    let apart : (a + t == b) ≡ false = ground arith in
    let below : ltb b a ≡ true = ground arith in rw (apart, below) refl

pub put_back-behind :
    (lo : ℕ) (ws : List Block) (q t b s : ℕ) (zs : List Block) (hi : ℕ)
    → Layout lo (ws ++ (q, t) ∷ []) b
    → Layout (b + s) zs hi
    → min_free_block_size ≤ s
    → put_back (b, s) (ws ++ (q, t) ∷ zs)
      ≡ ws ++ (if (q + t) == b then join (q, t + s) zs else (q, t) ∷ join (b, s) zs)
put_back-behind lo [] q t b s zs hi l k big =
    let below : ltb b q ≡ false = ground arith in rw (below, put_back-first b s zs hi k big) refl
put_back-behind lo ((a, u) ∷ ws) q t b s zs hi l k big =
    let (x, y, z) = Layout-split (a + u) ws q t [] b l.2 in
    let before = Layout-hi (a + u) ws q x in
    let apart : (a + u == b) ≡ false = ground arith in
    let below : ltb b a ≡ false = ground arith in
    rw (apart, below, put_back-behind (a + u) ws q t b s zs hi l.2 k big) refl

-- Coalescing keeps the free blocks from touching.
join_cases :
    (a s : ℕ) (zs : List Block) (hi : ℕ)
    → Layout (a + s) zs hi
    → Coalesced zs
    → (u : ℕ) × (r : List Block) × (join (a, s) zs ≡ (a, u) ∷ r) × Coalesced ((a, u) ∷ r)
join_cases a s [] hi l c = (s, [], refl, (tt, tt))
join_cases a s ((b, t) ∷ zs) hi l c = elim (Bool-cases ((a + s) == b)) [
  | inl touch ↦ (s + t, zs, rw touch refl, (beyond zs c.0 (ground arith), c.1))
  | inr apart ↦ (s, (b, t) ∷ zs, rw apart refl, (ground arith, c))
]
  where
    beyond : (cs : List Block) → Beyond (b + t) cs → a + (s + t) ≤ b + t → Beyond (a + (s + t)) cs
    beyond [] c le = tt
    beyond ((d, v) ∷ cs) c le = omega arith

-- A block may change its size, and what follows it.
Coalesced-append :
    (ws : List Block) (q t u : ℕ) (zs r : List Block)
    → Coalesced (ws ++ (q, t) ∷ zs)
    → Coalesced ((q, u) ∷ r)
    → Coalesced (ws ++ (q, u) ∷ r)
Coalesced-append [] q t u zs r c k = k
Coalesced-append ((a, s) ∷ []) q t u zs r c k = (c.0, k)
Coalesced-append ((a, s) ∷ (b, v) ∷ ws) q t u zs r c k =
    (c.0, Coalesced-append ((b, v) ∷ ws) q t u zs r c.1 k)

Coalesced-behind :
    (ws : List Block) (q t : ℕ) (zs : List Block) → Coalesced (ws ++ (q, t) ∷ zs) → Coalesced zs
Coalesced-behind [] q t zs c = c.1
Coalesced-behind ((a, s) ∷ ws) q t zs c = Coalesced-behind ws q t zs c.1

put_back-Coalesced_behind :
    (lo : ℕ) (ws : List Block) (q t b s : ℕ) (zs : List Block) (hi : ℕ)
    → Layout lo (ws ++ (q, t) ∷ []) b
    → Layout (b + s) zs hi
    → min_free_block_size ≤ s
    → Coalesced (ws ++ (q, t) ∷ zs)
    → Coalesced (put_back (b, s) (ws ++ (q, t) ∷ zs))
put_back-Coalesced_behind lo ws q t b s zs hi l k big c =
    let shape = put_back-behind lo ws q t b s zs hi l k big in
    let (x, y, z) = Layout-split lo ws q t [] b l in
    let rest = Coalesced-behind ws q t zs c in
    elim (Bool-cases ((q + t) == b)) [
      | inl touch ↦
          let up : Layout (q + (t + s)) zs hi = subst (λ e. Layout e zs hi) (ground arith) k in
          let (u, r, e, good) = join_cases q (t + s) zs hi up rest in
          rw shape (rw (touch, e) (Coalesced-append ws q t u zs r c good))
      | inr apart ↦
          let (u, r, e, good) = join_cases b s zs hi k rest in
          rw shape
            (rw (apart, e) (Coalesced-append ws q t t zs ((b, u) ∷ r) c (ground arith, good)))
    ]

pub put_back-Coalesced :
    (lo b s : ℕ) (ys zs : List Block) (hi : ℕ)
    → Layout lo ys b
    → Layout (b + s) zs hi
    → min_free_block_size ≤ s
    → Coalesced (ys ++ zs)
    → Coalesced (put_back (b, s) (ys ++ zs))
put_back-Coalesced lo b s ys zs hi l k big c = elim (snoc_cases ys) [
  | inl e ↦
      let (u, r, join_eq, good) = join_cases b s zs hi k (rw e at c) in
      rw (e, put_back-first b s zs hi k big, join_eq) good
  | inr (ws, q, t, e) ↦
      let flat : ys ++ zs ≡ ws ++ (q, t) ∷ zs =
        ap (λ cs. cs ++ zs) e ∙ append_assoc ws ((q, t) ∷ []) zs in
      rw flat (put_back-Coalesced_behind lo ws q t b s zs hi (rw e at l) k big (rw flat at c))
]

-- What is clear of two blocks is clear of the block that they are joined to.
join-Clear :
    (c t a s : ℕ) (zs : List Block)
    → 0 < t
    → Clear c t zs
    → (c + t ≤ a) ⊎ (a + s ≤ c)
    → Clear c t (join (a, s) zs)
join-Clear c t a s [] pos clear apart = (apart, tt)
join-Clear c t a s ((b, u) ∷ zs) pos clear apart = elim (Bool-cases ((a + s) == b)) [
  | inl touch ↦
      let b_eq : a + s ≡ b = (==_iff (a + s) b).0 touch in
      rw touch ((ground (arith, clear.0, apart, b_eq)), clear.1)
  | inr no_touch ↦ rw no_touch (apart, clear)
]

pub put_back-Clear :
    (c t b s : ℕ) (bs : List Block)
    → 0 < t
    → Clear c t bs
    → (c + t ≤ b) ⊎ (b + s ≤ c)
    → Clear c t (put_back (b, s) bs)
put_back-Clear c t b s [] pos clear apart = (apart, tt)
put_back-Clear c t b s ((a, u) ∷ bs) pos clear apart =
    let joined = join-Clear c t b s ((a, u) ∷ bs) pos clear apart in
    let rest = put_back-Clear c t b s bs pos clear.1 apart in
    elim (Bool-cases ((a + u) == b)) [
      | inl touch ↦
          let at : a + u ≡ b = (==_iff (a + u) b).0 touch in
          rw touch (join-Clear c t a (u + s) bs pos clear.1 (ground (arith, clear.0, apart, at)))
      | inr no_touch ↦ elim (Bool-cases (ltb b a)) [
        | inl below ↦ rw (no_touch, below) joined
        | inr above ↦ rw (no_touch, above) (clear.0, rest)
      ]
    ]
