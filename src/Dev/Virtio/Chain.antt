-- ===== src/Dev/Virtio/Chain.antt =====
-- The free descriptors of a virtqueue and those that the device has.
use otrix.Prelude.{ℕ, ◌+◌, ◌≤◌, ◌<◌, ◌≡◌, refl, sym, List, [], ◌∷◌, length, ne→==}
use otrix.IntrusiveList.{update}
use otrix.IntrusiveList.Distinct.{NotIn, Distinct, Apart}
use otrix.Dev.Virtio.{Virtq}

-- From `h` the `next` members lead through `xs`.
abbrev pub Chain : (ℕ → ℕ) → ℕ → List ℕ → Type 0
Chain next h [] = Unit {0}
Chain next h (x ∷ xs) = (h ≡ x) × Chain next (next x) xs

abbrev pub AllBelow : ℕ → List ℕ → Type 0
AllBelow n [] = Unit {0}
AllBelow n (x ∷ xs) = (x < n) × AllBelow n xs

-- The descriptors `free` are on the free list, in order, and the device has `busy`.
pub record IsValid (q : Virtq) (free busy : List ℕ) : Type 0 where
  pub chain : Chain q.desc_next q.free_list free
  pub head_fits : q.free_list < 65536
  pub distinct_free : Distinct free
  pub distinct_busy : Distinct busy
  pub apart : Apart free busy
  pub free_below : AllBelow q.size free
  pub busy_below : AllBelow q.size busy
  pub counts_free : q.num_free_descriptors ≡ length free
  pub counts : length free + length busy ≡ q.size
  pub links_fit : (i : ℕ) → q.desc_next i < 65536
  pub small : q.size ≤ 32768

pub Chain-update :
    (next : ℕ → ℕ) (d v h : ℕ) (xs : List ℕ)
    → NotIn d xs
    → Chain next h xs
    → Chain (update next d v) h xs
Chain-update next d v h [] out c = tt
Chain-update next d v h (x ∷ xs) out c =
    let kept : update next d v x ≡ next x = rw (ne→== (λ e. out.0 (sym e))) refl in
    (c.0, rw kept (Chain-update next d v (next x) xs out.1 c.1))
