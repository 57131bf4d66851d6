-- ===== src/Kmem/Wraps.antt =====
-- The size that kmem_alloc computes from a request near 2 ^ 64.
use otrix.Prelude.{ℕ, ◌-◌, ◌^◌, ◌≤◌, ◌<◌, ◌≡◌, refl, arith}
use otrix.Kmem.{Memory, Heap, kmem_alloc, block_size, min_free_block_size}

block_size-wraps : (size : ℕ) → 2 ^ 64 - 16 ≤ size → size < 2 ^ 64 → block_size size ≡ block_size 0
block_size-wraps size big fits = ground arith

-- A request for one of the sixteen largest values of size_t is served like one for no bytes: adding the
-- header wraps around, and the caller gets a block of 64 bytes in place of NULL.
pub kmem_alloc-wraps :
    (fuel : ℕ) (h : Heap) (m : Memory) (size : ℕ)
    → 2 ^ 64 - 16 ≤ size
    → size < 2 ^ 64
    → (kmem_alloc fuel h m size ≡ kmem_alloc fuel h m 0) × (block_size size ≡ min_free_block_size)
unfolding kmem_alloc
kmem_alloc-wraps fuel h m size big fits =
    let e = block_size-wraps size big fits in rw e (refl, refl)
