-- ===== src/Kmem/Tests.antt =====
-- Runs of the heap, and the theorems at concrete heaps.
use otrix.Prelude.{
  ℕ, ◌+◌, inl, ◌==◌, ◌≡◌, refl, [], ◌∷◌, arith, if◌then◌else◌, Outcome, returns, ◌>>=◌,
}
use otrix.IntrusiveList.{Ptr, init, delete, unlink_node, insert, link_last}
use otrix.Kmem.{
  Memory, Heap, block_magic, block_size, used_header, kmem_init, kmem_alloc, kmem_free, find_fit,
  take_block, new_free_block, replace_node, find_prev, link_free, merge_prev, merge_next,
}
use otrix.Kmem.Blocks.{first_fit, put_back}
use otrix.Kmem.Represents.{IsHeap}
use otrix.Kmem.Live.{IsValid, Gives, kmem_alloc-IsValid, kmem_free-IsValid}
use otrix.Kmem.RoundTrip.{given_back, alloc_free, Restores, kmem_alloc-kmem_free}

abbrev blank : Memory
blank = record { magic = λ p. 0; links = record { next = λ p. 0; prev = λ p. 0 }; size = λ p. 0 }

-- Three blocks of one heap, the middle one freed first: the two frees that follow merge all.
abbrev three_blocks : Outcome ℕ
three_blocks = do
  (h, m) ← kmem_init blank 4096 1024
  (p, h, m) ← kmem_alloc 4 h m 100
  (q, h, m) ← kmem_alloc 4 h m 10
  (r, h, m) ← kmem_alloc 4 h m 200
  (h, m) ← kmem_free 4 h m q
  (h, m) ← kmem_free 4 h m p
  (h, m) ← kmem_free 4 h m r
  returns (m.size 4096)

three_blocks-merge : three_blocks ≡ returns 1024
unfolding kmem_init kmem_alloc kmem_free find_fit take_block new_free_block replace_node find_prev
    link_free merge_prev merge_next init delete unlink_node insert link_last
three_blocks-merge = refl

-- One block in use at 4096, and the rest of the heap free behind it.
abbrev heap : Heap
heap = record { start = 4096; size = 1024; free_list = 4220 }

abbrev memory : Memory
memory = record {
  magic = λ p. block_magic;
  links = record { next = λ p. if p == 4104 then 116 else 4220; prev = λ p. 4220 };
  size = λ p. 908;
}

heap-IsHeap : IsHeap heap memory ((4212, 908) ∷ [])
heap-IsHeap = record {
  list = (refl, (refl, refl), (tt, tt), ((λ e. absurd (omega arith)), tt));
  sizes = (refl, tt);
  layout = omega arith;
  coalesced = (tt, tt);
  in_memory = omega arith;
}

heap-IsValid : IsValid heap memory ((4212, 908) ∷ []) ((4096, 116) ∷ [])
heap-IsValid = record {
  heap = heap-IsHeap;
  used = (
    record {
      starts = omega arith;
      ends = omega arith;
      large = omega arith;
      bytes = refl;
      magic = refl;
      clear = (inl (omega arith), tt);
    },
    tt,
    tt,
  );
}

kmem_alloc-IsValid_example :
    Gives heap memory
      (block_size 200)
      ((4096, 116) ∷ [])
      (first_fit (block_size 200) ((4212, 908) ∷ []))
      (kmem_alloc 1 heap memory 200)
kmem_alloc-IsValid_example =
    kmem_alloc-IsValid 1 heap memory 200 ((4212, 908) ∷ []) ((4096, 116) ∷ []) heap-IsValid
      (omega arith)

kmem_free-IsValid_example :
    (f : Ptr) × (m' : Memory) × (kmem_free 1 heap memory (4096 + used_header)
      ≡ returns (record heap { free_list = f }, m'))
    × IsValid (record heap { free_list = f }) m' (put_back (4096, 116) ((4212, 908) ∷ [])) []
kmem_free-IsValid_example =
    kmem_free-IsValid 1 heap memory ((4212, 908) ∷ []) [] 4096 116 [] heap-IsValid (omega arith)

kmem_alloc-kmem_free_example :
    Restores 1 heap memory 850
      ((4212, 908) ∷ [])
      ((4096, 116) ∷ [])
      heap-IsValid
      (given_back (block_size 850) ((4212, 908) ∷ []))
      (alloc_free 1 heap memory 850)
kmem_alloc-kmem_free_example =
    kmem_alloc-kmem_free 1 heap memory 850 ((4212, 908) ∷ []) ((4096, 116) ∷ []) heap-IsValid
      (omega arith)

-- 42 bytes are left over, and the block that comes back is smaller by them.
given_back-loses : given_back (block_size 850) ((4212, 908) ∷ []) ≡ (4212, 866) ∷ []
given_back-loses = refl
