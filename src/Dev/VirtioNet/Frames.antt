-- ===== src/Dev/VirtioNet/Frames.antt =====
-- Bytes that are written to memory, and read back.
use otrix.Prelude.{
  ℕ, zero, suc, ◌+◌, ◌≤◌, ◌<◌, ◌≡◌, ◌≢◌, ◌⊎◌, inl, refl, ap, subst, ◌∙◌, List, [], ◌∷◌, ◌++◌,
  length, arith, ne→==, ==_self,
}
use otrix.IntrusiveList.{Ptr, update}
use otrix.Dev.VirtioNet.{Bytes, write_bytes, read_bytes}

pub write_bytes-outside :
    (bs : List ℕ) (mem : Bytes) (p a : Ptr)
    → (a < p) ⊎ (p + length bs ≤ a)
    → write_bytes mem p bs a ≡ mem a
write_bytes-outside [] mem p a out = refl
write_bytes-outside (b ∷ bs) mem p a out =
    let rest = write_bytes-outside bs (update mem p b) (p + 1) a (ground arith) in
    let ne : a ≢ p = ground arith in rest ∙ rw (ne→== ne) refl

pub read_bytes-write_bytes :
    (bs : List ℕ) (mem : Bytes) (p : Ptr) → read_bytes (length bs) (write_bytes mem p bs) p ≡ bs
read_bytes-write_bytes [] mem p = refl
read_bytes-write_bytes (b ∷ bs) mem p =
    let here : write_bytes (update mem p b) (p + 1) bs p ≡ b =
      write_bytes-outside bs (update mem p b) (p + 1) p (inl (omega arith)) ∙ rw (==_self p) refl in
    rw (here, read_bytes-write_bytes bs (update mem p b) (p + 1)) refl

-- A write behind or in front of the bytes that are read.
pub read_bytes-outside :
    (n : ℕ) (bs : List ℕ) (mem : Bytes) (p q : Ptr)
    → (q + n ≤ p) ⊎ (p + length bs ≤ q)
    → read_bytes n (write_bytes mem p bs) q ≡ read_bytes n mem q
read_bytes-outside zero bs mem p q out = refl
read_bytes-outside (suc n) bs mem p q out =
    let here = write_bytes-outside bs mem p q (ground arith) in
    let rest = read_bytes-outside n bs mem p (q + 1) (ground arith) in rw (here, rest) refl

pub write_bytes-append :
    (xs ys : List ℕ) (mem : Bytes) (p : Ptr)
    → write_bytes mem p (xs ++ ys) ≡ write_bytes (write_bytes mem p xs) (p + length xs) ys
write_bytes-append [] ys mem p = let at : p + 0 ≡ p = omega arith in rw at refl
write_bytes-append (x ∷ xs) ys mem p =
    let at : p + 1 + length xs ≡ p + suc (length xs) = omega arith in
    write_bytes-append xs ys (update mem p x) (p + 1)
    ∙ ap (λ q. write_bytes (write_bytes (update mem p x) (p + 1) xs) q ys) at

-- What was written first is read back in front of what was written behind it.
pub read_bytes-front :
    (n : ℕ) (xs ys : List ℕ) (mem : Bytes) (p : Ptr)
    → length xs ≡ n
    → read_bytes n (write_bytes mem p (xs ++ ys)) p ≡ xs
read_bytes-front n xs ys mem p e =
    subst (λ k. read_bytes k (write_bytes mem p (xs ++ ys)) p ≡ xs) e
      (rw (write_bytes-append xs ys mem p) (
        read_bytes-outside (length xs) ys (write_bytes mem p xs) (p + length xs) p
          (inl (omega arith))
        ∙ read_bytes-write_bytes xs mem p))

pub read_bytes-copied :
    (n : ℕ) (mem mem' : Bytes) (p q : Ptr)
    → ((i : ℕ) → i < n → mem' (q + i) ≡ mem (p + i))
    → read_bytes n mem' q ≡ read_bytes n mem p
read_bytes-copied zero mem mem' p q same = refl
read_bytes-copied (suc n) mem mem' p q same =
    let here : mem' q ≡ mem p =
      ap mem' (omega arith) ∙ same 0 (omega arith) ∙ ap mem (omega arith) in
    let shift : (i : ℕ) → i < n → mem' (q + 1 + i) ≡ mem (p + 1 + i) =
      λ i h. ap mem' (omega arith) ∙ same (suc i) (omega arith) ∙ ap mem (omega arith) in
    rw (here, read_bytes-copied n mem mem' (p + 1) (q + 1) shift) refl
