-- ===== src/Net/Checksum.antt =====
-- `ip_checksum` of net/include/net/ipv4.hpp: the data are bytes, a word is little-endian.
use otrix.Prelude.{
  ℕ, ◌+◌, ◌-◌, ◌*◌, ◌/◌, ◌%◌, ◌≤◌, ◌<◌, ◌≡◌, ◌↔◌, List, [], ◌∷◌, ◌++◌, length, arith,
}

-- The loop over the words and the odd byte behind them, in 32 bits.
unfoldable pub add_words : ℕ → List ℕ → ℕ
add_words csum [] = csum
add_words csum (b ∷ []) = (csum + b) % 4294967296
add_words csum (b0 ∷ b1 ∷ bs) = add_words ((csum + (b0 + 256 * b1)) % 4294967296) bs

-- `~((csum & 0xffff) + ((csum & 0xffff0000) >> 16))` as the 16 bits that are returned.
abbrev pub fold : ℕ → ℕ
fold csum = (4294967295 - (csum % 65536 + csum / 65536)) % 65536

unfoldable pub ip_checksum : List ℕ → ℕ → ℕ
unfolding add_words
ip_checksum bytes initial_sum = fold (add_words initial_sum bytes)

-- The sum of the words, with no bound.
abbrev pub total : List ℕ → ℕ
total [] = 0
total (b ∷ []) = b
total (b0 ∷ b1 ∷ bs) = b0 + 256 * b1 + total bs

abbrev pub Bytes : List ℕ → Type 0
Bytes [] = Unit
Bytes (b ∷ bs) = (b < 256) × Bytes bs

total-le : (bs : List ℕ) → Bytes bs → total bs ≤ 32768 * (length bs + 1)
total-le [] h = omega arith
total-le (b ∷ []) h = omega arith
total-le (b0 ∷ b1 ∷ bs) h = omega (arith, total-le bs h.1.1)

pub add_words-total :
    (csum : ℕ) (bs : List ℕ) → csum + total bs < 4294967296 → add_words csum bs ≡ csum + total bs
unfolding add_words
add_words-total csum [] h = omega arith
add_words-total csum (b ∷ []) h = omega arith
add_words-total csum (b0 ∷ b1 ∷ bs) h =
    let fits : (csum + (b0 + 256 * b1)) % 4294967296 ≡ csum + (b0 + 256 * b1) = omega arith in
    rw fits (omega (arith, add_words-total (csum + (b0 + 256 * b1)) bs (omega arith)))

abbrev pub Even : List ℕ → Type 0
Even [] = Unit
Even (b ∷ []) = ⊥
Even (b0 ∷ b1 ∷ bs) = Even bs

total-append : (xs ys : List ℕ) → Even xs → total (xs ++ ys) ≡ total xs + total ys
total-append [] ys e = omega arith
total-append (b ∷ []) ys e = absurd e
total-append (b0 ∷ b1 ∷ bs) ys e = omega (arith, total-append bs ys e)

-- Adding the complement of a folded sum to the sum folds to 0, unless the fold has a carry.
fold-fill :
    (s : ℕ) → s + 65535 < 4294967296 → (fold (s + fold s) ≡ 0) ↔ (s % 65536 + s / 65536 < 65536)
fold-fill s small = ((λ e. omega arith), (λ lt. omega arith))

module _ (before behind : List ℕ) where
  -- A packet with the checksum `c` between `before` and `behind`.
  abbrev pub with_checksum : ℕ → List ℕ
  with_checksum c = before ++ c % 256 ∷ c / 256 ∷ behind

  total-with_checksum :
      (c : ℕ) → Even before → total (with_checksum c) ≡ total before + total behind + c
  total-with_checksum c even = omega (arith, total-append before (c % 256 ∷ c / 256 ∷ behind) even)

  -- The bounds that keep the 32-bit sum from wrapping around.
  pub record Short : Type 0 where
    pub bytes_before : Bytes before
    pub bytes_behind : Bytes behind
    pub even : Even before
    pub short : length before + length behind < 65534

  abbrev pub field_sum : ℕ
  field_sum = total before + total behind

  pub fill_lem :
      (initial s : ℕ)
      → Short
      → initial + field_sum ≡ s
      → initial < 2000000000
      → (ip_checksum (with_checksum (ip_checksum (with_checksum 0) initial)) initial ≡ 0)
        ↔ (s % 65536 + s / 65536 < 65536)
  unfolding ip_checksum
  fill_lem initial s h at small =
      let le_before = total-le before h.bytes_before in
      let le_behind = total-le behind h.bytes_behind in
      let short = h.short in
      let zero_total : total (with_checksum 0) ≡ field_sum =
        omega (arith, total-with_checksum 0 h.even) in
      let sum : add_words initial (with_checksum 0) ≡ s =
        omega (arith, add_words-total initial (with_checksum 0) (omega arith)) in
      let filled_total = total-with_checksum (fold s) h.even in
      let filled : add_words initial (with_checksum (fold s)) ≡ s + fold s =
        omega (arith, add_words-total initial (with_checksum (fold s)) (omega arith)) in
      rw (sum, filled) (fold-fill s (omega arith))

  -- A packet of at most 64 KiB that is sent with the checksum that `ip_checksum` computes for it, the
  -- field being 0 and at an even offset, has the checksum 0 when it is received, if and only if
  -- folding the sum of its words once leaves no carry.
  pub ip_checksum-fill :
      Bytes before
      → Bytes behind
      → Even before
      → length before + length behind < 65534
      → (ip_checksum (with_checksum (ip_checksum (with_checksum 0) 0)) 0 ≡ 0)
        ↔ ((total before + total behind) % 65536 + (total before + total behind) / 65536 < 65536)
  ip_checksum-fill hb hc even short =
      fill_lem 0 field_sum
        (record { bytes_before = hb; bytes_behind = hc; even = even; short = short }) (omega arith)
        (omega arith)
