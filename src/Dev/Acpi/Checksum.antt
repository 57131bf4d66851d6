-- ===== src/Dev/Acpi/Checksum.antt =====
-- acpi_validate_checksum: the sum of the bytes of a table.
use otrix.Prelude.{
  ℕ, zero, suc, ◌+◌, ◌%◌, ◌≤◌, ◌<◌, ◌≡◌, ◌≢◌, refl, ◌∙◌, arith, ◌==◌, ne→==, ◌⊎◌, inl, inr, false,
  if◌then◌else◌,
}
use otrix.Error.{ok, inval}
use otrix.IntrusiveList.{Ptr}
use otrix.Dev.Acpi.{Bytes, read8, sdt_length, checksum_loop, acpi_validate_checksum}

-- The sum of `n` bytes, in a number that does not wrap.
abbrev pub byte_sum : ℕ → Bytes → Ptr → ℕ
byte_sum zero mem p = 0
byte_sum (suc n) mem p = read8 mem p + byte_sum n mem (p + 1)

checksum_loop-byte_sum :
    (n : ℕ) (mem : Bytes) (p checksum : ℕ)
    → checksum < 256
    → checksum_loop n mem p checksum ≡ (checksum + byte_sum n mem p) % 256
unfolding checksum_loop
checksum_loop-byte_sum zero mem p checksum h = omega arith
checksum_loop-byte_sum (suc n) mem p checksum h =
    let rest =
      checksum_loop-byte_sum n mem (p + 1) ((checksum + read8 mem p) % 256) (omega arith) in
    rest ∙ omega arith

-- The loop, which keeps one byte, and the sum of all bytes accept the same tables.
pub acpi_validate_checksum-byte_sum :
    (mem : Bytes) (sdt : Ptr)
    → acpi_validate_checksum mem sdt
      ≡ (if byte_sum (sdt_length mem sdt) mem sdt % 256 == 0 then ok else inval)
unfolding acpi_validate_checksum
acpi_validate_checksum-byte_sum mem sdt =
    let sum : checksum_loop (sdt_length mem sdt) mem sdt 0
        ≡ byte_sum (sdt_length mem sdt) mem sdt % 256 =
      checksum_loop-byte_sum (sdt_length mem sdt) mem sdt 0 (omega arith) ∙ omega arith in
    rw sum refl

-- Bytes that agree everywhere but at `q`.
byte_sum-same :
    (n : ℕ) (mem mem' : Bytes) (p q : Ptr)
    → ((a : Ptr) → a ≢ q → mem' a ≡ mem a)
    → q < p
    → byte_sum n mem' p ≡ byte_sum n mem p
byte_sum-same zero mem mem' p q same h = refl
byte_sum-same (suc n) mem mem' p q same h =
    ground (arith, same p, byte_sum-same n mem mem' (p + 1) q same (omega arith))

byte_sum-changed :
    (n : ℕ) (mem mem' : Bytes) (p k : ℕ)
    → ((a : Ptr) → a ≢ p + k → mem' a ≡ mem a)
    → k < n
    → byte_sum n mem' p + read8 mem (p + k) ≡ byte_sum n mem p + read8 mem' (p + k)
byte_sum-changed zero mem mem' p k same h = absurd (omega arith)
byte_sum-changed (suc n) mem mem' p zero same h =
    let rest = byte_sum-same n mem mem' (p + 1) (p + 0) same (omega arith) in
    let at : p + 0 ≡ p = omega arith in rw at (omega (arith, rest))
byte_sum-changed (suc n) mem mem' p (suc k) same h =
    let at : p + suc k ≡ p + 1 + k = omega arith in
    let rest = byte_sum-changed n mem mem' (p + 1) k (rw at at same) (omega arith) in
    let here : mem' p ≡ mem p = same p (λ e. absurd (omega arith)) in
    rw (at, here) (omega (arith, rest))

length-same :
    (mem mem' : Bytes) (sdt q : Ptr)
    → ((a : Ptr) → a ≢ q → mem' a ≡ mem a)
    → q < sdt + 4 ⊎ (sdt + 8 ≤ q)
    → sdt_length mem' sdt ≡ sdt_length mem sdt
length-same mem mem' sdt q same out =
    let at : (i : ℕ) → i < 4 → mem' (sdt + 4 + i) ≡ mem (sdt + 4 + i) = λ i h.
      same (sdt + 4 + i)
        (λ e. elim out [ inl below ↦ absurd (omega arith) | inr above ↦ absurd (omega arith) ]) in
    ground (arith, at 0, at 1, at 2, at 3)

sum-zero :
    (mem : Bytes) (sdt : Ptr)
    → acpi_validate_checksum mem sdt ≡ ok
    → byte_sum (sdt_length mem sdt) mem sdt % 256 ≡ 0
sum-zero mem sdt valid = ground (arith, acpi_validate_checksum-byte_sum mem sdt)

-- A table is valid, and then one of its bytes is changed, none of the four that hold its length: the table
-- is refused.
pub acpi_validate_checksum-detects :
    (mem mem' : Bytes) (sdt k : ℕ)
    → acpi_validate_checksum mem sdt ≡ ok
    → k < sdt_length mem sdt
    → (k < 4) ⊎ (8 ≤ k)
    → ((a : Ptr) → a ≢ sdt + k → mem' a ≡ mem a)
    → read8 mem' (sdt + k) ≢ read8 mem (sdt + k)
    → acpi_validate_checksum mem' sdt ≡ inval
acpi_validate_checksum-detects mem mem' sdt k valid inside place same differs =
    let length = length-same mem mem' sdt (sdt + k) same (ground arith) in
    let changed = byte_sum-changed (sdt_length mem sdt) mem mem' sdt k same inside in
    let zero_sum = sum-zero mem sdt valid in
    let refuted : (byte_sum (sdt_length mem' sdt) mem' sdt % 256 == 0) ≡ false = ne→== (λ e.
      let moved : byte_sum (sdt_length mem sdt) mem' sdt % 256 ≡ 0 = rw length at e in
      differs (omega (arith, changed, zero_sum, moved))) in
    acpi_validate_checksum-byte_sum mem' sdt ∙ rw refuted refl
