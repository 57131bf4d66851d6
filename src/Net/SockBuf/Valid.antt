-- ===== src/Net/SockBuf/Valid.antt =====
-- Every operation of a socket buffer keeps its pointers in its buffer.
use otrix.Prelude.{
  ℕ, ◌+◌, ◌-◌, ◌≤◌, ◌<◌, ◌≡◌, ◌≢◌, ◌⊎◌, ◌↔◌, inl, inr, refl, false, ◌==◌, ltb, ne→==, Bool-cases,
  arith,
}
use otrix.IntrusiveList.{Ptr, null}
use otrix.Net.SockBuf.{
  HeaderType, SockBuf, IsValid, same_type, add64, sub64, allocate, receive, add_header,
  add_parsed_header, set_payload_size,
}

-- A buffer that the allocator gave, and that ends below 2 ^ 64, is valid.
pub allocate-IsValid :
    (memory : SockBuf) (p : Ptr) (headers_size payload_size : ℕ)
    → p ≢ null
    → p + headers_size + payload_size < 18446744073709551616
    → IsValid (allocate memory p headers_size payload_size)
unfolding allocate
allocate-IsValid memory p headers_size payload_size ne small = rw (ne→== ne) (record {
  allocated = ne;
  start_le = omega arith;
  head_le = omega arith;
  payload_le = omega arith;
  fits = omega arith;
  header_inside = λ t. inl refl;
})

pub receive-IsValid :
    (p : Ptr) (n : ℕ) → p ≢ null → p + n < 18446744073709551616 → IsValid (receive p n)
unfolding receive
receive-IsValid p n ne small = record {
  allocated = ne;
  start_le = omega arith;
  head_le = omega arith;
  payload_le = omega arith;
  fits = small;
  header_inside = λ t. inl refl;
}

module _ (b : SockBuf) (v : IsValid b) (n : ℕ) (t : HeaderType) where
  -- The room in front of the head, when it is enough.
  room : ltb (sub64 b.head b.start) n ≡ false → b.start + n ≤ b.head
  room e = ground (arith, v.start_le, v.head_le, v.payload_le, v.fits)

  new_head : b.start + n ≤ b.head → sub64 b.head n ≡ b.head - n
  new_head enough = omega (arith, v.head_le, v.payload_le, v.fits)

  -- `add_header` keeps a buffer valid, whether it fails, finds the header set, or adds it.
  pub add_header-IsValid : IsValid (add_header b n t).1
  unfolding add_header
  add_header-IsValid = elim (Bool-cases (ltb (sub64 b.head b.start) n)) [
    | inl e ↦ rw e v
    | inr e ↦ elim (Bool-cases (b.headers t == null)) [
      | inl f ↦
          rw (e, f, new_head (room e))
            (record {
              allocated = v.allocated;
              start_le = omega (arith, room e);
              head_le = omega (arith, v.head_le);
              payload_le = v.payload_le;
              fits = v.fits;
              header_inside = λ u. elim (Bool-cases (same_type u t)) [
                | inl g ↦ rw g (inr (omega (arith, room e), omega (arith, v.head_le)))
                | inr g ↦ rw g (v.header_inside u)
              ];
            })
      | inr f ↦ rw (e, f) v
    ]
  ]

  payload_fits : b.payload + b.payload_size < 18446744073709551616
  payload_fits = omega (arith, v.payload_le, v.fits)

  -- `add_parsed_header` keeps a buffer valid, whether the header is set, is longer than the payload, or
  -- is taken off the payload.
  pub add_parsed_header-IsValid : IsValid (add_parsed_header b n t)
  unfolding add_parsed_header
  add_parsed_header-IsValid = elim (Bool-cases (b.headers t == null)) [
    | inl e ↦ elim (Bool-cases (ltb b.payload_size n)) [
      | inl f ↦ rw (e, f) v
      | inr f ↦
          let le : n ≤ b.payload_size = ground arith in
          let head_moves : add64 b.head n ≡ b.head + n =
            omega (arith, le, payload_fits, v.head_le) in
          let payload_moves : add64 b.payload n ≡ b.payload + n = omega (arith, le, payload_fits) in
          rw (e, f, head_moves, payload_moves)
            (record {
              allocated = v.allocated;
              start_le = omega (arith, v.start_le);
              head_le = omega (arith, v.head_le);
              payload_le = omega (arith, v.payload_le, le);
              fits = v.fits;
              header_inside = λ u. elim (Bool-cases (same_type u t)) [
                | inl g ↦ rw g (inr (v.start_le, omega (arith, v.head_le)))
                | inr g ↦ rw g (inside_after u)
              ];
            })
    ]
    | inr e ↦ rw e v
  ]
    where
      inside_after :
          (u : HeaderType)
          → (b.headers u ≡ null) ⊎ ((b.start ≤ b.headers u) × (b.headers u ≤ b.payload + n))
      inside_after u = elim (v.header_inside u) [
        | inl e ↦ inl e
        | inr h ↦ inr (h.0, omega (arith, h.1))
      ]

  -- `set_payload_size` keeps a buffer valid exactly for the sizes that fit behind the payload pointer.
  pub set_payload_size-IsValid :
      IsValid (set_payload_size b n) ↔ (b.payload + n ≤ b.start + b.buffer_size)
  set_payload_size-IsValid = (
    (λ w. w.payload_le),
    λ le. record {
      allocated = v.allocated;
      start_le = v.start_le;
      head_le = v.head_le;
      payload_le = le;
      fits = v.fits;
      header_inside = v.header_inside;
    },
  )
