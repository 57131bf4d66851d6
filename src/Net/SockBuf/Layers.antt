-- ===== src/Net/SockBuf/Layers.antt =====
-- One layer of the network: a header is added in front, and the receiver takes it off.
use otrix.Prelude.{ℕ, ◌+◌, ◌-◌, ◌≤◌, ◌<◌, ◌≡◌, refl, true, false, ltb, arith}
use otrix.IntrusiveList.{null}
use otrix.Net.SockBuf.{
  HeaderType, virtio, ethernet, ip, icmp, udp, tcp, SockBuf, IsValid, same_type, sub64, receive,
  size, add_header, add_parsed_header,
}

pub same_self : (t : HeaderType) → same_type t t ≡ true
same_self = elim [
  | virtio ↦ refl
  | ethernet ↦ refl
  | ip ↦ refl
  | icmp ↦ refl
  | udp ↦ refl
  | tcp ↦ refl
]

-- Parsing the first header of a received packet.
receive-parse :
    (p n total : ℕ) (t : HeaderType)
    → n ≤ total
    → p + total < 18446744073709551616
    → let parsed = add_parsed_header (receive p total) n t in
      (parsed.headers t ≡ p) × (parsed.head ≡ p + n) × (size parsed ≡ total - n)
unfolding add_parsed_header receive size
receive-parse p n total t le small =
    let long_enough : ltb total n ≡ false = ground arith in
    rw (long_enough, same_self t) (refl, omega arith, omega arith)

module _ (b : SockBuf) (v : IsValid b) where
  size_is : size b ≡ b.payload - b.head + b.payload_size
  unfolding size
  size_is = omega (arith, v.head_le, v.payload_le, v.fits)

  module _ (n : ℕ) (t : HeaderType) (unset : b.headers t ≡ null)
      (enough : b.start + n ≤ b.head) where
    in_range : sub64 b.head n ≡ b.head - n
    in_range = omega (arith, v.head_le, v.payload_le, v.fits)

    has_room : ltb (sub64 b.head b.start) n ≡ false
    has_room = ground (arith, v.start_le, v.head_le, v.payload_le, v.fits, enough)

    -- With room in front in a valid buffer, a header that was unset is `n` bytes in front of the old head, the packet grows by `n`
    -- and the payload stays.
    pub add_header-room :
        ((add_header b n t).0 ≡ b.head - n)
        × ((add_header b n t).1.head ≡ b.head - n)
        × ((add_header b n t).1.headers t ≡ b.head - n)
        × (size (add_header b n t).1 ≡ size b + n)
        × ((add_header b n t).1.payload ≡ b.payload)
    unfolding add_header size
    add_header-room =
        rw (has_room, unset, in_range, same_self t)
          (refl, refl, refl, omega (arith, v.head_le, v.payload_le, v.fits, enough), refl)

    -- A header is added to a valid buffer with room for it, unset before. A receiver of the packet that
    -- parses a header of that type and size finds it at the address where it was added, and is left
    -- with the packet from before it.
    pub add_header-parse :
        let sent = (add_header b n t).1 in
        let parsed = add_parsed_header (receive sent.head (size sent)) n t in
        (parsed.headers t ≡ (add_header b n t).0) × (parsed.head ≡ b.head) × (size parsed ≡ size b)
    add_header-parse =
        let (at, head, _, grows, _) = add_header-room in
        let sent = (add_header b n t).1 in
        let is = size_is in
        let (header, rest, left) =
          receive-parse sent.head n (size sent) t (omega (arith, grows))
            (omega (arith, grows, head, is, v.head_le, v.payload_le, v.fits, enough)) in
        (cc, omega (arith, rest, head, enough), omega (arith, left, grows))
