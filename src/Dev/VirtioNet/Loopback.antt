-- ===== src/Dev/VirtioNet/Loopback.antt =====
-- A packet that `write` frames and sends, and `rx_thread` of another device takes in.
use otrix.Prelude.{
  ℕ, ◌+◌, ◌-◌, ◌^◌, ◌%◌, ◌/◌, ◌*◌, ◌≤◌, ◌<◌, ◌≡◌, inr, refl, ap, subst, ◌∙◌, List, [], ◌∷◌, ◌++◌,
  length, arith, true, false, ◌==◌, ltb, ==_self, replicate,
}
use otrix.IntrusiveList.{null}
use otrix.Net.{swap16}
use otrix.Net.SockBuf.{
  HeaderType, SockBuf, IsValid, virtio, ethernet, set_header, sub64, add_header, add_parsed_header,
  receive,
}
use otrix.Dev.VirtioNet.{
  Bytes, VirtioNet, write_bytes, read_bytes, read16, bytes16, ethernet_hdr, write, parsed, accept,
  receive_packet, deliver, same_bytes,
}
use otrix.Dev.VirtioNet.Frames.{
  read_bytes-write_bytes, read_bytes-outside, write_bytes-append, read_bytes-front,
  read_bytes-copied,
}

add_header_lem :
    (b : SockBuf) (n : ℕ) (t : HeaderType)
    → b.head < 2 ^ 64
    → b.headers t ≡ null
    → b.start + n ≤ b.head
    → add_header b n t
      ≡ (b.head - n, record b { head = b.head - n; headers = set_header b t (b.head - n) })
unfolding add_header
add_header_lem b n t fits unset room =
    let in_range : sub64 b.head n ≡ b.head - n = omega arith in
    let has_room : ltb (sub64 b.head b.start) n ≡ false = ground arith in
    rw (has_room, unset, in_range) refl

-- The packet with the two headers in front.
abbrev framed : SockBuf → SockBuf
framed b =
    let b1 = record b { head = b.head - 14; headers = set_header b ethernet (b.head - 14) } in
    record b1 { head = b1.head - 10; headers = set_header b1 virtio (b1.head - 10) }

abbrev frame_mem : VirtioNet → Bytes → SockBuf → List ℕ → ℕ → Bytes
frame_mem net mem b dest type =
    write_bytes (write_bytes mem (b.head - 14) (ethernet_hdr dest net.addr (swap16 type)))
      (b.head - 14 - 10) (replicate 10 0)

module _ (net : VirtioNet) (mem : Bytes) (b : SockBuf) (dest : List ℕ) (type : ℕ) (v : IsValid b)
    (room : b.start + 24 ≤ b.head) (no_ethernet : b.headers ethernet ≡ null)
    (no_virtio : b.headers virtio ≡ null) (typed : 0 < type) where
  write_lem :
      ((write net mem b dest type).buffer ≡ framed b)
      × ((write net mem b dest type).mem ≡ frame_mem net mem b dest type)
  unfolding write
  write_lem =
      let fits : b.head < 2 ^ 64 = omega (arith, v.head_le, v.payload_le, v.fits) in
      let first = add_header_lem b 14 ethernet fits no_ethernet (omega arith) in
      let b1 : SockBuf = record b {
        head = b.head - 14;
        headers = set_header b ethernet (b.head - 14);
      } in
      let second = add_header_lem b1 10 virtio (omega arith) no_virtio (omega arith) in
      let has_type : (type == 0) ≡ false = ground arith in rw (first, second, has_type) (refl, refl)

module _ (net : VirtioNet) (mem : Bytes) (b : SockBuf) (dest : List ℕ) (type : ℕ)
    (six : length dest ≡ 6) (six' : length net.addr ≡ 6) (room : 24 ≤ b.head) where
  dest_at : read_bytes 6 (frame_mem net mem b dest type) (b.head - 14) ≡ dest
  dest_at =
      read_bytes-outside 6 (replicate 10 0)
        (write_bytes mem (b.head - 14) (dest ++ (net.addr ++ bytes16 (swap16 type))))
        (b.head - 14 - 10) (b.head - 14) (inr (omega arith))
      ∙ read_bytes-front 6 dest (net.addr ++ bytes16 (swap16 type)) mem (b.head - 14) six

  type_at : read_bytes 2 (frame_mem net mem b dest type) (b.head - 14 + 12) ≡ bytes16 (swap16 type)
  type_at =
      let at : b.head - 14 + length dest + length net.addr ≡ b.head - 14 + 12 =
        omega (arith, six, six') in
      read_bytes-outside 2 (replicate 10 0)
        (write_bytes mem (b.head - 14) (dest ++ (net.addr ++ bytes16 (swap16 type))))
        (b.head - 14 - 10) (b.head - 14 + 12) (inr (omega arith))
      ∙ ap (λ m. read_bytes 2 m (b.head - 14 + 12))
          (write_bytes-append dest (net.addr ++ bytes16 (swap16 type)) mem (b.head - 14)
            ∙ write_bytes-append net.addr (bytes16 (swap16 type)) _ (b.head - 14 + length dest))
      ∙ subst
          (λ q.
            read_bytes 2
              (write_bytes
                (write_bytes (write_bytes mem (b.head - 14) dest) (b.head - 14 + length dest)
                  net.addr)
                (b.head - 14 + length dest + length net.addr) (bytes16 (swap16 type)))
              q
            ≡ bytes16 (swap16 type))
          at
          (read_bytes-write_bytes (bytes16 (swap16 type))
            (write_bytes (write_bytes mem (b.head - 14) dest) (b.head - 14 + length dest) net.addr)
            (b.head - 14 + length dest + length net.addr))

parsed-ethernet :
    (p n : ℕ) → 24 ≤ n → p + n < 2 ^ 64 → (parsed (receive p n)).headers ethernet ≡ p + 10
unfolding add_parsed_header receive
parsed-ethernet p n long fits =
    let first : ltb n 10 ≡ false = ground arith in
    let second : ltb (n - 10) 14 ≡ false = ground arith in rw (first, second) (omega arith)

same_bytes_self : (xs : List ℕ) → same_bytes xs xs ≡ true
same_bytes_self [] = refl
same_bytes_self (x ∷ xs) = rw (==_self x) (same_bytes_self xs)

swap16-bytes : (t x y : ℕ) → t < 2 ^ 16 → x ∷ y ∷ [] ≡ bytes16 (swap16 t) → swap16 (x + y * 256) ≡ t
swap16-bytes t x y small e =
    let lo : x ≡ swap16 t % 256 = cc in
    let hi : y ≡ swap16 t / 256 % 256 = cc in omega (arith, lo, hi)

-- The test of the address passes for the device's own.
accept-own :
    (net : VirtioNet) (ethertype : ℕ)
    → accept net net.addr ethertype ≡ deliver net.rx_handlers (swap16 ethertype)
unfolding accept
accept-own net ethertype = let own = same_bytes_self net.addr in ground arith

-- A packet that a device frames and sends, with room for the two headers and none of them there, to the
-- address of another device. Wherever the first 24 bytes of the frame are copied to, in a buffer of at
-- least as many, the other device takes the packet for its own, and calls its handlers of the type.
pub write-receive_packet :
    (net net' : VirtioNet) (mem mem' : Bytes) (b : SockBuf) (type p n : ℕ)
    → IsValid b
    → b.start + 24 ≤ b.head
    → b.headers ethernet ≡ null
    → b.headers virtio ≡ null
    → 0 < type
    → type < 2 ^ 16
    → length net.addr ≡ 6
    → length net'.addr ≡ 6
    → 24 ≤ n
    → p + n < 2 ^ 64
    → ((i : ℕ)
        → i < 24
        → mem' (p + i)
          ≡ (write net mem b net'.addr type).mem ((write net mem b net'.addr type).buffer.head + i))
    → receive_packet net' mem' (receive p n) ≡ deliver net'.rx_handlers type
unfolding receive_packet
write-receive_packet net net' mem mem' b type p n v room no_e no_v typed small six six' long fits
      copied =
    let (buffer, memory) = write_lem net mem b net'.addr type v room no_e no_v typed in
    let F = frame_mem net mem b net'.addr type in
    let at = parsed-ethernet p n long fits in
    let frame : (i : ℕ) → i < 24 → mem' (p + i) ≡ F (b.head - 14 - 10 + i) =
      λ i h. copied i h ∙ (λ k. memory k ((buffer k).head + i)) in
    let part : (i : ℕ) → i < 14 → mem' (p + 10 + i) ≡ F (b.head - 14 + i) =
      λ i h. ap mem' (omega arith) ∙ frame (10 + i) (omega arith) ∙ ap F (omega arith) in
    let own : read_bytes 6 mem' (p + 10) ≡ net'.addr =
      read_bytes-copied 6 F mem' (b.head - 14) (p + 10) (λ i h. part i (omega arith))
      ∙ dest_at net mem b net'.addr type six' six (omega arith) in
    let pair : read_bytes 2 mem' (p + 10 + 12) ≡ bytes16 (swap16 type) =
      read_bytes-copied 2 F mem' (b.head - 14 + 12) (p + 10 + 12)
        (λ i h. ap mem' (omega arith) ∙ part (12 + i) (omega arith) ∙ ap F (omega arith))
      ∙ type_at net mem b net'.addr type six' six (omega arith) in
    let same_type = swap16-bytes type (mem' (p + 10 + 12)) (mem' (p + 10 + 12 + 1)) small pair in
    ap (λ q. accept net' (read_bytes 6 mem' q) (read16 mem' (q + 12))) at
    ∙ ap (λ d. accept net' d (read16 mem' (p + 10 + 12))) own
    ∙ accept-own net' (read16 mem' (p + 10 + 12))
    ∙ ap (deliver net'.rx_handlers) same_type
