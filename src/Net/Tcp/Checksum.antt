-- ===== src/Net/Tcp/Checksum.antt =====
-- `tcp::send` and `tcp::tcp_checksum`: the checksum that a receiver computes.
use otrix.Prelude.{ℕ, ◌+◌, ◌/◌, ◌%◌, ◌≤◌, ◌<◌, ◌≡◌, ◌↔◌, refl, List, [], ◌∷◌, ◌++◌, length, arith}
use otrix.Net.{swap16, swap32}
use otrix.Net.Checksum.{
  add_words, ip_checksum, total, add_words-total, Bytes, Short, with_checksum, fill_lem,
}
use otrix.Net.Tcp.{
  TcpHeader, Outgoing, tcp_header_size, bytes16, bytes32, header_bytes, pseudo_header, tcp_checksum,
  send,
}

-- The bytes of a header in front of the checksum, and those from behind it to the end of the segment.
abbrev pub front : TcpHeader → List ℕ
front h =
    bytes16 h.source_port
    ++ bytes16 h.dest_port
    ++ bytes32 h.seq
    ++ bytes32 h.ack
    ++ (h.header_len % 256 ∷ h.flags % 256 ∷ [])
    ++ bytes16 h.window_size

abbrev pub rest : Outgoing → List ℕ
rest out = bytes16 out.header.urp ++ out.data_bytes

-- The sum that the code starts with.
abbrev pub initial : (addr : ℕ) → Outgoing → List ℕ
initial addr out =
    pseudo_header (swap32 addr) (swap32 out.remote)
      (swap16 ((length out.data_bytes + tcp_header_size) % 65536))

abbrev pub words : (addr : ℕ) → Outgoing → ℕ
words addr out = total (initial addr out) + (total (front out.header) + total (rest out))

-- What a receiver computes of a segment: the checksum of the pseudo header and the whole segment.
abbrev pub verify : (addr : ℕ) → Outgoing → ℕ
verify addr out =
    ip_checksum (header_bytes out.header ++ out.data_bytes) (add_words 0 (initial addr out))

segment_bytes :
    (out : Outgoing) (c : ℕ)
    → c < 65536
    → header_bytes (record out.header { csum = c }) ++ out.data_bytes
      ≡ with_checksum (front out.header) (rest out) c
segment_bytes out c small = let high : c / 256 % 256 ≡ c / 256 = omega arith in rw high refl

fits : (bytes : List ℕ) (sum : ℕ) → ip_checksum bytes sum < 65536
unfolding ip_checksum
fits bytes sum = omega arith

module _ (addr : ℕ) (out : Outgoing) where
  sent_sum : add_words 0 (initial addr out) ≡ total (initial addr out)
  sent_sum = omega (arith, add_words-total 0 (initial addr out) (omega arith))

  sent_checksum :
      out.header.csum ≡ 0
      → tcp_checksum addr (swap32 out.remote) out.header out.data_bytes
        ≡ ip_checksum (with_checksum (front out.header) (rest out) 0) (total (initial addr out))
  unfolding tcp_checksum
  sent_checksum unset = rw (sent_sum, unset) refl

  -- A segment of up to 65,000 bytes of data, with a checksum field of 0, is sent with a checksum that
  -- its receiver finds right, if and only if folding the sum of the words of the segment and its
  -- pseudo header once leaves no carry.
  pub send-verify :
      Bytes out.data_bytes
      → length out.data_bytes ≤ 65000
      → out.header.csum ≡ 0
      → (verify addr (send addr out) ≡ 0)
        ↔ (words addr out % 65536 + words addr out / 65536 < 65536)
  unfolding send
  send-verify bytes short unset =
      let shorter : Short (front out.header) (rest out) = record {
        bytes_before = omega arith;
        bytes_behind = (omega arith, (omega arith, bytes));
        even = tt;
        short = omega arith;
      } in
      let filled =
        fill_lem (front out.header) (rest out) (total (initial addr out)) (words addr out) shorter
          refl (omega arith) in
      let sent =
        ip_checksum (with_checksum (front out.header) (rest out) 0) (total (initial addr out)) in
      rw (sent_checksum unset, sent_sum, segment_bytes out sent (fits _ _)) filled
