-- ===== src/Net/Tests.antt =====
-- The network stack at concrete packets, and the theorems at them.
use otrix.Prelude.{
  ℕ, zero, suc, ◌-◌, ◌≡◌, refl, inl, List, [], ◌∷◌, ◌++◌, arith, true, false, returns,
}
use otrix.IntrusiveList.{null}
use otrix.Net.Checksum.{ip_checksum}
use otrix.Net.SockBuf.{
  SockBuf, IsValid, allocate, receive, size, add_header, add_parsed_header, set_payload_size, tcp,
}
use otrix.Net.SockBuf.Valid.{receive-IsValid}
use otrix.Net.SockBuf.Layers.{add_header-parse}
use otrix.Net.Ipv4.{Memory, Ipv4, RxHandler, free_entry, deliver, process_packet}
use otrix.Net.Ipv4.Process.{parsed, declared, accepted, process_packet-short}

-- A header with the declared length 4 for 10.0.2.15, up to its checksum and behind it.
abbrev before_checksum : List ℕ
before_checksum = 69 ∷ 0 ∷ 0 ∷ 4 ∷ 0 ∷ 0 ∷ 0 ∷ 0 ∷ 64 ∷ 6 ∷ []

abbrev behind_checksum : List ℕ
behind_checksum = 10 ∷ 0 ∷ 2 ∷ 2 ∷ 10 ∷ 0 ∷ 2 ∷ 15 ∷ []

-- 100 bytes of headers in front of 50 bytes of payload, at 4096.
abbrev raw : SockBuf
raw = record {
  start = 7;
  buffer_size = 7;
  headers = λ t. 7;
  payload = 7;
  head = 7;
  payload_size = 7;
}

abbrev packet : SockBuf
packet = record {
  start = 4096;
  buffer_size = 150;
  headers = λ t. null;
  payload = 4196;
  head = 4196;
  payload_size = 50;
}

packet-allocate : allocate raw 4096 100 50 ≡ packet
unfolding allocate
packet-allocate = refl

packet-IsValid : IsValid packet
packet-IsValid = record {
  allocated = omega arith;
  start_le = omega arith;
  head_le = omega arith;
  payload_le = omega arith;
  fits = omega arith;
  header_inside = λ t. inl refl;
}

add_header-parse_example :
    let sent = (add_header packet 20 tcp).1 in
    let received = add_parsed_header (receive sent.head (size sent)) 20 tcp in
    (received.headers tcp ≡ (add_header packet 20 tcp).0)
    × (received.head ≡ 4196)
    × (size received ≡ size packet)
add_header-parse_example = add_header-parse packet packet-IsValid 20 tcp refl (omega arith)

-- TCP's handler, and two free entries.
abbrev tcp_handler : RxHandler
tcp_handler = record { proto = 6; handler = 500; ctx = 600 }

abbrev layer : Ipv4
layer = record { addr = 167772687; rx_handlers = tcp_handler ∷ free_entry ∷ free_entry ∷ [] }

abbrev full_layer : Ipv4
full_layer = record { addr = 0; rx_handlers = tcp_handler ∷ tcp_handler ∷ tcp_handler ∷ [] }

nth : List ℕ → ℕ → ℕ
nth [] i = 0
nth (x ∷ xs) zero = x
nth (x ∷ xs) (suc i) = nth xs i

-- The header at 1000, with its checksum.
abbrev mem : Memory
mem p = nth (before_checksum ++ 98 ∷ 228 ∷ behind_checksum) (p - 1000)

mem-accepted : accepted layer mem (receive 1000 60) ≡ true
unfolding nth receive ip_checksum add_parsed_header
mem-accepted = refl

received-IsValid : IsValid (receive 1000 60)
received-IsValid = receive-IsValid 1000 60 (omega arith) (omega arith)

-- A memory of zeros has no header of version 4.
zeros_dropped : accepted layer (λ p. 0) (receive 1000 60) ≡ false
unfolding receive ip_checksum add_parsed_header
zeros_dropped = refl

abbrev sent_up : SockBuf
sent_up =
    set_payload_size (parsed layer mem (receive 1000 60)) (declared layer mem (receive 1000 60))

delivered :
    deliver layer.rx_handlers (nth (before_checksum ++ 98 ∷ 228 ∷ behind_checksum) 9)
    ≡ returns (tcp_handler ∷ [])
unfolding nth deliver
delivered = refl

process_packet-short_example :
    (b' : SockBuf) × (process_packet layer mem (receive 1000 60) ≡ returns (b', tcp_handler ∷ []))
    × ¬ (IsValid b')
unfolding nth receive add_parsed_header
process_packet-short_example =
    process_packet-short layer mem (receive 1000 60) (tcp_handler ∷ []) received-IsValid
      mem-accepted delivered refl (omega arith)
