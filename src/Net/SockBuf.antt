-- ===== src/Net/SockBuf.antt =====
-- net/include/net/sockbuf.hpp: a packet with room for headers in front of the payload. A buffer is its
-- pointers and sizes; the bytes behind them are the memory's. Pointers and sizes have 64 bits.
use otrix.Prelude.{
  ℕ, ◌+◌, ◌-◌, ◌%◌, ◌≤◌, ◌<◌, ◌≡◌, ◌≢◌, ◌⊎◌, ◌↔◌, inl, inr, refl, Bool, true, false, not, ◌&&◌,
  ◌==◌, ltb, ne→==, if◌then◌else◌, Bool-cases, arith,
}
use otrix.IntrusiveList.{Ptr, null}
pub mod Valid
pub mod Layers

-- `sockbuf_header_t`, less `max`
pub data HeaderType : Type 0 where
  virtio ethernet ip icmp udp tcp : HeaderType

abbrev pub same_type : HeaderType → HeaderType → Bool
same_type virtio virtio = true
same_type ethernet ethernet = true
same_type ip ip = true
same_type icmp icmp = true
same_type udp udp = true
same_type tcp tcp = true
same_type _ _ = false

pub record SockBuf : Type 0 where
  pub start : Ptr
  pub buffer_size : ℕ
  pub headers : HeaderType → Ptr
  pub payload : Ptr
  pub head : Ptr
  pub payload_size : ℕ

abbrev pub add64 : ℕ → ℕ → ℕ
add64 a b = (a + b) % 18446744073709551616

abbrev pub sub64 : ℕ → ℕ → ℕ
sub64 a b = (a + 18446744073709551616 - b) % 18446744073709551616

-- The constructor that allocates: `memory` is what the object held, `p` what `otrix::alloc` returns.
-- When that is NULL the other pointers are not written.
unfoldable pub allocate : SockBuf → Ptr → ℕ → ℕ → SockBuf
allocate memory p headers_size payload_size =
    let sized = record memory {
      start = p;
      buffer_size = add64 headers_size payload_size;
      payload_size = payload_size;
    } in
    if p == null then sized else record sized {
      head = add64 p headers_size;
      payload = add64 p headers_size;
      headers = λ t. null;
    }

-- The constructor that takes the caller's buffer.
unfoldable pub receive : Ptr → ℕ → SockBuf
receive data_start data_size = record {
  start = data_start;
  buffer_size = data_size;
  headers = λ t. null;
  payload = data_start;
  head = data_start;
  payload_size = data_size;
}

unfoldable pub size : SockBuf → ℕ
size b = add64 (sub64 b.payload b.head) b.payload_size

abbrev pub set_header : SockBuf → HeaderType → Ptr → HeaderType → Ptr
set_header b t p u = if same_type u t then p else b.headers u

unfoldable pub add_header : SockBuf → ℕ → HeaderType → Ptr × SockBuf
add_header b header_size t =
    if ltb (sub64 b.head b.start) header_size
    then (null, b)
    else (if not (b.headers t == null)
        then (b.headers t, b)
        else (let head = sub64 b.head header_size in
            (head, record b { head = head; headers = set_header b t head })))

unfoldable pub add_parsed_header : SockBuf → ℕ → HeaderType → SockBuf
add_parsed_header b header_size t =
    if not (b.headers t == null)
    then b
    else (if ltb b.payload_size header_size then b else record b {
      headers = set_header b t b.head;
      head = add64 b.head header_size;
      payload_size = b.payload_size - header_size;
      payload = add64 b.payload header_size;
    })

abbrev pub set_payload_size : SockBuf → ℕ → SockBuf
set_payload_size b new_size = record b { payload_size = new_size }

-- The pointers lie in the buffer, in order, and the payload ends in it.
pub record IsValid (b : SockBuf) : Type 0 where
  pub allocated : b.start ≢ null
  pub start_le : b.start ≤ b.head
  pub head_le : b.head ≤ b.payload
  pub payload_le : b.payload + b.payload_size ≤ b.start + b.buffer_size
  pub fits : b.start + b.buffer_size < 18446744073709551616
  pub header_inside :
      (t : HeaderType)
      → (b.headers t ≡ null) ⊎ ((b.start ≤ b.headers t) × (b.headers t ≤ b.payload))
