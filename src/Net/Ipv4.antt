-- ===== src/Net/Ipv4.antt =====
-- net/ipv4.cpp and net/include/net/ipv4.hpp: what the network layer receives. The bytes that a packet's
-- pointers lead to are read from a memory.
use otrix.Prelude.{
  ℕ, zero, suc, ◌+◌, ◌*◌, List, [], ◌∷◌, Bool, true, false, not, ◌&&◌, ◌==◌, ltb, if◌then◌else◌,
  Option, none, some, Outcome, returns, faults, ◌>>=◌,
}
use otrix.Error.{Kerror, ok, nomem}
use otrix.IntrusiveList.{Ptr, null}
use otrix.Net.{swap16, swap32}
use otrix.Net.Checksum.{ip_checksum}
use otrix.Net.SockBuf.{SockBuf, ip, sub64, add_parsed_header, set_payload_size}
pub mod Subscribe
pub mod Process

abbrev pub Memory : Type 0
Memory = Ptr → ℕ

-- An entry of `rx_handlers_`: a protocol, 0 for none, a function's address and its argument.
pub record RxHandler : Type 0 where
  pub proto : ℕ
  pub handler : Ptr
  pub ctx : Ptr

-- An entry as the constructor of `ipv4` leaves it.
abbrev pub free_entry : RxHandler
free_entry = record { proto = 0; handler = null; ctx = null }

-- `addr_` and `rx_handlers_`
pub record Ipv4 : Type 0 where
  pub addr : ℕ
  pub rx_handlers : List RxHandler

-- The loop of `subscribe_to_rx`.
unfoldable pub put_handler : List RxHandler → RxHandler → Option (List RxHandler)
put_handler [] new = none
put_handler (h ∷ hs) new =
    let rest = put_handler hs new in
    if 0 == h.proto then some (new ∷ hs) else elim rest [ none ↦ none | some hs' ↦ some (h ∷ hs') ]

-- The two ways out of the loop.
abbrev pub stored : Ipv4 → Option (List RxHandler) → Kerror × Ipv4
stored layer none = (nomem, layer)
stored layer (some handlers) = (ok, record layer { rx_handlers = handlers })

unfoldable pub subscribe_to_rx : Ipv4 → (proto : ℕ) (handler ctx : Ptr) → Kerror × Ipv4
unfolding put_handler
subscribe_to_rx layer proto handler ctx =
    stored layer
      (put_handler layer.rx_handlers (record { proto = proto; handler = handler; ctx = ctx }))

-- The loop of `process_packet` over the handlers: those that it calls, in order.
unfoldable pub deliver : List RxHandler → ℕ → Outcome (List RxHandler)
deliver [] proto = returns []
deliver (h ∷ hs) proto =
    let rest = deliver hs proto in
    if h.proto == proto
    then (if h.handler == null then faults else (do called ← rest; returns (h ∷ called)))
    else rest

abbrev pub read16 : Memory → Ptr → ℕ
read16 mem p = mem p + 256 * mem (p + 1)

abbrev pub read32 : Memory → Ptr → ℕ
read32 mem p = read16 mem p + 65536 * read16 mem (p + 2)

abbrev pub read_bytes : Memory → Ptr → ℕ → List ℕ
read_bytes mem p zero = []
read_bytes mem p (suc n) = mem p ∷ read_bytes mem (p + 1) n

-- The members of `ip_hdr` that are read.
abbrev pub version_ihl : Memory → Ptr → ℕ
version_ihl mem p = mem p

abbrev pub len : Memory → Ptr → ℕ
len mem p = read16 mem (p + 2)

abbrev pub proto_of : Memory → Ptr → ℕ
proto_of mem p = mem (p + 9)

abbrev pub daddr : Memory → Ptr → ℕ
daddr mem p = read32 mem (p + 16)

-- `sizeof(ip_hdr)` and `VERSION_IHL_IPV4`
abbrev pub ip_hdr_size : ℕ
ip_hdr_size = 20

abbrev pub version_ihl_ipv4 : ℕ
version_ihl_ipv4 = 69

-- `make_ipv4(255, 255, 255, 255)`
abbrev pub broadcast : ℕ
broadcast = 4294967295

-- The buffer as the call leaves it, and the handlers it calls with that buffer.
unfoldable pub process_packet : Ipv4 → Memory → SockBuf → Outcome (SockBuf × List RxHandler)
process_packet layer mem packet =
    if ltb packet.payload_size ip_hdr_size
    then returns (packet, [])
    else (let parsed = add_parsed_header packet ip_hdr_size ip in
        let hdr = parsed.headers ip in
        if not (ip_checksum (read_bytes mem hdr ip_hdr_size) 0 == 0)
        then returns (parsed, [])
        else (if not (version_ihl mem hdr == version_ihl_ipv4)
            then returns (parsed, [])
            else (if not (daddr mem hdr == swap32 layer.addr)
                  && not (daddr mem hdr == swap32 broadcast)
                then returns (parsed, [])
                else (do
                  called ← deliver layer.rx_handlers (proto_of mem hdr)
                  returns (
                    set_payload_size parsed (sub64 (swap16 (len mem hdr)) ip_hdr_size),
                    called,
                  )))))
