-- ===== src/Dev/VirtioNet.antt =====
-- dev/virtio_net.cpp and dev/include/dev/virtio_net.hpp: the network device, above the virtqueues. Memory
-- is a parameter, of bytes by their address, and a link address is its six bytes. What `otrix::alloc` and
-- `new` return are parameters.
use otrix.Prelude.{
  ℕ, zero, suc, ◌+◌, ◌*◌, ◌/◌, ◌%◌, ◌^◌, List, [], ◌∷◌, ◌++◌, Bool, true, false, not, ◌&&◌, ◌||◌,
  ◌==◌, ltb, leb, if◌then◌else◌, Option, none, some, Outcome, returns, faults, out_of_fuel, ◌>>=◌,
  replicate,
}
use otrix.Error.{Kerror, ok, nomem}
use otrix.IntrusiveList.{Ptr, null, update}
use otrix.Net.{swap16}
use otrix.Net.SockBuf.{
  SockBuf, virtio, ethernet, add64, sub64, add_header, add_parsed_header, size, receive,
}
use otrix.Sync
use otrix.Sync.{MsgqState}
use otrix.Dev.Virtio.{Virtq, RegWrite, virtq_send_buffer}
pub mod Frames
pub mod Loopback
pub mod Buffers
mod Tests

abbrev pub Bytes : Type 0
Bytes = Ptr → ℕ

abbrev pub write_bytes : Bytes → Ptr → List ℕ → Bytes
write_bytes mem p [] = mem
write_bytes mem p (b ∷ bs) = write_bytes (update mem p b) (p + 1) bs

abbrev pub read_bytes : ℕ → Bytes → Ptr → List ℕ
read_bytes zero mem p = []
read_bytes (suc n) mem p = mem p ∷ read_bytes n mem (p + 1)

-- sizeof of struct virtio_net_hdr and of struct ethernet_hdr
abbrev pub virtio_net_hdr_size : ℕ
virtio_net_hdr_size = 10

abbrev pub ethernet_hdr_size : ℕ
ethernet_hdr_size = 14

abbrev pub mac_size : ℕ
mac_size = 6

abbrev pub mtu : ℕ
mtu = 1514

abbrev pub rx_queue_size : ℕ
rx_queue_size = 16

-- An entry of `rx_handlers_`; `ethertype::unknown` is 0.
abbrev pub unknown : ℕ
unknown = 0

pub record L3Handler : Type 0 where
  pub ethertype : ℕ
  pub handler : Ptr
  pub ctx : Ptr

pub record VirtioNet : Type 0 where
  pub tx_q : Virtq
  pub rx_q : Virtq
  pub rx_handlers : List L3Handler
  pub rx_packet_queue : MsgqState
  pub num_rx_buffers : ℕ
  pub addr : List ℕ

unfoldable pub get_mac : VirtioNet → List ℕ
get_mac net = net.addr

unfoldable pub headers_size : ℕ
headers_size = virtio_net_hdr_size + ethernet_hdr_size

-- A uint16_t as it lies in memory.
abbrev pub bytes16 : ℕ → List ℕ
bytes16 v = v % 256 ∷ v / 256 % 256 ∷ []

abbrev pub read16 : Bytes → Ptr → ℕ
read16 mem p = mem p + mem (p + 1) * 256

-- The three members of the Ethernet header.
abbrev pub ethernet_hdr : List ℕ → List ℕ → ℕ → List ℕ
ethernet_hdr dmac smac ethertype = dmac ++ (smac ++ bytes16 ethertype)

-- The result of `write`: with the buffer and the memory as it leaves them.
pub record Written : Type 0 where
  pub ret : Kerror
  pub net : VirtioNet
  pub buffer : SockBuf
  pub mem : Bytes
  pub regs : List RegWrite

abbrev pub data_of : SockBuf → Ptr
data_of b = if b.start == null then b.start else b.head

-- The member `ethertype`: a length when there is no type.
abbrev pub ethertype_of : SockBuf → ℕ → ℕ
ethertype_of b type = if type == unknown then sub64 (size b) ethernet_hdr_size % 2 ^ 16 else type

unfoldable pub write : VirtioNet → Bytes → SockBuf → (dest : List ℕ) → (type : ℕ) → Written
unfolding get_mac
write net mem b dest type =
    let (e_hdr, b1) = add_header b ethernet_hdr_size ethernet in
    let mem1 =
      write_bytes mem e_hdr (ethernet_hdr dest (get_mac net) (swap16 (ethertype_of b1 type))) in
    let (v_hdr, b2) = add_header b1 virtio_net_hdr_size virtio in
    let mem2 = write_bytes mem1 v_hdr (replicate virtio_net_hdr_size 0) in
    let (ret, q, regs) = virtq_send_buffer net.tx_q (data_of b2) (size b2 % 2 ^ 32) false null in
    record { ret = ret; net = record net { tx_q = q }; buffer = b2; mem = mem2; regs = regs }

-- The first entry without a type is taken.
unfoldable pub put_handler : List L3Handler → L3Handler → Option (List L3Handler)
put_handler [] new = none
put_handler (h ∷ hs) new =
    let rest = put_handler hs new in
    if h.ethertype == unknown
    then some (new ∷ hs)
    else elim rest [ none ↦ none | some hs' ↦ some (h ∷ hs') ]

unfoldable pub subscribe_to_rx : VirtioNet → (type : ℕ) (handler ctx : Ptr) → Kerror × VirtioNet
unfolding put_handler
subscribe_to_rx net type handler ctx =
    elim (put_handler net.rx_handlers (record { ethertype = type; handler = handler; ctx = ctx })) [
      | none ↦ (nomem, net)
      | some hs ↦ (ok, record net { rx_handlers = hs })
    ]

-- Bits 5 and 16 are supported, and the upper eight are all taken.
unfoldable pub negotiate_features : ℕ → ℕ
negotiate_features device_features =
    device_features / 2 ^ 24 * 2 ^ 24
    + (device_features / 2 ^ 16 % 2) * 2 ^ 16
    + (device_features / 2 ^ 5 % 2) * 2 ^ 5

-- `skb_free_func` of `rx_handler`: a buffer goes back to the device, or to the heap when there are more
-- than enough. `freed` are the buffers that went to the heap.
pub record Freed : Type 0 where
  pub net : VirtioNet
  pub freed : List Ptr

unfoldable pub skb_free : VirtioNet → (buf : Ptr) (buffer_size : ℕ) → Freed
skb_free net buf buffer_size =
    if ltb rx_queue_size net.num_rx_buffers
    then record { net = net; freed = buf ∷ [] }
    else record {
      net = record net {
        rx_q = (virtq_send_buffer net.rx_q buf (buffer_size % 2 ^ 32) true null).1;
        num_rx_buffers = add64 net.num_rx_buffers 1;
      };
      freed = [];
    }

-- `rx_handler`: `skb` is what `new` returns, and `sockbufs` are the objects.
pub record Arrival : Type 0 where
  pub net : VirtioNet
  pub sockbufs : Ptr → SockBuf
  pub freed : List Ptr

unfoldable pub rx_handler :
    VirtioNet → (Ptr → SockBuf) → (buf : Ptr) (buffer_size : ℕ) → (skb : Ptr) → Arrival
unfolding skb_free
rx_handler net sockbufs buf buffer_size skb =
    let taken = record net { num_rx_buffers = sub64 net.num_rx_buffers 1 } in
    let stored = update sockbufs skb (receive buf buffer_size) in
    let (written, woken, queue) = Sync.write net.rx_packet_queue skb in
    let back = skb_free taken buf buffer_size in
    if Sync.full net.rx_packet_queue
    then record { net = net; sockbufs = sockbufs; freed = [] }
    else (if skb == null
        then record { net = taken; sockbufs = sockbufs; freed = [] }
        else (if written
            then record {
              net = record taken { rx_packet_queue = queue };
              sockbufs = stored;
              freed = [];
            }
            else record { net = back.net; sockbufs = stored; freed = back.freed }))

abbrev pub broadcast_mac : List ℕ
broadcast_mac = replicate mac_size 255

-- `memcmp(a, b, sizeof(mac_t)) == 0`
abbrev pub same_bytes : List ℕ → List ℕ → Bool
same_bytes [] [] = true
same_bytes (x ∷ xs) (y ∷ ys) = (x == y) && same_bytes xs ys
same_bytes _ _ = false

-- The loop over the handlers: those that it calls, in order. An entry without a function faults.
unfoldable pub deliver : List L3Handler → ℕ → Outcome (List L3Handler)
deliver [] type = returns []
deliver (h ∷ hs) type =
    let rest = deliver hs type in
    if h.ethertype == type
    then (if h.handler == null then faults else (do called ← rest; returns (h ∷ called)))
    else rest

-- The two headers of a packet that arrived.
abbrev pub parsed : SockBuf → SockBuf
parsed b =
    add_parsed_header (add_parsed_header b virtio_net_hdr_size virtio) ethernet_hdr_size ethernet

-- The test of the destination, and the handlers behind it.
unfoldable pub accept : VirtioNet → (dmac : List ℕ) → (ethertype : ℕ) → Outcome (List L3Handler)
unfolding deliver
accept net dmac ethertype =
    if not (same_bytes dmac broadcast_mac) && not (same_bytes dmac net.addr)
    then returns []
    else deliver net.rx_handlers (swap16 ethertype)

-- One round of `rx_thread` up to the deletion of the packet: the handlers that are called.
unfoldable pub receive_packet : VirtioNet → Bytes → SockBuf → Outcome (List L3Handler)
receive_packet net mem b =
    let e_hdr = (parsed b).headers ethernet in
    accept net (read_bytes mac_size mem e_hdr) (read16 mem (e_hdr + 12))

-- `while (num_rx_buffers_ < RX_QUEUE_SIZE)`: `alloc i` is what call `i` of the allocation returns.
unfoldable pub refill : ℕ → VirtioNet → (ℕ → Ptr) → ℕ → Outcome VirtioNet
refill zero net alloc i = out_of_fuel
refill (suc fuel) net alloc i =
    let sent = virtq_send_buffer net.rx_q (alloc i) (mtu + virtio_net_hdr_size) true null in
    let again =
      refill fuel (record net { rx_q = sent.1; num_rx_buffers = add64 net.num_rx_buffers 1 }) alloc
        (i + 1) in
    if ltb net.num_rx_buffers rx_queue_size then again else returns net

-- The sixteen buffers that `rx_thread` starts with.
unfoldable pub first_buffers : ℕ → VirtioNet → (ℕ → Ptr) → ℕ → VirtioNet
first_buffers zero net alloc i = net
first_buffers (suc rounds) net alloc i =
    let sent = virtq_send_buffer net.rx_q (alloc i) (mtu + virtio_net_hdr_size) true null in
    first_buffers rounds (record net { rx_q = sent.1; num_rx_buffers = add64 net.num_rx_buffers 1 })
      alloc (i + 1)

-- The registers of the device itself: how wide an access is, and none for those of every virtio device.
unfoldable pub reg_width : ℕ → Option ℕ
reg_width reg =
    if leb 0x18 reg && leb reg 0x1d
    then some 8
    else (if (reg == 0x1e) || (reg == 0x20) then some 16 else none)
