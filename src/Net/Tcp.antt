-- ===== src/Net/Tcp.antt =====
-- net/tcp.hpp and net/tcp.cpp: the headers of segments, and what the layer does between the sockets and
-- the network layer. The numbers of a header are as they stand in the packet.
use otrix.Prelude.{
  ℕ, ◌+◌, ◌*◌, ◌/◌, ◌%◌, ◌^◌, Bool, true, false, not, ◌&&◌, ◌||◌, ◌==◌, if◌then◌else◌, List, [],
  ◌∷◌, ◌++◌, length, Option, none, some,
}
use otrix.Error.{Kerror, ok, addrinuse}
use otrix.IntrusiveList.{Ptr}
use otrix.Net.{swap16, swap32}
use otrix.Net.Checksum.{add_words, ip_checksum}
pub mod Checksum
pub mod Sockets
mod Tests

-- `tcp_header`
pub record TcpHeader : Type 0 where
  pub source_port : ℕ
  pub dest_port : ℕ
  pub seq : ℕ
  pub ack : ℕ
  pub header_len : ℕ
  pub flags : ℕ
  pub window_size : ℕ
  pub csum : ℕ
  pub urp : ℕ

-- A segment that was received: its header, the source address of its packet, and its payload.
pub record Segment : Type 0 where
  pub hdr : TcpHeader
  pub saddr : ℕ
  pub payload : List ℕ

-- A segment that is handed to the network layer, with the address it goes to.
pub record Outgoing : Type 0 where
  pub header : TcpHeader
  pub remote : ℕ
  pub data_bytes : List ℕ

-- The bits of `tcp_flags`.
abbrev pub has_fin : TcpHeader → Bool
has_fin hdr = hdr.flags % 2 == 1

abbrev pub has_syn : TcpHeader → Bool
has_syn hdr = hdr.flags / 2 % 2 == 1

abbrev pub has_rst : TcpHeader → Bool
has_rst hdr = hdr.flags / 4 % 2 == 1

abbrev pub has_psh : TcpHeader → Bool
has_psh hdr = hdr.flags / 8 % 2 == 1

abbrev pub has_ack : TcpHeader → Bool
has_ack hdr = hdr.flags / 16 % 2 == 1

abbrev pub flag_ack : ℕ
flag_ack = 16

abbrev pub flag_psh : ℕ
flag_psh = 8

abbrev pub flag_rst : ℕ
flag_rst = 4

abbrev pub flag_syn : ℕ
flag_syn = 2

-- `sizeof(tcp_header)`, and the header's length in the upper half of `header_len`.
abbrev pub tcp_header_size : ℕ
tcp_header_size = 20

abbrev pub header_len_field : ℕ
header_len_field = 80

-- `tcp_header_size` of a received packet.
abbrev pub received_header_size : ℕ → ℕ
received_header_size header_len = header_len / 16 * 4

-- `tcp::socket_id`
pub record SocketId : Type 0 where
  pub host_port : ℕ
  pub remote_port : ℕ
  pub remote_ip : ℕ

abbrev pub same_id : SocketId → SocketId → Bool
same_id a b =
    (a.host_port == b.host_port) && (a.remote_port == b.remote_port) && (a.remote_ip == b.remote_ip)

-- `tcp::send_reply`, with the checksum still 0.
unfoldable pub send_reply : Segment → ℕ → Outgoing
send_reply reply_to tcp_flags = record {
  header = record {
    source_port = reply_to.hdr.dest_port;
    dest_port = reply_to.hdr.source_port;
    seq = if has_ack reply_to.hdr then reply_to.hdr.ack else 0;
    ack = swap32 ((swap32 reply_to.hdr.seq + length reply_to.payload + 1) % 4294967296);
    header_len = header_len_field;
    flags = tcp_flags;
    window_size = 0;
    csum = 0;
    urp = 0;
  };
  remote = swap32 reply_to.saddr;
  data_bytes = [];
}

-- The bytes of a number in memory, the lowest first.
abbrev pub bytes16 : ℕ → List ℕ
bytes16 n = n % 256 ∷ n / 256 % 256 ∷ []

abbrev pub bytes32 : ℕ → List ℕ
bytes32 n = n % 256 ∷ n / 256 % 256 ∷ n / 65536 % 256 ∷ n / 16777216 % 256 ∷ []

abbrev pub header_bytes : TcpHeader → List ℕ
header_bytes h =
    bytes16 h.source_port
    ++ bytes16 h.dest_port
    ++ bytes32 h.seq
    ++ bytes32 h.ack
    ++ (h.header_len % 256 ∷ h.flags % 256 ∷ [])
    ++ bytes16 h.window_size
    ++ bytes16 h.csum
    ++ bytes16 h.urp

-- `ipv4_pseudo_header`, with the addresses and the length as they stand in memory.
abbrev pub pseudo_header : (source_addr dest_addr tcp_length : ℕ) → List ℕ
pseudo_header source_addr dest_addr tcp_length =
    bytes32 source_addr ++ bytes32 dest_addr ++ (0 ∷ 6 ∷ bytes16 tcp_length)

-- `tcp::tcp_checksum` for the host with the address `addr`.
unfoldable pub tcp_checksum : (addr dest_address : ℕ) → TcpHeader → List ℕ → ℕ
tcp_checksum addr dest_address header payload =
    let initial_csum = add_words 0 (
      pseudo_header (swap32 addr) dest_address
        (swap16 ((length payload + tcp_header_size) % 65536))) in
    ip_checksum (header_bytes header ++ payload) initial_csum

-- `tcp::send`: the segment with its checksum.
unfoldable pub send : (addr : ℕ) → Outgoing → Outgoing
unfolding tcp_checksum
send addr out = record out {
  header = record out.header {
    csum = tcp_checksum addr (swap32 out.remote) out.header out.data_bytes;
  };
}

-- A table of sockets, the newest first: `find` gives the first with the identifier.
abbrev pub Sockets : Type 0
Sockets = List (SocketId × Ptr)

abbrev pub find_socket : Sockets → SocketId → Option Ptr
find_socket [] id = none
find_socket (e ∷ es) id = if same_id e.0 id then some e.1 else find_socket es id

-- A socket that is not in the table is not looked for: the code then writes through links that are not
-- the table's, `none` here.
abbrev pub remove_socket : Sockets → Ptr → Option Sockets
remove_socket [] sock = none
remove_socket (e ∷ es) sock =
    let rest = remove_socket es sock in
    if e.1 == sock then some es else elim rest [ none ↦ none | some es' ↦ some (e ∷ es') ]

-- `listen_sockets_` and `connected_sockets_`
pub record Tcp : Type 0 where
  pub listen_sockets : Sockets
  pub connected_sockets : Sockets

abbrev pub listen_id : ℕ → SocketId
listen_id port = record { host_port = port; remote_port = 0; remote_ip = 0 }

-- A socket has one node, with one key, for both tables: setting the key also changes it where the node is
-- linked already. Linking such a node once more breaks the list of its old bucket, which is not modelled.
abbrev pub rekey : Ptr → SocketId → Sockets → Sockets
rekey sock id [] = []
rekey sock id (e ∷ es) = ((if e.1 == sock then id else e.0), e.1) ∷ rekey sock id es

unfoldable pub bind_socket : Tcp → Ptr → ℕ → Kerror × Tcp
bind_socket tcp sock port = elim (find_socket tcp.listen_sockets (listen_id port)) [
  | some other ↦ (addrinuse, tcp)
  | none ↦ (
    ok,
    record {
      listen_sockets = (listen_id port, sock) ∷ rekey sock (listen_id port) tcp.listen_sockets;
      connected_sockets = rekey sock (listen_id port) tcp.connected_sockets;
    },
  )
]

unfoldable pub unbind_socket : Tcp → Ptr → Option Tcp
unbind_socket tcp sock = elim (remove_socket tcp.listen_sockets sock) [
  | none ↦ none
  | some sockets ↦ some (record tcp { listen_sockets = sockets })
]

-- It looks for the identifier among the listening sockets.
unfoldable pub add_connected_socket : Tcp → Ptr → SocketId → Kerror × Tcp
add_connected_socket tcp sock id = elim (find_socket tcp.listen_sockets id) [
  | some other ↦ (addrinuse, tcp)
  | none ↦ (
    ok,
    record {
      listen_sockets = rekey sock id tcp.listen_sockets;
      connected_sockets = (id, sock) ∷ rekey sock id tcp.connected_sockets;
    },
  )
]

unfoldable pub remove_connected_socket : Tcp → Ptr → Option Tcp
remove_connected_socket tcp sock = elim (remove_socket tcp.connected_sockets sock) [
  | none ↦ none
  | some sockets ↦ some (record tcp { connected_sockets = sockets })
]

abbrev pub connected_id : Segment → SocketId
connected_id seg = record {
  host_port = swap16 seg.hdr.dest_port;
  remote_port = swap16 seg.hdr.source_port;
  remote_ip = swap32 seg.saddr;
}

-- What `process_packet` does with a segment: it goes to a socket, or a reply is sent.
pub data Route : Type 0 where
  to_socket : Ptr → Route
  replies : Outgoing → Route

abbrev pub route_to : Option Ptr → Segment → Route
route_to (some sock) seg = to_socket sock
route_to none seg = replies (send_reply seg (flag_rst + flag_ack))

abbrev pub pick_socket : Option Ptr → Option Ptr → Bool → Option Ptr
pick_socket none listening syn = listening
pick_socket (some sock) listening true = listening
pick_socket (some sock) listening false = some sock

unfoldable pub process_packet : Tcp → Segment → Route
process_packet tcp seg =
    route_to
      (pick_socket (find_socket tcp.connected_sockets (connected_id seg))
        (find_socket tcp.listen_sockets (listen_id (swap16 seg.hdr.dest_port))) (has_syn seg.hdr))
      seg
