-- ===== src/Net/TcpSocket/Listen.antt =====
-- net/tcp_socket.cpp: the listening socket, its cache of half-open connections and its backlog, and how
-- a segment goes from the layer to a socket. The sockets are objects at addresses.
use otrix.Prelude.{
  ℕ, ◌+◌, ◌%◌, List, [], ◌∷◌, ◌++◌, length, Bool, true, false, not, ◌&&◌, ◌||◌, ◌==◌, ltb,
  if◌then◌else◌, Option, none, some, Outcome, returns, faults, ◌>>=◌,
}
use otrix.Error.{Kerror, ok, addrinuse}
use otrix.IntrusiveList.{Ptr, null, update}
use otrix.Net.{swap16, swap32}
use otrix.Net.Tcp
use otrix.Net.Tcp.{
  Segment, SocketId, same_id, Tcp, Route, to_socket, replies, add_connected_socket, send_reply,
  has_syn, has_ack, flag_ack, flag_rst,
}
use otrix.Net.TcpSocket.{
  TcpState, Socket, SynCache, SynCacheEntry, Backlog, Listening, closed, listen, established,
  close_wait, invalid_port, tcp_initial_window_size, tcp_socket, Action, sends, send_syn_ack,
  handle_segment, handle_established_state, handle_close_wait_state,
}
pub mod Handshake
pub mod SynAck
pub mod Accounts
pub mod Arrivals
pub mod Handlers
pub mod States
pub mod EarlyData

-- The layer, and the memory of the sockets.
pub record Stack : Type 0 where
  pub layer : Tcp
  pub sockets : Ptr → Socket

abbrev pub set_socket : Stack → Ptr → Socket → Stack
set_socket stack this s = record stack { sockets = update stack.sockets this s }

-- `bind`
unfoldable pub bind : Stack → Ptr → ℕ → Kerror × Stack
bind stack this port =
    let bound = Tcp.bind_socket stack.layer this port in
    elim bound.0 [
      | Kerror.ok ↦ (
        ok,
        record {
          layer = bound.1;
          sockets = update stack.sockets this (record (stack.sockets this) { port = port });
        },
      )
      | err ↦ (err, stack)
    ]

-- `listen`
unfoldable pub start_listening : Stack → Ptr → ℕ → Kerror × Stack
start_listening stack this backlog_size =
    let s = stack.sockets this in
    if invalid_port == s.port then (addrinuse, stack) else (
      ok,
      set_socket stack this (record s {
        state = listen;
        listening = some (record {
          syn_cache = record { pool_size = backlog_size; entries = [] };
          backlog = record { size = backlog_size; messages = [] };
        });
      }),
    )

abbrev pub find_syn : List (SocketId × SynCacheEntry) → SocketId → Option SynCacheEntry
find_syn [] id = none
find_syn (e ∷ es) id = if same_id e.0 id then some e.1 else find_syn es id

abbrev pub remove_syn : List (SocketId × SynCacheEntry) → SocketId → List (SocketId × SynCacheEntry)
remove_syn [] id = []
remove_syn (e ∷ es) id = if same_id e.0 id then es else e ∷ remove_syn es id

-- `full` of the backlog.
abbrev pub full : Backlog → Bool
full backlog = length backlog.messages == backlog.size

-- The identifier that a listening socket gives the connection of a segment.
abbrev pub syn_id : Socket → Segment → SocketId
syn_id s seg = record {
  host_port = s.port % 65536;
  remote_port = swap16 seg.hdr.source_port;
  remote_ip = swap32 seg.saddr;
}

abbrev pub set_listening : Socket → Listening → Socket
set_listening s l = record s { listening = some l }

-- `handle_syn`; `isn` is what `generate_isn` gives.
unfoldable pub handle_syn : Socket → Listening → (isn : ℕ) → Segment → Socket × List Action
handle_syn s l isn seg = elim (find_syn l.syn_cache.entries (syn_id s seg)) [
  | some entry ↦
      if swap32 seg.hdr.seq == entry.remote_isn
      then (s, sends (send_syn_ack seg entry.isn) ∷ [])
      else (s, sends (send_reply seg (flag_ack + flag_rst)) ∷ [])
  | none ↦ if length l.syn_cache.entries == l.syn_cache.pool_size then (s, []) else (
    set_listening s (record l {
      syn_cache = record l.syn_cache {
        entries =
            (syn_id s seg, record { isn = isn; remote_isn = swap32 seg.hdr.seq })
            ∷ l.syn_cache.entries;
      };
    }),
    sends (send_syn_ack seg isn) ∷ [],
  )
]

-- The socket that `accept_connection` makes of an entry, in the memory that it gets.
unfoldable pub new_connection : (memory s : Socket) → SynCacheEntry → Segment → Socket
unfolding tcp_socket
new_connection memory s entry seg = record (tcp_socket memory) {
  port = s.port;
  state = established;
  remote_addr = swap32 seg.saddr;
  remote_port = swap16 seg.hdr.source_port;
  seq = (entry.isn + 1) % 4294967296;
  ack = swap32 seg.hdr.seq;
  recv_window_size = tcp_initial_window_size;
  recv_window_used = length seg.payload;
}

-- `accept_connection` from where the entry was found, was right, and the backlog has room; `new` is the
-- address that the allocator gives.
unfoldable pub establish :
    Stack → (this new : Ptr) → Listening → SynCacheEntry → Segment → Stack × List Action
unfolding new_connection
establish stack this new l entry seg =
    let s = stack.sockets this in
    let id = syn_id s seg in
    let l' : Listening = record {
      syn_cache = record l.syn_cache { entries = remove_syn l.syn_cache.entries id };
      backlog = record l.backlog { messages = l.backlog.messages ++ (new ∷ []) };
    } in
    let made = new_connection (stack.sockets new) s entry seg in
    let handled : Socket × List Action =
      if ltb 0 (length seg.payload) then handle_segment made seg else (made, []) in
    (
      record {
        layer = (add_connected_socket stack.layer new id).1;
        sockets = update (update stack.sockets this (set_listening s l')) new handled.0;
      },
      handled.1,
    )

-- `accept_connection`
unfoldable pub accept_connection :
    Stack → (this new : Ptr) → Listening → Segment → Stack × List Action
unfolding establish
accept_connection stack this new l seg =
    elim (find_syn l.syn_cache.entries (syn_id (stack.sockets this) seg)) [
      | none ↦ (stack, sends (send_reply seg (flag_ack + flag_rst)) ∷ [])
      | some entry ↦
          if not (swap32 seg.hdr.seq == (entry.remote_isn + 1) % 4294967296)
            || not (swap32 seg.hdr.ack == (entry.isn + 1) % 4294967296)
          then (stack, sends (send_reply seg (flag_ack + flag_rst)) ∷ [])
          else (if full l.backlog then (stack, []) else establish stack this new l entry seg)
    ]

-- A handler of one socket, run at an address.
abbrev pub at_socket : Stack → Ptr → Socket × List Action → Stack × List Action
at_socket stack this handled = (set_socket stack this handled.0, handled.1)

-- `handle_listen_state`
unfoldable pub handle_listen_state :
    Stack → (this new : Ptr) → Listening → (isn : ℕ) → Segment → Stack × List Action
unfolding handle_syn accept_connection
handle_listen_state stack this new l isn seg =
    if has_syn seg.hdr
    then at_socket stack this (handle_syn (stack.sockets this) l isn seg)
    else (if has_ack seg.hdr
        then accept_connection stack this new l seg
        else (stack, sends (send_reply seg (flag_rst + flag_ack)) ∷ []))

-- `process_packet` of a socket, by its state; a listening socket with no cache goes through NULL.
unfoldable pub by_state :
    Stack
    → (this new : Ptr) → (isn : ℕ) → Segment
    → TcpState
    → Option Listening
    → Outcome (Stack × List Action)
unfolding handle_listen_state
by_state stack this new isn seg listen none = faults
by_state stack this new isn seg listen (some l) =
    returns (handle_listen_state stack this new l isn seg)
by_state stack this new isn seg established listening =
    returns (at_socket stack this (handle_established_state (stack.sockets this) seg))
by_state stack this new isn seg close_wait listening =
    returns (at_socket stack this (handle_close_wait_state (stack.sockets this) seg))
by_state stack this new isn seg _ listening = returns (stack, [])

unfoldable pub process_packet :
    Stack → (this new : Ptr) → (isn : ℕ) → Segment → Outcome (Stack × List Action)
unfolding by_state
process_packet stack this new isn seg =
    let s = stack.sockets this in by_state stack this new isn seg s.state s.listening

-- `tcp::process_packet`, with what the socket does.
unfoldable pub receive : Stack → (new : Ptr) → (isn : ℕ) → Segment → Outcome (Stack × List Action)
unfolding process_packet
receive stack new isn seg = elim (Tcp.process_packet stack.layer seg) [
  | Route.to_socket sock ↦ process_packet stack sock new isn seg
  | Route.replies out ↦ returns (stack, sends out ∷ [])
]

-- `accept`, without the wait: the oldest connection of the backlog.
unfoldable pub accept : Stack → Ptr → Option Ptr × Stack
accept stack this =
    let s = stack.sockets this in
    elim s.state [
      | TcpState.listen ↦ elim s.listening [
        | none ↦ (none, stack)
        | some l ↦ elim l.backlog.messages [
          | [] ↦ (none, stack)
          | message ∷ messages ↦ (
            some message,
            set_socket stack this
                (set_listening s (record l { backlog = record l.backlog { messages = messages } })),
          )
        ]
      ]
      | _ ↦ (none, stack)
    ]
