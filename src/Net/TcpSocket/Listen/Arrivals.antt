-- ===== src/Net/TcpSocket/Listen/Arrivals.antt =====
-- Where the segments of a handshake go, and what a listening socket does with them.
use otrix.Prelude.{
  ℕ, ◌+◌, ◌%◌, ◌≡◌, refl, ap, ◌∙◌, [], ◌∷◌, ◌++◌, length, true, false, ==_iff, ltb, Option, none,
  some, returns,
}
use otrix.IntrusiveList.{Ptr, update}
use otrix.Net.{swap16, swap32}
use otrix.Net.Tcp
use otrix.Net.Tcp.{
  pick_socket, to_socket, Tcp, Segment, SocketId, same_id, find_socket, listen_id, connected_id,
  has_syn, has_ack, add_connected_socket,
}
use otrix.Net.TcpSocket.{TcpState, Listening, SynCacheEntry}
use otrix.Net.TcpSocket.Listen.{
  Stack, find_syn, remove_syn, full, syn_id, set_listening, new_connection, establish,
  accept_connection, handle_listen_state, by_state, process_packet,
}

-- A socket that listens on a port, with `l`.
pub record Listens (stack : Stack) (this : Ptr) (port : ℕ) (l : Listening) : Type 0 where
  pub state : (stack.sockets this).state ≡ TcpState.listen
  pub listening : (stack.sockets this).listening ≡ some l
  pub port_of : (stack.sockets this).port ≡ port
  pub fits : port % 65536 ≡ port
  pub bound : find_socket stack.layer.listen_sockets (listen_id port) ≡ some this

-- A segment with SYN to a port.
pub record IsSyn (seg : Segment) (port : ℕ) : Type 0 where
  pub to_port : swap16 seg.hdr.dest_port ≡ port
  pub syn : has_syn seg.hdr ≡ true

pick_syn : (o l : Option Ptr) → pick_socket o l true ≡ l
pick_syn none l = refl
pick_syn (some sock) l = refl

pub syn-to_socket :
    (layer : Tcp) (this : Ptr) (port : ℕ) (seg : Segment)
    → IsSyn seg port
    → find_socket layer.listen_sockets (listen_id port) ≡ some this
    → Tcp.process_packet layer seg ≡ to_socket this
unfolding Tcp.process_packet
syn-to_socket layer this port seg s bound =
    let o = find_socket layer.connected_sockets (connected_id seg) in
    let l = find_socket layer.listen_sockets (listen_id (swap16 seg.hdr.dest_port)) in
    rw (Tcp.process_packet, s.syn, pick_syn o l, s.to_port, bound) refl

pub listening-handles :
    (stack : Stack) (this new : Ptr) (l : Listening) (isn : ℕ) (seg : Segment)
    → (stack.sockets this).state ≡ TcpState.listen
    → (stack.sockets this).listening ≡ some l
    → process_packet stack this new isn seg ≡ returns (handle_listen_state stack this new l isn seg)
unfolding process_packet by_state
listening-handles stack this new l isn seg state listening =
    ap (λ st. by_state stack this new isn seg st (stack.sockets this).listening) state
    ∙ ap (λ li. by_state stack this new isn seg TcpState.listen li) listening

pub accept_connection-entry :
    (stack : Stack) (this new : Ptr) (l : Listening) (entry : SynCacheEntry) (seg : Segment)
    → find_syn l.syn_cache.entries (syn_id (stack.sockets this) seg) ≡ some entry
    → swap32 seg.hdr.seq ≡ (entry.remote_isn + 1) % 4294967296
    → swap32 seg.hdr.ack ≡ (entry.isn + 1) % 4294967296
    → full l.backlog ≡ false
    → accept_connection stack this new l seg ≡ establish stack this new l entry seg
unfolding accept_connection
accept_connection-entry stack this new l entry seg found seq ack room =
    let seq_ok = (==_iff _ _).1 seq in
    let ack_ok = (==_iff _ _).1 ack in rw (accept_connection, found, seq_ok, ack_ok, room) refl

-- What `establish` leaves when the segment holds no data.
abbrev pub established_stack :
    Stack → (this new : Ptr) → Listening → SynCacheEntry → Segment → Stack
established_stack stack this new l entry seg =
    let s = stack.sockets this in
    let id = syn_id s seg in
    let l' : Listening = record {
      syn_cache = record l.syn_cache { entries = remove_syn l.syn_cache.entries id };
      backlog = record l.backlog { messages = l.backlog.messages ++ (new ∷ []) };
    } in
    record {
      layer = (add_connected_socket stack.layer new id).1;
      sockets =
          update (update stack.sockets this (set_listening s l')) new
            (new_connection (stack.sockets new) s entry seg);
    }

pub establish-empty :
    (stack : Stack) (this new : Ptr) (l : Listening) (entry : SynCacheEntry) (seg : Segment)
    → ltb 0 (length seg.payload) ≡ false
    → establish stack this new l entry seg ≡ (established_stack stack this new l entry seg, [])
unfolding establish
establish-empty stack this new l entry seg empty = rw (establish, empty) refl
