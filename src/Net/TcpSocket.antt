-- ===== src/Net/TcpSocket.antt =====
-- net/tcp_socket.cpp and net/include/net/tcp_socket.hpp: a socket and the segments of its connection.
-- What the network layer answers to a segment that is sent while one is received is read by no caller
-- and is left out.
use otrix.Prelude.{
  ℕ, ◌+◌, ◌-◌, ◌%◌, List, [], ◌∷◌, ◌++◌, length, Bool, true, false, ◌&&◌, ◌||◌, ◌==◌, ltb,
  if◌then◌else◌, Option, none,
}
use otrix.IntrusiveList.{Ptr}
use otrix.Net.{swap16, swap32}
use otrix.Net.SockBuf.{add64, sub64}
use otrix.Net.Tcp.{
  TcpHeader, Segment, Outgoing, has_fin, has_rst, has_psh, has_ack, flag_ack, flag_rst, flag_syn,
  header_len_field, SocketId,
}
pub mod Listen
pub mod Window
pub mod Stream
mod Tests

-- `tcp_state`
pub data TcpState : Type 0 where
  closed listen syn_sent syn_received established fin_wait1 fin_wait2 close_wait closing last_ack
        time_wait :
      TcpState

-- `syn_cache_entry`
pub record SynCacheEntry : Type 0 where
  pub isn : ℕ
  pub remote_isn : ℕ

-- `syn_cache_`, as the theorems on `HashMap.Pooled` show such a table: at most `pool_size` entries.
pub record SynCache : Type 0 where
  pub pool_size : ℕ
  pub entries : List (SocketId × SynCacheEntry)

-- `listen_backlog_`: at most `size` messages, the oldest first.
pub record Backlog : Type 0 where
  pub size : ℕ
  pub messages : List Ptr

-- `listen` creates the two together.
pub record Listening : Type 0 where
  pub syn_cache : SynCache
  pub backlog : Backlog

-- `tcp_socket` with the members it has from `socket`. `recv_skb` is in the order of the list.
pub record Socket : Type 0 where
  pub port : ℕ
  pub remote_addr : ℕ
  pub remote_port : ℕ
  pub state : TcpState
  pub listening : Option Listening
  pub seq : ℕ
  pub ack : ℕ
  pub recv_window_size : ℕ
  pub recv_window_used : ℕ
  pub recv_skb : List Segment
  pub recv_skb_payload_offset : ℕ
  pub remote_window_size : ℕ

-- `INVALID_PORT`, `TCP_MSS` and `TCP_INITIAL_WINDOW_SIZE`
abbrev pub invalid_port : ℕ
invalid_port = 4294967295

abbrev pub tcp_mss : ℕ
tcp_mss = 1460

abbrev pub tcp_initial_window_size : ℕ
tcp_initial_window_size = 29200

-- The constructor: `memory` is what the object held, of which it leaves what it does not write.
unfoldable pub tcp_socket : Socket → Socket
tcp_socket memory = record memory {
  port = invalid_port;
  state = closed;
  listening = none;
  seq = 0;
  ack = 0;
  recv_window_size = 0;
  recv_window_used = 0;
  recv_skb = [];
  recv_skb_payload_offset = 0;
}

-- What a handler does outside the socket: a segment that is sent, its checksum still 0, and the
-- notifications of the wait queues.
pub data Action : Type 0 where
  sends : Outgoing → Action
  notify_recv notify_send notify_all_send : Action

-- The window that a segment announces.
unfoldable pub announced_window : Socket → ℕ
announced_window s = swap16 (sub64 s.recv_window_size s.recv_window_used % 65536)

-- `send_packet`
unfoldable pub send_packet : Socket → ℕ → Outgoing
unfolding announced_window
send_packet s flags = record {
  header = record {
    source_port = swap16 (s.port % 65536);
    dest_port = swap16 s.remote_port;
    seq = swap32 s.seq;
    ack = swap32 s.ack;
    header_len = header_len_field;
    flags = flags;
    window_size = announced_window s;
    csum = 0;
    urp = 0;
  };
  remote = s.remote_addr;
  data_bytes = [];
}

-- `send_syn_ack`
unfoldable pub send_syn_ack : Segment → ℕ → Outgoing
send_syn_ack reply_to isn = record {
  header = record {
    source_port = reply_to.hdr.dest_port;
    dest_port = reply_to.hdr.source_port;
    seq = swap32 isn;
    ack = swap32 ((swap32 reply_to.hdr.seq + length reply_to.payload + 1) % 4294967296);
    header_len = header_len_field;
    flags = flag_syn + flag_ack;
    window_size = swap16 tcp_initial_window_size;
    csum = 0;
    urp = 0;
  };
  remote = swap32 reply_to.saddr;
  data_bytes = [];
}

-- Whether `handle_segment` keeps the segment's buffer.
abbrev pub queued : Segment → Bool
queued seg = ltb 0 (length seg.payload) || has_fin seg.hdr

-- The members that `handle_segment` writes for a segment that it takes.
unfoldable pub take_segment : Socket → Segment → Socket
take_segment s seg = record s {
  recv_window_used = add64 s.recv_window_used (length seg.payload);
  ack = (s.ack + length seg.payload) % 4294967296;
  state = if has_fin seg.hdr then close_wait else s.state;
  remote_window_size = swap16 seg.hdr.window_size;
  recv_skb = if queued seg then seg ∷ s.recv_skb else s.recv_skb;
}

-- `handle_segment`
unfoldable pub handle_segment : Socket → Segment → Socket × List Action
unfolding take_segment
handle_segment s seg =
    if ltb (swap32 seg.hdr.seq) s.ack
      || ltb (sub64 s.recv_window_size s.recv_window_used) (length seg.payload)
    then (s, sends (send_packet s flag_ack) ∷ [])
    else (let taken = take_segment s seg in
        (
          taken,
          (if ltb s.remote_window_size (swap16 seg.hdr.window_size) then notify_send ∷ [] else [])
              ++ (if queued seg then notify_recv ∷ [] else [])
              ++ (if has_psh seg.hdr || (s.recv_window_size == 0) || has_fin seg.hdr
                  then sends (send_packet taken flag_ack) ∷ []
                  else []),
        ))

-- `handle_established_state`
unfoldable pub handle_established_state : Socket → Segment → Socket × List Action
unfolding handle_segment
handle_established_state s seg =
    if has_ack seg.hdr then handle_segment s seg else (s, sends (send_packet s flag_rst) ∷ [])

-- `handle_close_wait_state`
unfoldable pub handle_close_wait_state : Socket → Segment → Socket × List Action
unfolding handle_segment
handle_close_wait_state s seg =
    if has_rst seg.hdr
    then (record s { state = closed }, notify_all_send ∷ [])
    else handle_segment s seg
