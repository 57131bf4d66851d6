-- ===== src/Net/TcpSocket/Stream.antt =====
-- net/tcp_socket.cpp: `send` and `recv`, what the application calls. What the other contexts do while a
-- call waits is a list: the socket as each wait finds it. A call that waits when the list is used up
-- waits for ever. Of the two mutexes only whether `recv` leaves its own held is kept.
use otrix.Prelude.{
  ℕ, zero, suc, ◌+◌, ◌-◌, ◌%◌, List, [], ◌∷◌, ◌++◌, length, take, drop, min, Bool, true, false,
  ◌&&◌, ◌||◌, ◌==◌, ltb, if◌then◌else◌,
}
use otrix.Error.{Kerror, ok, pipe}
use otrix.Net.{swap16, swap32}
use otrix.Net.SockBuf.{add64, sub64}
use otrix.Net.Tcp.{Segment, Outgoing, has_psh, has_fin, flag_ack, flag_psh, header_len_field}
use otrix.Net.TcpSocket.{
  Socket, TcpState, closed, established, syn_sent, syn_received, tcp_mss, Action, sends,
  announced_window, send_packet,
}
pub mod Send
pub mod Reads
pub mod Recv

-- The wait of `send_segment` for a window of `n` bytes.
pub data Waited : Type 0 where
  ready : Socket → List Socket → Waited
  broken : Socket → Waited
  blocked : Socket → Waited

abbrev is_closed : TcpState → Bool
is_closed closed = true
is_closed _ = false

unfoldable pub wait_window : List Socket → Socket → ℕ → Waited
wait_window [] s n = if ltb s.remote_window_size n then blocked s else ready s []
wait_window (found ∷ wakes) s n =
    let again = wait_window wakes found n in
    if ltb s.remote_window_size n
    then (if is_closed found.state then broken found else again)
    else ready s (found ∷ wakes)

-- What `send_segment` writes to the socket, and the segment that it then sends.
abbrev pub reserve : Socket → ℕ → Socket
reserve s n = record s {
  seq = (s.seq + n) % 4294967296;
  remote_window_size = sub64 s.remote_window_size n;
}

unfoldable pub data_segment : Socket → List ℕ → Bool → Outgoing
unfolding announced_window
data_segment s bytes is_last = record {
  header = record {
    source_port = swap16 (s.port % 65536);
    dest_port = swap16 s.remote_port;
    seq = swap32 ((s.seq + 4294967296 - length bytes) % 4294967296);
    ack = swap32 s.ack;
    header_len = header_len_field;
    flags = flag_ack + (if is_last then flag_psh else 0);
    window_size = announced_window s;
    csum = 0;
    urp = 0;
  };
  remote = s.remote_addr;
  data_bytes = bytes;
}

-- How `send` ends: with the count that it returns, or not (it waits, or the fuel is used up), and with
-- the segments that were sent.
pub record Sent : Type 0 where
  pub returned : Bool
  pub count : ℕ
  pub socket : Socket
  pub segments : List Outgoing

abbrev pub stop : Bool → ℕ → Socket → Sent
stop returned count s = record { returned = returned; count = count; socket = s; segments = [] }

abbrev pub and_segment : Outgoing → Sent → Sent
and_segment out sent = record sent { segments = out ∷ sent.segments }

abbrev pub is_ok : Kerror → Bool
is_ok ok = true
is_ok _ = false

-- What is returned when `send_segment` fails: `E_PIPE` takes the count back, from wherever it comes.
abbrev pub count_on : Kerror → ℕ → ℕ
count_on pipe sent = 0
count_on _ sent = sent

-- The loop of `send`; `write` is what the network layer answers to a segment.
unfoldable pub send_loop : ℕ → (Outgoing → Kerror) → List Socket → Socket → List ℕ → ℕ → Sent
unfolding wait_window data_segment
send_loop fuel write wakes s [] sent = stop true sent s
send_loop zero write wakes s (b ∷ bs) sent = stop false sent s
send_loop (suc fuel) write wakes s (b ∷ bs) sent =
    let chunk = take tcp_mss (b ∷ bs) in
    let rest = drop tcp_mss (b ∷ bs) in
    elim (wait_window wakes s (length chunk)) [
      | blocked s' ↦ stop false sent s'
      | broken s' ↦ stop true 0 s'
      | ready s' wakes' ↦
          let reserved = reserve s' (length chunk) in
          let out = data_segment reserved chunk (length rest == 0) in
          let further = send_loop fuel write wakes' reserved rest (sent + length chunk) in
          and_segment out
            (if is_ok (write out) then further else stop true (count_on (write out) sent) reserved)
    ]

unfoldable pub send : (Outgoing → Kerror) → List Socket → Socket → List ℕ → Sent
unfolding send_loop
send write wakes s bytes = send_loop (length bytes) write wakes s bytes 0

-- How `recv` ends: returned with the bytes, the mutex held or not; waiting, with the bytes copied so
-- far; reading beyond a payload; or with the fuel used up.
pub record Received : Type 0 where
  pub socket : Socket
  pub bytes : List ℕ
  pub actions : List Action

pub data RecvEnd : Type 0 where
  returns_bytes : (mutex_held : Bool) → Received → RecvEnd
  waits overruns unfinished : Received → RecvEnd

abbrev pub received : Socket → List ℕ → List Action → Received
received s bytes actions = record { socket = s; bytes = bytes; actions = actions }

-- The part of an iteration up to the removal of the segment, which is at the head of the queue.
abbrev pub copied : Socket → ℕ → Socket
copied s n = record s {
  recv_skb_payload_offset = s.recv_skb_payload_offset + n;
  recv_window_used = sub64 s.recv_window_used n;
}

abbrev pub removed : Socket → List Segment → Socket
removed s rest = record s { recv_skb = rest; recv_skb_payload_offset = 0 }

abbrev pub and_received : List ℕ → List Action → RecvEnd → RecvEnd
and_received bytes actions (returns_bytes held r) =
    returns_bytes held (received r.socket (bytes ++ r.bytes) (actions ++ r.actions))
and_received bytes actions (waits r) =
    waits (received r.socket (bytes ++ r.bytes) (actions ++ r.actions))
and_received bytes actions (overruns r) =
    overruns (received r.socket (bytes ++ r.bytes) (actions ++ r.actions))
and_received bytes actions (unfinished r) =
    unfinished (received r.socket (bytes ++ r.bytes) (actions ++ r.actions))

-- An iteration of the loop of `recv` with `room` bytes left to fill, and what comes after it. It waits
-- when the queue is empty, and a later call goes on.
unfoldable pub recv_step : (Socket → ℕ → RecvEnd) → Socket → (room : ℕ) → List Segment → RecvEnd
unfolding send_packet
recv_step again s room [] = waits (received s [] [])
recv_step again s room (seg ∷ rest) =
    let left = drop s.recv_skb_payload_offset seg.payload in
    let bytes = take room left in
    let s' = copied s (length bytes) in
    let at_end = s'.recv_skb_payload_offset == length seg.payload in
    let s'' = if at_end then removed s' rest else s' in
    let ack : List Action =
      if s.recv_window_used == s.recv_window_size
      then sends (send_packet s'' flag_ack) ∷ []
      else [] in
    if ltb (length seg.payload) s.recv_skb_payload_offset
    then overruns (received s [] [])
    else and_received bytes ack (
        if at_end && (has_psh seg.hdr || has_fin seg.hdr)
        then returns_bytes false (received s'' [] [])
        else again s'' (room - length bytes))

-- The loop of `recv`.
unfoldable pub recv_loop : ℕ → Socket → ℕ → RecvEnd
unfolding recv_step
recv_loop fuel s zero = returns_bytes false (received s [] [])
recv_loop zero s (suc room) = unfinished (received s [] [])
recv_loop (suc fuel) s (suc room) = recv_step (recv_loop fuel) s (suc room) s.recv_skb

abbrev pub receives : TcpState → Bool
receives established = true
receives syn_sent = true
receives syn_received = true
receives _ = false

unfoldable pub recv : Socket → ℕ → RecvEnd
unfolding recv_loop
recv s size =
    if receives s.state
    then recv_loop (size + length s.recv_skb) s size
    else returns_bytes true (received s [] [])
