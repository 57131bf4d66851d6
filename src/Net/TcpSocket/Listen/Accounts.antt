-- ===== src/Net/TcpSocket/Listen/Accounts.antt =====
-- The receive window of an accepted connection, from its first segment on.
use otrix.Prelude.{◌≡◌, refl, List, [], ◌∷◌, arith}
use otrix.Net.Tcp.{Segment}
use otrix.Net.TcpSocket.{
  TcpState, Socket, SynCacheEntry, established, close_wait, tcp_socket, handle_established_state,
  handle_close_wait_state,
}
use otrix.Net.TcpSocket.Listen.{new_connection}
use otrix.Net.TcpSocket.Window.{WindowOk, handlers-WindowOk}

-- What a segment makes of a connection, by the handler of its state.
abbrev pub handled_in : TcpState → Socket → Segment → Socket
handled_in established s seg = (handle_established_state s seg).0
handled_in close_wait s seg = (handle_close_wait_state s seg).0
handled_in _ s seg = s

abbrev pub after : Socket → List Segment → Socket
after s [] = s
after s (seg ∷ segs) = after (handled_in s.state s seg) segs

handled_in-WindowOk :
    (state : TcpState) (s : Socket) (seg : Segment) → WindowOk s → WindowOk (handled_in state s seg)
handled_in-WindowOk established s seg w = (handlers-WindowOk s seg w).0
handled_in-WindowOk close_wait s seg w = (handlers-WindowOk s seg w).1
handled_in-WindowOk _ s seg w = w

after-WindowOk : (s : Socket) (segs : List Segment) → WindowOk s → WindowOk (after s segs)
after-WindowOk s [] w = w
after-WindowOk s (seg ∷ segs) w =
    after-WindowOk (handled_in s.state s seg) segs (handled_in-WindowOk s.state s seg w)

-- A connection that was accepted with an ACK without data: whatever segments it then gets, in whatever
-- order, no more of its window is used than there is, and exactly the bytes in its queue are accounted.
pub new_connection-WindowOk :
    (memory s : Socket) (entry : SynCacheEntry) (ack : Segment) (segs : List Segment)
    → ack.payload ≡ []
    → WindowOk (after (new_connection memory s entry ack) segs)
unfolding new_connection tcp_socket
new_connection-WindowOk memory s entry ack segs empty =
    after-WindowOk (new_connection memory s entry ack) segs
      (record { accounted = rw empty refl; within = rw empty (omega arith); small = omega arith })
