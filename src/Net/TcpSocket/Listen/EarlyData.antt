-- ===== src/Net/TcpSocket/Listen/EarlyData.antt =====
-- `accept_connection` on an ACK that carries data: the receive window of the new connection.
use otrix.Prelude.{
  ◌+◌, ◌≤◌, ◌<◌, ◌≡◌, refl, ap, ◌∙◌, [], ◌∷◌, length, true, false, ==_self, ltb, lt→ltb, arith,
}
use otrix.IntrusiveList.{Ptr}
use otrix.Net.{swap32}
use otrix.Net.SockBuf.{sub64}
use otrix.Net.Tcp.{Segment}
use otrix.Net.TcpSocket.{Socket, SynCacheEntry, Listening, tcp_socket, take_segment, handle_segment}
use otrix.Net.TcpSocket.Listen.{Stack, new_connection, establish}

module _ (memory s : Socket) (entry : SynCacheEntry) (seg : Segment) where
  abbrev made : Socket
  made = new_connection memory s entry seg

  made-takes :
      length seg.payload + length seg.payload ≤ 29200
      → (handle_segment made seg).0 ≡ take_segment made seg
  unfolding handle_segment new_connection tcp_socket
  made-takes small =
      let not_older : ltb (swap32 seg.hdr.seq) made.ack ≡ false = ground arith in
      let room : ltb (sub64 made.recv_window_size made.recv_window_used) (length seg.payload)
          ≡ false =
        ground arith in
      rw (handle_segment, not_older, room) refl

  made-used :
      0 < length seg.payload
      → length seg.payload + length seg.payload ≤ 29200
      → ((take_segment made seg).recv_window_used ≡ length seg.payload + length seg.payload)
        × ((take_segment made seg).recv_skb ≡ seg ∷ [])
  unfolding take_segment new_connection tcp_socket
  made-used some small =
      let has : ltb 0 (length seg.payload) ≡ true = lt→ltb _ _ some in (omega arith, rw (has) refl)

-- When the ACK that completes a handshake carries data, and twice its size is within the window, the
-- new connection has the segment in its queue once, and its bytes twice in what is used of the window.
pub establish-used :
    (stack : Stack) (this new : Ptr) (l : Listening) (entry : SynCacheEntry) (seg : Segment)
    → 0 < length seg.payload
    → length seg.payload + length seg.payload ≤ 29200
    → (((establish stack this new l entry seg).0.sockets new).recv_window_used
        ≡ length seg.payload + length seg.payload)
      × (((establish stack this new l entry seg).0.sockets new).recv_skb ≡ seg ∷ [])
unfolding establish
establish-used stack this new l entry seg some small =
    let has : ltb 0 (length seg.payload) ≡ true = lt→ltb _ _ some in
    let s = stack.sockets this in
    let memory = stack.sockets new in
    let takes = made-takes memory s entry seg small in
    let used = made-used memory s entry seg some small in
    rw (establish, has, ==_self new)
      (ap (λ q. q.recv_window_used) takes ∙ used.0, ap (λ q. q.recv_skb) takes ∙ used.1)
