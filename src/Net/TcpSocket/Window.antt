-- ===== src/Net/TcpSocket/Window.antt =====
-- The receive window: what is accounted as used, and what segments announce.
use otrix.Prelude.{
  ℕ, ◌+◌, ◌-◌, ◌≤◌, ◌<◌, ◌≡◌, refl, List, [], ◌∷◌, length, ltb, if◌then◌else◌, Bool-cases, inl, inr,
  arith,
}
use otrix.Net.{swap16, swap32}
use otrix.Net.SockBuf.{sub64}
use otrix.Net.Tcp.{Segment, has_rst, has_ack}
use otrix.Net.TcpSocket.{
  Socket, queued, take_segment, handle_segment, handle_established_state, handle_close_wait_state,
  announced_window,
}

-- The bytes of the segments of a list.
abbrev pub payload_bytes : List Segment → ℕ
payload_bytes [] = 0
payload_bytes (seg ∷ segs) = length seg.payload + payload_bytes segs

-- What is used of the window is what the queue holds and was not read, and no more than the window.
pub record WindowOk (s : Socket) : Type 0 where
  pub accounted : s.recv_window_used + s.recv_skb_payload_offset ≡ payload_bytes s.recv_skb
  pub within : s.recv_window_used ≤ s.recv_window_size
  pub small : s.recv_window_size < 65536

-- A segment announces the room that is left in the window, with no wraparound.
pub announced_window-room :
    (s : Socket)
    → WindowOk s
    → swap16 (announced_window s) ≡ s.recv_window_size - s.recv_window_used
unfolding announced_window
announced_window-room s w = omega (arith, w.within, w.small)

payload_bytes-queued :
    (seg : Segment) (segs : List Segment)
    → payload_bytes (if queued seg then seg ∷ segs else segs)
      ≡ length seg.payload + payload_bytes segs
payload_bytes-queued seg segs = elim (Bool-cases (queued seg)) [
  | inl e ↦ rw e refl
  | inr e ↦ rw e (ground arith)
]

take_segment-WindowOk :
    (s : Socket) (seg : Segment)
    → WindowOk s
    → length seg.payload ≤ s.recv_window_size - s.recv_window_used
    → WindowOk (take_segment s seg)
unfolding take_segment
take_segment-WindowOk s seg w room = record {
  accounted = omega (arith, w.accounted, w.within, w.small, payload_bytes-queued seg s.recv_skb);
  within = omega (arith, w.within, w.small);
  small = w.small;
}

handle_segment-WindowOk :
    (s : Socket) (seg : Segment) → WindowOk s → WindowOk (handle_segment s seg).0
unfolding handle_segment
handle_segment-WindowOk s seg w = elim (Bool-cases (ltb (swap32 seg.hdr.seq) s.ack)) [
  | inl e ↦ rw (e, handle_segment) w
  | inr e ↦
      elim (Bool-cases (ltb (sub64 s.recv_window_size s.recv_window_used) (length seg.payload))) [
        | inl e' ↦ rw (e, e', handle_segment) w
        | inr e' ↦
            rw (e, e', handle_segment)
              (take_segment-WindowOk s seg w (ground (arith, w.within, w.small)))
      ]
]

-- When a connection's window is accounted for, a segment that reaches it, established or half closed,
-- leaves it so, whatever the segment holds.
pub handlers-WindowOk :
    (s : Socket) (seg : Segment)
    → WindowOk s
    → WindowOk (handle_established_state s seg).0 × WindowOk (handle_close_wait_state s seg).0
unfolding handle_established_state handle_close_wait_state
handlers-WindowOk s seg w = (
  elim (Bool-cases (has_ack seg.hdr)) [
    | inl e ↦ rw (e, handle_established_state) (handle_segment-WindowOk s seg w)
    | inr e ↦ rw (e, handle_established_state) w
  ],
  elim (Bool-cases (has_rst seg.hdr)) [
    | inl e ↦
        rw (e, handle_close_wait_state)
          (record { accounted = w.accounted; within = w.within; small = w.small })
    | inr e ↦ rw (e, handle_close_wait_state) (handle_segment-WindowOk s seg w)
  ],
)
