-- ===== src/Net/TcpSocket/Stream/Reads.antt =====
-- What a call of `recv` may have read, and how iterations of its loop add up.
use otrix.Prelude.{
  ℕ, ◌+◌, ◌-◌, ◌≤◌, ◌<◌, ◌≡◌, refl, ap, ◌∙◌, List, [], ◌∷◌, ◌++◌, length, drop, length-append,
  append_assoc, false, arith,
}
use otrix.Net.Tcp.{Segment}
use otrix.Net.TcpSocket.{Socket, Action}
use otrix.Net.TcpSocket.Window.{WindowOk}
use otrix.Net.TcpSocket.Stream.{
  Received, RecvEnd, returns_bytes, waits, overruns, unfinished, received, and_received,
}

-- The bytes that the queue holds, from the one at `recv_skb_payload_offset` on.
abbrev pub stream : List Segment → ℕ → List ℕ
stream [] offset = []
stream (seg ∷ segs) offset = drop offset seg.payload ++ stream segs 0

-- The offset is in the segment at the head; a payload is smaller than the address space.
abbrev pub OffsetOk : List Segment → ℕ → Type 0
OffsetOk [] offset = offset ≡ 0
OffsetOk (seg ∷ segs) offset = offset ≤ length seg.payload

-- A call that ends without an overrun and within its fuel, with the bytes `r.bytes`.
pub record Reads (s : Socket) (size : ℕ) (r : Received) : Type 0 where
  pub bytes :
      r.bytes ++ stream r.socket.recv_skb r.socket.recv_skb_payload_offset
      ≡ stream s.recv_skb s.recv_skb_payload_offset
  pub at_most : length r.bytes ≤ size
  pub window : WindowOk r.socket
  pub offset : OffsetOk r.socket.recv_skb r.socket.recv_skb_payload_offset
  pub freed : r.socket.recv_window_used + length r.bytes ≡ s.recv_window_used

abbrev pub Ends : Socket → ℕ → RecvEnd → Type 0
Ends s size (returns_bytes held r) = (held ≡ false) × Reads s size r
Ends s size (waits r) = (length r.bytes < size) × (r.socket.recv_skb ≡ []) × Reads s size r
Ends s size _ = ⊥

-- Reading `bytes` from the head of the queue.
pub record Advances (s : Socket) (size : ℕ) (bytes : List ℕ) (s' : Socket) : Type 0 where
  pub read :
      bytes ++ stream s'.recv_skb s'.recv_skb_payload_offset
      ≡ stream s.recv_skb s.recv_skb_payload_offset
  pub at_most : length bytes ≤ size
  pub freed : s'.recv_window_used + length bytes ≡ s.recv_window_used

Reads-append :
    (s s' : Socket) (size : ℕ) (bytes : List ℕ) (actions : List Action) (r : Received)
    → Advances s size bytes s'
    → Reads s' (size - length bytes) r
    → Reads s size (received r.socket (bytes ++ r.bytes) (actions ++ r.actions))
Reads-append s s' size bytes actions r adv h = record {
  bytes = append_assoc bytes r.bytes _ ∙ ap (λ bs. bytes ++ bs) h.bytes ∙ adv.read;
  at_most = omega (arith, length-append bytes r.bytes, h.at_most, adv.at_most);
  window = h.window;
  offset = h.offset;
  freed = omega (arith, length-append bytes r.bytes, h.freed, adv.freed);
}

pub and_received-Ends :
    (s s' : Socket) (size : ℕ) (bytes : List ℕ) (actions : List Action) (e : RecvEnd)
    → Advances s size bytes s'
    → Ends s' (size - length bytes) e
    → Ends s size (and_received bytes actions e)
and_received-Ends s s' size bytes actions (returns_bytes held r) adv h =
    (h.0, Reads-append s s' size bytes actions r adv h.1)
and_received-Ends s s' size bytes actions (waits r) adv h = (
  omega (arith, length-append bytes r.bytes, adv.at_most, h.0),
  h.1,
  Reads-append s s' size bytes actions r adv h.2,
)
and_received-Ends s s' size bytes actions (overruns r) adv h = absurd h
and_received-Ends s s' size bytes actions (unfinished r) adv h = absurd h

pub OffsetOk-zero : (l : List Segment) → OffsetOk l 0
OffsetOk-zero [] = refl
OffsetOk-zero (seg ∷ segs) = omega arith

-- Nothing read.
pub Reads-self :
    (s : Socket) (size : ℕ)
    → WindowOk s
    → OffsetOk s.recv_skb s.recv_skb_payload_offset
    → Reads s size (received s [] [])
Reads-self s size w o = record {
  bytes = refl;
  at_most = omega arith;
  window = w;
  offset = o;
  freed = omega arith;
}
