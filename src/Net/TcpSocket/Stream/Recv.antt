-- ===== src/Net/TcpSocket/Stream/Recv.antt =====
-- `recv`: the bytes that come back are those of the queue, and the window opens by them.
use otrix.Prelude.{
  ==→ne, ℕ, zero, suc, ◌+◌, ◌-◌, ◌≤◌, ◌<◌, ◌≡◌, refl, sym, subst, ap, ◌∙◌, List, [], ◌∷◌, ◌++◌,
  length, take, drop, drop-drop, take-drop-length, drop-all, length-take, length-drop, append_assoc,
  append-nil, true, false, ◌||◌, ◌==◌, ==_iff, ltb, lt→ltb, Bool-cases, inl, inr, arith,
}
use otrix.Net.Tcp.{Segment, has_psh, has_fin}
use otrix.Net.TcpSocket.{Socket, close_wait, queued, take_segment}
use otrix.Net.TcpSocket.Window.{payload_bytes, WindowOk}
use otrix.Net.TcpSocket.Stream.{
  RecvEnd, returns_bytes, overruns, received, copied, removed, recv_step, recv_loop, receives, recv,
}
use otrix.Net.TcpSocket.Stream.Reads.{
  stream, OffsetOk, Ends, Advances, and_received-Ends, OffsetOk-zero, Reads-self,
}

module _ (s : Socket) (size : ℕ) (seg : Segment) (rest : List Segment) where
  abbrev left : List ℕ
  left = drop s.recv_skb_payload_offset seg.payload

  abbrev chunk : List ℕ
  chunk = take size left

  -- The segment at the head of the queue is read to its end, or up to the size that was asked for.
  record Reading : Type 0 where
    window : WindowOk s
    queue : s.recv_skb ≡ seg ∷ rest
    inside : s.recv_skb_payload_offset ≤ length seg.payload

  chunk-fits : Reading → s.recv_skb_payload_offset + length chunk ≤ length seg.payload
  chunk-fits r =
      omega
        (arith, r.inside, length-take size left, length-drop s.recv_skb_payload_offset seg.payload)

  used-enough : Reading → length chunk ≤ s.recv_window_used
  used-enough r =
      let total : payload_bytes s.recv_skb ≡ length seg.payload + payload_bytes rest =
        ap payload_bytes r.queue in
      omega (arith, chunk-fits r, r.window.accounted, total)

  copied-WindowOk : Reading → WindowOk (copied s (length chunk))
  copied-WindowOk r =
      let enough = used-enough r in
      let small = r.window.small in
      let within = r.window.within in
      record { accounted = omega (arith, r.window.accounted); within = omega arith; small = small }

  removed-WindowOk :
      Reading
      → s.recv_skb_payload_offset + length chunk ≡ length seg.payload
      → WindowOk (removed (copied s (length chunk)) rest)
  removed-WindowOk r end =
      let total : payload_bytes s.recv_skb ≡ length seg.payload + payload_bytes rest =
        ap payload_bytes r.queue in
      let w = copied-WindowOk r in
      record {
        accounted = omega (arith, w.accounted, total, end);
        within = w.within;
        small = w.small;
      }

  rejoined :
      chunk ++ stream (seg ∷ rest) (s.recv_skb_payload_offset + length chunk)
      ≡ stream (seg ∷ rest) s.recv_skb_payload_offset
  rejoined =
      let after : drop (s.recv_skb_payload_offset + length chunk) seg.payload
          ≡ drop (length chunk) left =
        sym (drop-drop s.recv_skb_payload_offset (length chunk) _ seg.payload refl) in
      sym (append_assoc chunk _ (stream rest 0))
      ∙ ap (λ bs. bs ++ stream rest 0) (ap (λ bs. chunk ++ bs) after ∙ take-drop-length size left)

  whole : Reading → s.recv_skb_payload_offset + length chunk ≡ length seg.payload → chunk ≡ left
  whole r end =
      let n = length-drop s.recv_skb_payload_offset seg.payload in
      let none_left : drop (length chunk) left ≡ [] = drop-all (length chunk) left (omega arith) in
      sym (append-nil chunk) ∙ ap (λ bs. chunk ++ bs) (sym none_left) ∙ take-drop-length size left

  copied-Advances : Reading → Advances s size chunk (copied s (length chunk))
  copied-Advances r =
      let enough = used-enough r in
      let small = r.window.small in
      let within = r.window.within in
      record {
        read =
            subst
              (λ l.
                chunk ++ stream l (s.recv_skb_payload_offset + length chunk)
                ≡ stream l s.recv_skb_payload_offset)
              (sym r.queue) rejoined;
        at_most = omega (arith, length-take size left);
        freed = omega arith;
      }

  removed-Advances :
      Reading
      → s.recv_skb_payload_offset + length chunk ≡ length seg.payload
      → Advances s size chunk (removed (copied s (length chunk)) rest)
  removed-Advances r end =
      let adv = copied-Advances r in
      record {
        read =
            subst (λ l. chunk ++ stream rest 0 ≡ stream l s.recv_skb_payload_offset) (sym r.queue)
              (ap (λ bs. bs ++ stream rest 0) (whole r end));
        at_most = adv.at_most;
        freed = adv.freed;
      }

  inside_test : Reading → ltb (length seg.payload) s.recv_skb_payload_offset ≡ false
  inside_test r = let inside = r.inside in ground arith

  -- What the loop does next on the socket that an iteration leaves, with less left to read.
  step-Ends :
      (again : Socket → ℕ → RecvEnd)
      → Reading
      → 0 < size
      → ((s' : Socket) (n : ℕ)
          → WindowOk s'
          → OffsetOk s'.recv_skb s'.recv_skb_payload_offset
          → n + length s'.recv_skb < size + length s.recv_skb
          → Ends s' n (again s' n))
      → Ends s size (recv_step again s size (seg ∷ rest))
  unfolding recv_step
  step-Ends again r some ih =
      elim (Bool-cases (s.recv_skb_payload_offset + length chunk == length seg.payload)) [
        | inr more ↦
            rw (recv_step, inside_test r, more)
              (and_received-Ends s (copied s (length chunk)) size chunk _ _ (copied-Advances r) (
                ih (copied s (length chunk)) (size - length chunk) (copied-WindowOk r)
                  (subst (λ l. OffsetOk l (s.recv_skb_payload_offset + length chunk)) (sym r.queue)
                    (chunk-fits r))
                  (omega (
                    arith,
                    chunk-fits r,
                    length-take size left,
                    length-drop s.recv_skb_payload_offset seg.payload,
                    ==→ne more,
                  ))))
        | inl end ↦
            let at_end =
              (==_iff (s.recv_skb_payload_offset + length chunk) (length seg.payload)).0 end in
            let s' = removed (copied s (length chunk)) rest in
            let shorter : length s.recv_skb ≡ suc (length rest) = ap length r.queue in
            elim (Bool-cases (has_psh seg.hdr || has_fin seg.hdr)) [
              | inl pushed ↦
                  rw (recv_step, inside_test r, end, pushed)
                    (and_received-Ends s s' size chunk _ (returns_bytes false (received s' [] []))
                      (removed-Advances r at_end)
                      (
                        refl,
                        Reads-self s' (size - length chunk) (removed-WindowOk r at_end)
                            (OffsetOk-zero rest),
                      ))
              | inr going ↦
                  rw (recv_step, inside_test r, end, going)
                    (and_received-Ends s s' size chunk _ _ (removed-Advances r at_end) (
                      ih s' (size - length chunk) (removed-WindowOk r at_end) (OffsetOk-zero rest)
                        (omega arith)))
            ]
      ]

recv_step-Ends :
    (s : Socket) (size : ℕ) (again : Socket → ℕ → RecvEnd) (l : List Segment)
    → s.recv_skb ≡ l
    → WindowOk s
    → OffsetOk l s.recv_skb_payload_offset
    → 0 < size
    → ((s' : Socket) (n : ℕ)
        → WindowOk s'
        → OffsetOk s'.recv_skb s'.recv_skb_payload_offset
        → n + length s'.recv_skb < size + length s.recv_skb
        → Ends s' n (again s' n))
    → Ends s size (recv_step again s size l)
unfolding recv_step
recv_step-Ends s size again [] at w o some ih =
    (some, at, Reads-self s size w (subst (λ l. OffsetOk l s.recv_skb_payload_offset) (sym at) o))
recv_step-Ends s size again (seg ∷ rest) at w o some ih =
    step-Ends s size seg rest again (record { window = w; queue = at; inside = o }) some ih

recv_loop-Ends :
    (fuel : ℕ) (s : Socket) (size : ℕ)
    → size + length s.recv_skb ≤ fuel
    → WindowOk s
    → OffsetOk s.recv_skb s.recv_skb_payload_offset
    → Ends s size (recv_loop fuel s size)
unfolding recv_loop
recv_loop-Ends fuel s zero enough w o = (refl, Reads-self s 0 w o)
recv_loop-Ends zero s (suc size) enough w o = absurd (omega arith)
recv_loop-Ends (suc fuel) s (suc size) enough w o =
    recv_step-Ends s (suc size) (recv_loop fuel) s.recv_skb refl w o (omega arith)
      (λ s' n w' o' less. recv_loop-Ends fuel s' n (omega arith) w' o')

-- On a socket that receives, with its window accounted for and its offset in the segment at the head of
-- the queue, `recv` returns with the mutex released, or waits with an empty queue and room left. The
-- bytes it read are the first of those that the queue held, at most as many as were asked for, and the
-- window opened by as many.
pub recv-Ends :
    (s : Socket) (size : ℕ)
    → receives s.state ≡ true
    → WindowOk s
    → OffsetOk s.recv_skb s.recv_skb_payload_offset
    → Ends s size (recv s size)
unfolding recv
recv-Ends s size able w o =
    rw (recv, able) (recv_loop-Ends (size + length s.recv_skb) s size (omega arith) w o)

-- After FIN, while bytes wait in the queue, `recv` returns none of them, and its mutex stays held.
pub recv-close_wait :
    (s : Socket) (size : ℕ)
    → s.state ≡ close_wait
    → recv s size ≡ returns_bytes true (received s [] [])
unfolding recv
recv-close_wait s size at =
    let shut : receives s.state ≡ false = ap receives at in rw (recv, shut) refl

recv_step-overruns :
    (s : Socket) (size : ℕ) (again : Socket → ℕ → RecvEnd) (seg : Segment) (rest : List Segment)
    → length seg.payload < s.recv_skb_payload_offset
    → recv_step again s size (seg ∷ rest) ≡ overruns (received s [] [])
unfolding recv_step
recv_step-overruns s size again seg rest over =
    let beyond : ltb (length seg.payload) s.recv_skb_payload_offset ≡ true = lt→ltb _ _ over in
    rw (recv_step, beyond) refl

-- When a segment is taken while the one at the head was read in part, to an offset beyond the length of
-- the new one, the next read of any size reads beyond the new payload.
pub recv-overruns :
    (s : Socket) (seg : Segment) (size : ℕ)
    → queued seg ≡ true
    → length seg.payload < s.recv_skb_payload_offset
    → recv_loop (suc size) (take_segment s seg) (suc size)
      ≡ overruns (received (take_segment s seg) [] [])
unfolding recv_loop take_segment
recv-overruns s seg size has over =
    let head : (take_segment s seg).recv_skb ≡ seg ∷ s.recv_skb = rw (take_segment, has) refl in
    ap (λ l. recv_step (recv_loop size) (take_segment s seg) (suc size) l) head
    ∙ recv_step-overruns (take_segment s seg) (suc size) (recv_loop size) seg s.recv_skb over
