-- ===== src/Net/TcpSocket/Stream/Send.antt =====
-- `send`: the data in segments, the window, and the waits.
use otrix.Prelude.{
  ℕ, zero, suc, ◌+◌, ◌-◌, ◌/◌, ◌%◌, ◌≤◌, ◌<◌, ◌≡◌, refl, sym, subst, ap, List, [], ◌∷◌, ◌++◌,
  length, take, drop, min, take-drop, length-take, length-drop, Bool, true, false, ◌==◌, ltb,
  if◌then◌else◌, arith,
}
use otrix.Error.{Kerror}
use otrix.Net.{swap32}
use otrix.Net.Tcp.{Outgoing, has_psh, flag_ack, flag_psh}
use otrix.Net.TcpSocket.{Socket, closed, tcp_mss}
use otrix.Net.TcpSocket.Stream.{
  ready, blocked, broken, is_closed, wait_window, reserve, data_segment, Sent, stop, and_segment,
  is_ok, send_loop, send,
}

-- Segments that carry the data in order from the sequence number `n`, each with at most TCP_MSS bytes,
-- the last one with PSH and the others without.
abbrev pub Splits : ℕ → List ℕ → List Outgoing → Type 0
Splits n bytes [] = bytes ≡ []
Splits n bytes (out ∷ outs) =
    (rest : List ℕ) × (bytes ≡ out.data_bytes ++ rest)
    × (length out.data_bytes ≤ tcp_mss)
    × (out.header.seq ≡ swap32 n)
    × (has_psh out.header ≡ (length rest == 0))
    × Splits ((n + length out.data_bytes) % 4294967296) rest outs

wait_window-ready :
    (wakes : List Socket) (s : Socket) (n : ℕ)
    → n ≤ s.remote_window_size
    → wait_window wakes s n ≡ ready s wakes
unfolding wait_window
wait_window-ready [] s n enough =
    let open_window : ltb s.remote_window_size n ≡ false = ground arith in
    rw (wait_window, open_window) refl
wait_window-ready (found ∷ wakes) s n enough =
    let open_window : ltb s.remote_window_size n ≡ false = ground arith in
    rw (wait_window, open_window) refl

psh_of : (b : Bool) → ((flag_ack + (if b then flag_psh else 0)) / 8 % 2 == 1) ≡ b
psh_of true = refl
psh_of false = refl

data_segment-seq :
    (s : Socket) (bytes : List ℕ) (is_last : Bool)
    → s.seq < 4294967296
    → length bytes ≤ tcp_mss
    → ((data_segment (reserve s (length bytes)) bytes is_last).header.seq ≡ swap32 s.seq)
      × (has_psh (data_segment (reserve s (length bytes)) bytes is_last).header ≡ is_last)
unfolding data_segment
data_segment-seq s bytes is_last fits short =
    let back : ((s.seq + length bytes) % 4294967296 + 4294967296 - length bytes) % 4294967296
        ≡ s.seq =
      omega arith in
    (rw back refl, psh_of is_last)

-- What `send` does when the window holds all of the data.
pub record SentAll (s : Socket) (bytes : List ℕ) (sent : ℕ) (r : Sent) : Type 0 where
  pub returned : r.returned ≡ true
  pub count : r.count ≡ sent + length bytes
  pub splits : Splits s.seq bytes r.segments
  pub next : r.socket.seq ≡ (s.seq + length bytes) % 4294967296
  pub window : r.socket.remote_window_size ≡ s.remote_window_size - length bytes

send_loop-more :
    (fuel : ℕ) (write : Outgoing → Kerror) (wakes : List Socket) (s : Socket) (b : ℕ) (bs : List ℕ)
    (sent : ℕ)
    → length (take tcp_mss (b ∷ bs)) ≤ s.remote_window_size
    → ((out : Outgoing) → is_ok (write out) ≡ true)
    → send_loop (suc fuel) write wakes s (b ∷ bs) sent ≡ (
        let chunk = take tcp_mss (b ∷ bs) in
        let rest = drop tcp_mss (b ∷ bs) in
        let reserved = reserve s (length chunk) in
        and_segment
          (data_segment reserved chunk (length rest == 0))
          (send_loop fuel write wakes reserved rest (sent + length chunk)))
unfolding send_loop
send_loop-more fuel write wakes s b bs sent enough accepts =
    let chunk = take tcp_mss (b ∷ bs) in
    let out = data_segment (reserve s (length chunk)) chunk (length (drop tcp_mss (b ∷ bs)) == 0) in
    rw (send_loop, wait_window-ready wakes s (length chunk) enough, accepts out) refl

send_loop-SentAll :
    (fuel : ℕ) (write : Outgoing → Kerror) (wakes : List Socket) (s : Socket) (bytes : List ℕ)
    (sent : ℕ)
    → length bytes ≤ fuel
    → length bytes ≤ s.remote_window_size
    → s.remote_window_size < 18446744073709551616
    → s.seq < 4294967296
    → ((out : Outgoing) → is_ok (write out) ≡ true)
    → SentAll s bytes sent (send_loop fuel write wakes s bytes sent)
unfolding send_loop data_segment
send_loop-SentAll fuel write wakes s [] sent enough room small fits accepts = record {
  returned = refl;
  count = omega arith;
  splits = refl;
  next = omega arith;
  window = omega arith;
}
send_loop-SentAll zero write wakes s (b ∷ bs) sent enough room small fits accepts =
    absurd (omega arith)
send_loop-SentAll (suc fuel) write wakes s (b ∷ bs) sent enough room small fits accepts =
    let chunk = take tcp_mss (b ∷ bs) in
    let rest = drop tcp_mss (b ∷ bs) in
    let n = length-take tcp_mss (b ∷ bs) in
    let m = length-drop tcp_mss (b ∷ bs) in
    let step = send_loop-more fuel write wakes s b bs sent (omega arith) accepts in
    let further =
      send_loop-SentAll fuel write wakes (reserve s (length chunk)) rest (sent + length chunk)
        (omega arith) (omega arith) (omega arith) (omega arith) accepts in
    let seg = data_segment-seq s chunk (length rest == 0) fits (omega arith) in
    subst (λ r. SentAll s (b ∷ bs) sent r) (sym step)
      (record {
        returned = further.returned;
        count = omega (arith, further.count);
        splits =
            (rest, sym (take-drop tcp_mss (b ∷ bs)), omega arith, seg.0, seg.1, further.splits);
        next = omega (arith, further.next);
        window = omega (arith, further.window);
      })

-- When the peer's window holds all of the data and the network layer takes every segment, `send` does
-- not wait and returns the size of the data: it was sent in order in segments of at most TCP_MSS bytes
-- with consecutive sequence numbers, PSH in the last alone, and the window shrank by it.
pub send-SentAll :
    (write : Outgoing → Kerror) (wakes : List Socket) (s : Socket) (bytes : List ℕ)
    → length bytes ≤ s.remote_window_size
    → s.remote_window_size < 18446744073709551616
    → s.seq < 4294967296
    → ((out : Outgoing) → is_ok (write out) ≡ true)
    → SentAll s bytes 0 (send write wakes s bytes)
unfolding send
send-SentAll write wakes s bytes room small fits accepts =
    send_loop-SentAll (length bytes) write wakes s bytes 0 (omega arith) room small fits accepts

-- A call of `send` with data, on a socket whose peer's window is smaller than the first segment would
-- be, sends nothing and waits, also when a part of the data would fit; it waits for ever when nothing wakes it.
-- When it is woken and finds the connection closed by the peer, it returns 0.
pub send-small_window :
    (write : Outgoing → Kerror) (found : Socket) (wakes : List Socket) (s : Socket) (b : ℕ)
    (bs : List ℕ)
    → s.remote_window_size < min tcp_mss (length (b ∷ bs))
    → found.state ≡ closed
    → (send write [] s (b ∷ bs) ≡ stop false 0 s)
      × (send write (found ∷ wakes) s (b ∷ bs) ≡ stop true 0 found)
unfolding send
send-small_window write found wakes s b bs small gone =
    let chunk = take tcp_mss (b ∷ bs) in
    let n = length-take tcp_mss (b ∷ bs) in
    let shut : ltb s.remote_window_size (length chunk) ≡ true = ground arith in
    let wait : wait_window [] s (length chunk) ≡ blocked s = rw (wait_window, shut) refl in
    let woken : wait_window (found ∷ wakes) s (length chunk) ≡ broken found =
      (let closed_now : is_closed found.state ≡ true = ap is_closed gone in
        rw (wait_window, shut, closed_now) refl) in
    (rw (send, send_loop, wait) refl, rw (send, send_loop, woken) refl)
