-- ===== src/Dev/VirtioNet/Buffers.antt =====
-- The buffers that the device has for packets to arrive in, and `num_rx_buffers_`, the count of them.
use otrix.Prelude.{
  ℕ, zero, suc, ◌+◌, ◌≤◌, ◌<◌, ◌≡◌, ◌≢◌, refl, sym, subst, ◌∙◌, List, [], ◌∷◌, length, arith, true,
  false, ltb, ne→==, Bool-cases, inl, inr, returns,
}
use otrix.IntrusiveList.{Ptr, null}
use otrix.IntrusiveList.Erase.{contains, erase}
use otrix.Net.SockBuf.{SockBuf, add64, sub64}
use otrix.Sync
use otrix.Dev.Virtio.{reclaim}
use otrix.Dev.Virtio.Chain.{IsValid}
use otrix.Dev.Virtio.Irq.{reclaim-IsValid, length-erase}
use otrix.Dev.Virtio.Send.{virtq_send_buffer-IsValid}
use otrix.Dev.VirtioNet.{
  Arrival, VirtioNet, refill, rx_handler, rx_queue_size, mtu, virtio_net_hdr_size,
}

-- The device has the descriptors `busy`, each with a buffer, and the driver counts them.
pub record Posted (net : VirtioNet) (free busy : List ℕ) : Type 0 where
  pub queue : IsValid net.rx_q free busy
  pub counted : net.num_rx_buffers ≡ length busy

-- The same device, but for its receive queue and the count.
pub record SameDevice (net net' : VirtioNet) : Type 0 where
  pub tx_q : net'.tx_q ≡ net.tx_q
  pub rx_handlers : net'.rx_handlers ≡ net.rx_handlers
  pub rx_packet_queue : net'.rx_packet_queue ≡ net.rx_packet_queue
  pub addr : net'.addr ≡ net.addr

-- With a receive queue of at least sixteen descriptors, when every allocation succeeds, and with as much
-- fuel as buffers are missing and one more, the refill ends with sixteen buffers at the device, counted.
pub refill-Posted :
    (fuel : ℕ) (net : VirtioNet) (alloc : ℕ → Ptr) (i : ℕ) (free busy : List ℕ)
    → Posted net free busy
    → length busy ≤ rx_queue_size
    → rx_queue_size ≤ length busy + length free
    → ((j : ℕ) → alloc j ≢ null)
    → rx_queue_size < length busy + fuel
    → (net' : VirtioNet) × (free' busy' : List ℕ) × (refill fuel net alloc i ≡ returns net')
      × Posted net' free' busy'
      × (length busy' ≡ rx_queue_size)
      × SameDevice net net'
unfolding refill
refill-Posted zero net alloc i free busy p few room live enough = absurd (omega arith)
refill-Posted (suc fuel) net alloc i [] busy p few room live enough =
    let done : ltb net.num_rx_buffers rx_queue_size ≡ false = ground (arith, p.counted) in
    (
      net,
      [],
      busy,
      rw done refl,
      p,
      omega arith,
      record { tx_q = refl; rx_handlers = refl; rx_packet_queue = refl; addr = refl },
    )
refill-Posted (suc fuel) net alloc i (x ∷ free) busy p few room live enough =
    elim (Bool-cases (ltb net.num_rx_buffers rx_queue_size)) [
      | inr full ↦ (
        net,
        x ∷ free,
        busy,
        rw full refl,
        p,
        ground (arith, p.counted),
        record { tx_q = refl; rx_handlers = refl; rx_packet_queue = refl; addr = refl },
      )
      | inl short ↦
          let (q, sent, valid, _) =
            virtq_send_buffer-IsValid net.rx_q (alloc i) (mtu + virtio_net_hdr_size) true null x
              free busy p.queue (live i) (λ e. absurd (omega arith)) in
          let net1 : VirtioNet = record net {
            rx_q = q;
            num_rx_buffers = add64 net.num_rx_buffers 1;
          } in
          let posted : Posted net1 free (x ∷ busy) = record {
            queue = valid;
            counted = omega (arith, p.counted, few);
          } in
          let (net', free', busy', calls, p', sixteen, same) =
            refill-Posted fuel net1 alloc (i + 1) free (x ∷ busy) posted (ground (arith, p.counted))
              (omega arith) live (omega arith) in
          (
            net',
            free',
            busy',
            rw (short, sent, calls) refl,
            p',
            sixteen,
            record {
              tx_q = same.tx_q;
              rx_handlers = same.rx_handlers;
              rx_packet_queue = same.rx_packet_queue;
              addr = same.addr;
            },
          )
    ]

-- The state when the interrupt handler of the queue has called `rx_handler` for the descriptor `d`, and
-- taken it back.
abbrev pub completed : VirtioNet → (Ptr → SockBuf) → ℕ → Ptr → VirtioNet
completed net sockbufs d skb =
    let after = (rx_handler net sockbufs (net.rx_q.desc_addr d) (net.rx_q.desc_len d) skb).net in
    record after { rx_q = reclaim after.rx_q d }

module _ (net : VirtioNet) (sockbufs : Ptr → SockBuf) (free busy : List ℕ) (d : ℕ) (skb : Ptr)
    (p : Posted net free busy) (mem : contains d busy ≡ true) where
  abbrev after : Arrival
  after = rx_handler net sockbufs (net.rx_q.desc_addr d) (net.rx_q.desc_len d) skb

  handler_takes :
      Sync.full net.rx_packet_queue ≡ false
      → skb ≢ null
      → (Sync.write net.rx_packet_queue skb).0 ≡ true
      → after.net ≡ record net {
        num_rx_buffers = sub64 net.num_rx_buffers 1;
        rx_packet_queue = (Sync.write net.rx_packet_queue skb).2;
      }
  unfolding rx_handler
  handler_takes room live taken = rw (room, ne→== live, taken) refl

  handler_drops : Sync.full net.rx_packet_queue ≡ true → (after.net ≡ net) × (after.freed ≡ [])
  unfolding rx_handler
  handler_drops full = rw full (refl, refl)

  -- The device used one of its buffers, and the queue of packets is not full and takes the packet: the
  -- count is again that of the buffers at the device, and the packet is queued.
  pub rx_handler-Posted :
      Sync.full net.rx_packet_queue ≡ false
      → skb ≢ null
      → (Sync.write net.rx_packet_queue skb).0 ≡ true
      → Posted (completed net sockbufs d skb) (d ∷ free) (erase d busy)
        × ((completed net sockbufs d skb).rx_packet_queue ≡ (Sync.write net.rx_packet_queue skb).2)
  rx_handler-Posted room live taken =
      let fewer = length-erase d busy mem in
      let fits = p.queue.small in
      let total = p.queue.counts in
      let q' = (Sync.write net.rx_packet_queue skb).2 in
      let one_less : sub64 net.num_rx_buffers 1 ≡ length (erase d busy) =
        omega (arith, fewer, p.counted, fits, total) in
      subst
        (λ n.
          Posted (record n { rx_q = reclaim n.rx_q d }) (d ∷ free) (erase d busy)
          × (n.rx_packet_queue ≡ q'))
        (sym (handler_takes room live taken))
        (
          record { queue = reclaim-IsValid net.rx_q free busy p.queue d mem; counted = one_less },
          refl,
        )

  -- The queue of packets is full: the packet is dropped and its buffer with it, which neither goes back to
  -- the device nor is counted as gone.
  pub rx_handler-dropped :
      Sync.full net.rx_packet_queue ≡ true
      → IsValid (completed net sockbufs d skb).rx_q (d ∷ free) (erase d busy)
        × ((completed net sockbufs d skb).num_rx_buffers ≡ suc (length (erase d busy)))
        × ((rx_handler net sockbufs (net.rx_q.desc_addr d) (net.rx_q.desc_len d) skb).freed ≡ [])
  rx_handler-dropped full =
      let (same, none_freed) = handler_drops full in
      subst
        (λ n.
          IsValid (reclaim n.rx_q d) (d ∷ free) (erase d busy)
          × (n.num_rx_buffers ≡ suc (length (erase d busy)))
          × (after.freed ≡ []))
        (sym same)
        (
          reclaim-IsValid net.rx_q free busy p.queue d mem,
          p.counted ∙ sym (length-erase d busy mem),
          none_freed,
        )
