-- ===== src/Dev/Virtio/Tests.antt =====
-- A virtqueue of four descriptors, and the theorems at it.
use otrix.Prelude.{◌≡◌, refl, [], ◌∷◌, arith, true, false, some, returns, if◌then◌else◌, ◌==◌}
use otrix.Error.{ok}
use otrix.Dev.Virtio.{
  Virtq, new_virtq, put_available, virtq_send_buffer, virtq_create, handle_vq_irq,
}
use otrix.Dev.Virtio.Chain.{IsValid}
use otrix.Dev.Virtio.Send.{notification, Sent, put_available-IsValid, virtq_send_buffer-IsValid}
use otrix.Dev.Virtio.Irq.{handle_vq_irq-IsValid}
use otrix.Dev.Virtio.Create.{created, new_virtq-IsValid, LaidOut, virtq_create-LaidOut}

abbrev fresh_queue : Virtq
fresh_queue = created 0 4 10000 77 88

fresh_queue-IsValid : IsValid fresh_queue (0 ∷ 1 ∷ 2 ∷ 3 ∷ []) []
fresh_queue-IsValid = new_virtq-IsValid 0 4 10000 77 88 (omega arith)

virtq_create-LaidOut_example :
    (q : Virtq) × ((virtq_create 0 4 9000 10000 (ok, 3) 77 88).0 ≡ ok)
    × ((virtq_create 0 4 9000 10000 (ok, 3) 77 88).1 ≡ some q)
    × IsValid q (0 ∷ 1 ∷ 2 ∷ 3 ∷ []) []
    × LaidOut 0 4 10000 77 88 q
virtq_create-LaidOut_example =
    virtq_create-LaidOut 0 4 10000 77 88 9000 (ok, 3) (omega arith) (omega arith) (omega arith)
      (omega arith)

virtq_send_buffer-IsValid_example :
    (q' : Virtq) × (virtq_send_buffer fresh_queue 500 60 false 600
      ≡ (ok, q', notification fresh_queue))
    × IsValid q' (1 ∷ 2 ∷ 3 ∷ []) (0 ∷ [])
    × Sent fresh_queue 500 60 false 600 q' 0
virtq_send_buffer-IsValid_example =
    virtq_send_buffer-IsValid fresh_queue 500 60 false 600 0 (1 ∷ 2 ∷ 3 ∷ []) [] fresh_queue-IsValid
      (omega arith) (omega arith)

-- Two buffers sent, and both used by the device, the second one first.
abbrev one_sent : Virtq
one_sent = put_available fresh_queue 500 60 false 600

abbrev two_sent : Virtq
two_sent = put_available one_sent 700 80 true 800

abbrev used : Virtq
used = record two_sent { used_ring = λ i. if i == 0 then 1 else 0; device_idx = 2 }

used-IsValid : IsValid used (2 ∷ 3 ∷ []) (1 ∷ 0 ∷ [])
used-IsValid = record {
  chain = v.chain;
  head_fits = v.head_fits;
  distinct_free = v.distinct_free;
  distinct_busy = v.distinct_busy;
  apart = v.apart;
  free_below = v.free_below;
  busy_below = v.busy_below;
  counts_free = v.counts_free;
  counts = v.counts;
  links_fit = v.links_fit;
  small = v.small;
}
  where
    v : IsValid two_sent (2 ∷ 3 ∷ []) (1 ∷ 0 ∷ [])
    v = put_available-IsValid one_sent 700 80 true 800 1 (2 ∷ 3 ∷ []) (0 ∷ []) (
        put_available-IsValid fresh_queue 500 60 false 600 0 (1 ∷ 2 ∷ 3 ∷ []) []
          fresh_queue-IsValid)

handle_vq_irq-IsValid_example :
    (q' : Virtq) × (handle_vq_irq 3 used []
      ≡ returns (
        q',
        record { data_ctx = 600; addr = 500; len = 60 }
            ∷ record { data_ctx = 800; addr = 700; len = 80 }
            ∷ [],
      ))
    × IsValid q' (0 ∷ 1 ∷ 2 ∷ 3 ∷ []) []
    × (q'.used_idx ≡ 2)
unfolding new_virtq put_available
handle_vq_irq-IsValid_example =
    handle_vq_irq-IsValid 3 used (2 ∷ 3 ∷ []) (1 ∷ 0 ∷ []) used-IsValid (omega arith) (omega arith)
      (omega arith) (refl, (refl, tt)) (omega arith)

-- All four descriptors at the device.
abbrev exhausted : Virtq
exhausted = put_available (put_available two_sent 500 60 false 600) 500 60 false 600

exhausted-IsValid : IsValid exhausted [] (3 ∷ 2 ∷ 1 ∷ 0 ∷ [])
exhausted-IsValid =
    put_available-IsValid (put_available two_sent 500 60 false 600) 500 60 false 600 3 []
      (2 ∷ 1 ∷ 0 ∷ [])
      (put_available-IsValid two_sent 500 60 false 600 2 (3 ∷ []) (1 ∷ 0 ∷ []) (
        put_available-IsValid one_sent 700 80 true 800 1 (2 ∷ 3 ∷ []) (0 ∷ []) (
          put_available-IsValid fresh_queue 500 60 false 600 0 (1 ∷ 2 ∷ 3 ∷ []) []
            fresh_queue-IsValid)))
