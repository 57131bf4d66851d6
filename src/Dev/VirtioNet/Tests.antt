-- ===== src/Dev/VirtioNet/Tests.antt =====
-- Runs of the network device, and the theorems at concrete states.
use otrix.Prelude.{ℕ, ◌+◌, ◌-◌, ◌≡◌, refl, ap, List, [], ◌∷◌, arith, true, inl, returns}
use otrix.IntrusiveList.{null}
use otrix.Net.SockBuf.{SockBuf, IsValid, receive}
use otrix.Sync
use otrix.Dev.Virtio.{Virtq, put_available}
use otrix.Dev.Virtio.Send.{put_available-IsValid}
use otrix.Dev.Virtio.Create.{created, new_virtq-IsValid}
use otrix.Dev.VirtioNet.{
  Bytes, VirtioNet, L3Handler, write, negotiate_features, receive_packet, deliver,
}
use otrix.Dev.VirtioNet.Buffers.{Posted, completed, rx_handler-Posted}
use otrix.Dev.VirtioNet.Loopback.{write-receive_packet}

abbrev queue : Virtq
queue = created 0 16 10000 77 88

abbrev arp : L3Handler
arp = record { ethertype = 0x806; handler = 500; ctx = 0 }

abbrev ipv4 : L3Handler
ipv4 = record { ethertype = 0x800; handler = 600; ctx = 0 }

abbrev net : VirtioNet
net = record {
  tx_q = queue;
  rx_q = queue;
  rx_handlers = arp ∷ ipv4 ∷ [];
  rx_packet_queue = Sync.msgq 16;
  num_rx_buffers = 0;
  addr = 2 ∷ 0 ∷ 0 ∷ 0 ∷ 0 ∷ 1 ∷ [];
}

abbrev packet : SockBuf
packet = record {
  start = 1000;
  buffer_size = 124;
  headers = λ t. null;
  payload = 1024;
  head = 1024;
  payload_size = 100;
}

packet-IsValid : IsValid packet
packet-IsValid = record {
  allocated = λ e. absurd (omega arith);
  start_le = omega arith;
  head_le = omega arith;
  payload_le = omega arith;
  fits = omega arith;
  header_inside = λ t. inl refl;
}

abbrev zeros : Bytes
zeros p = 0

-- The frame, where the receiving device put it.
abbrev arrived : Bytes
arrived q =
    (write net zeros packet net.addr 0x800).mem
      ((write net zeros packet net.addr 0x800).buffer.head + (q - 5000))

write-receive_packet_example :
    receive_packet net arrived (receive 5000 1524) ≡ deliver net.rx_handlers 0x800
write-receive_packet_example =
    write-receive_packet net net zeros arrived packet 0x800 5000 1524 packet-IsValid (omega arith)
      refl refl (omega arith) (omega arith) refl refl (omega arith) (omega arith)
      (λ i h.
        ap
          (λ k.
            (write net zeros packet net.addr 0x800).mem
              ((write net zeros packet net.addr 0x800).buffer.head + k))
          (omega arith))

delivers : deliver net.rx_handlers 0x800 ≡ returns (ipv4 ∷ [])
unfolding deliver
delivers = refl

features : ◌≡◌ {A = ℕ} (negotiate_features 0x79BFFFE7) 0x79010020
unfolding negotiate_features
features = refl

abbrev all_but_first : List ℕ
all_but_first = 1 ∷ 2 ∷ 3 ∷ 4 ∷ 5 ∷ 6 ∷ 7 ∷ 8 ∷ 9 ∷ 10 ∷ 11 ∷ 12 ∷ 13 ∷ 14 ∷ 15 ∷ []

net-Posted : Posted net (0 ∷ all_but_first) []
net-Posted = record { queue = new_virtq-IsValid 0 16 10000 77 88 (omega arith); counted = refl }

-- One buffer is at the device.
abbrev waiting : VirtioNet
waiting = record net { rx_q = put_available queue 20000 1524 true null; num_rx_buffers = 1 }

waiting-Posted : Posted waiting all_but_first (0 ∷ [])
waiting-Posted = record {
  queue = put_available-IsValid queue 20000 1524 true null 0 all_but_first [] net-Posted.queue;
  counted = refl;
}

rx_handler-Posted_example :
    Posted (completed waiting (λ p. packet) 0 700) (0 ∷ all_but_first) []
    × ((completed waiting (λ p. packet) 0 700).rx_packet_queue
        ≡ (Sync.write waiting.rx_packet_queue 700).2)
unfolding Sync.msgq Sync.write
rx_handler-Posted_example =
    rx_handler-Posted waiting (λ p. packet) all_but_first (0 ∷ []) 0 700 waiting-Posted refl refl
      (λ e. absurd (omega arith)) refl
