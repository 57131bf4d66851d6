-- ===== src/Net/Tcp/Tests.antt =====
-- The layer with one listening socket, and the theorems at it.
use otrix.Prelude.{ℕ, ◌+◌, ◌/◌, ◌%◌, ◌<◌, ◌≡◌, ◌↔◌, refl, [], ◌∷◌, ◌&&◌, ◌==◌, if◌then◌else◌, arith}
use otrix.Error.{ok}
use otrix.Net.{swap16}
use otrix.Net.Tcp.{TcpHeader, Segment, Outgoing, Tcp, bind_socket, to_socket, send, process_packet}
use otrix.Net.Tcp.Sockets.{wants_listener, bind_socket-process_packet}
use otrix.Net.Tcp.Checksum.{verify, words, send-verify}

-- Port 80 to port 7 of this host, from 10.0.0.2.
abbrev header_to_7 : ℕ → TcpHeader
header_to_7 flags = record {
  source_port = 20480;
  dest_port = 1792;
  seq = 16777216;
  ack = 0;
  header_len = 80;
  flags = flags;
  window_size = 4096;
  csum = 0;
  urp = 0;
}

abbrev syn_to_7 : Segment
syn_to_7 = record { hdr = header_to_7 2; saddr = 33554442; payload = [] }

abbrev empty_layer : Tcp
empty_layer = record { listen_sockets = []; connected_sockets = [] }

bind_socket-process_packet_example :
    ((bind_socket empty_layer 5000 7).0 ≡ ok)
    × (process_packet (bind_socket empty_layer 5000 7).1 syn_to_7 ≡ (
        if (7 == swap16 syn_to_7.hdr.dest_port) && wants_listener empty_layer syn_to_7
        then to_socket 5000
        else process_packet empty_layer syn_to_7))
bind_socket-process_packet_example =
    bind_socket-process_packet empty_layer 5000 (record { not_listening = tt; not_connected = tt })
      7 syn_to_7 refl

abbrev data_to_7 : Segment
data_to_7 = record { hdr = header_to_7 24; saddr = 33554442; payload = 104 ∷ 105 ∷ [] }

abbrev hello : Outgoing
hello = record { header = header_to_7 24; remote = 167772162; data_bytes = 104 ∷ 105 ∷ [] }

send-verify_example :
    (verify 167772161 (send 167772161 hello) ≡ 0)
    ↔ (words 167772161 hello % 65536 + words 167772161 hello / 65536 < 65536)
send-verify_example =
    send-verify 167772161 hello (omega arith, (omega arith, tt)) (omega arith) refl

-- The sums of this segment fold with no carry, and the checksum is right.
hello_verifies : verify 167772161 (send 167772161 hello) ≡ 0
hello_verifies =
    (send-verify 167772161 hello (omega arith, (omega arith, tt)) (omega arith) refl).1
      (omega arith)
