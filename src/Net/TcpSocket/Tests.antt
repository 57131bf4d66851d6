-- ===== src/Net/TcpSocket/Tests.antt =====
-- A host that listens on port 7, a connection to it, and the theorems at them.
use otrix.Prelude.{ℕ, ◌≡◌, refl, List, [], ◌∷◌, some, none, returns, arith}
use otrix.Error.{ok}
use otrix.Net.Tcp.{TcpHeader, Segment, listen_id}
use otrix.Net.TcpSocket.{Socket, TcpState, Listening, SynCacheEntry, Action}
use otrix.Net.TcpSocket.Window.{WindowOk}
use otrix.Net.TcpSocket.Listen.Accounts
use otrix.Net.TcpSocket.Listen.Accounts.{new_connection-WindowOk}
use otrix.Net.TcpSocket.Listen.{Stack, new_connection, process_packet}
use otrix.Net.TcpSocket.Listen.Handlers.{Moves, Sound}
use otrix.Net.TcpSocket.Listen.States.{process_packet-Moves}
use otrix.Net.TcpSocket.Stream.{send, recv}
use otrix.Net.TcpSocket.Stream.Send.{SentAll, send-SentAll}
use otrix.Net.TcpSocket.Stream.Reads.{Ends}
use otrix.Net.TcpSocket.Stream.Recv.{recv-Ends}

-- From port 80 of 10.0.0.2 to port 7 of this host; the numbers in the order of the wire.
abbrev header_to_7 : (flags seq ack : ℕ) → TcpHeader
header_to_7 flags seq ack = record {
  source_port = 20480;
  dest_port = 1792;
  seq = seq;
  ack = ack;
  header_len = 80;
  flags = flags;
  window_size = 4096;
  csum = 0;
  urp = 0;
}

abbrev segment_to_7 : (flags seq ack : ℕ) → List ℕ → Segment
segment_to_7 flags seq ack payload = record {
  hdr = header_to_7 flags seq ack;
  saddr = 33554442;
  payload = payload;
}

abbrev listening_one : Listening
listening_one = record {
  syn_cache = record { pool_size = 1; entries = [] };
  backlog = record { size = 1; messages = [] };
}

abbrev listener : Socket
listener = record {
  port = 7;
  remote_addr = 0;
  remote_port = 0;
  state = TcpState.listen;
  listening = some listening_one;
  seq = 0;
  ack = 0;
  recv_window_size = 0;
  recv_window_used = 0;
  recv_skb = [];
  recv_skb_payload_offset = 0;
  remote_window_size = 0;
}

-- The listener is the object at 5000.
abbrev host : Stack
host = record {
  layer = record { listen_sockets = (listen_id 7, 5000) ∷ []; connected_sockets = [] };
  sockets = λ p. listener;
}

-- SYN with the sequence number 1, and the ACK that answers the number 100.
abbrev the_syn : Segment
the_syn = segment_to_7 2 16777216 0 []

abbrev the_ack : Segment
the_ack = segment_to_7 16 33554432 1694498816 []

process_packet-Moves_example :
    (stack' : Stack) × (acts : List Action) × (process_packet host 5000 6000 100 the_syn
      ≡ returns (stack', acts))
    × Moves TcpState.listen (stack'.sockets 5000).state
    × Sound (stack'.sockets 5000)
process_packet-Moves_example = process_packet-Moves host 5000 6000 100 the_syn tt (omega arith)

abbrev early_data : Segment
early_data = segment_to_7 24 33554432 1694498816 (104 ∷ 105 ∷ [])

abbrev entry_100 : SynCacheEntry
entry_100 = record { isn = 100; remote_isn = 1 }

-- A connection with three bytes in its queue.
abbrev three_bytes : Segment
three_bytes = segment_to_7 16 33554432 1694498816 (1 ∷ 2 ∷ 3 ∷ [])

abbrev connection : Socket
connection = record listener {
  remote_addr = 167772162;
  remote_port = 80;
  state = TcpState.established;
  listening = none;
  seq = 101;
  ack = 5;
  recv_window_size = 29200;
  recv_window_used = 3;
  recv_skb = three_bytes ∷ [];
  remote_window_size = 4000;
}

connection-WindowOk : WindowOk connection
connection-WindowOk = record { accounted = refl; within = omega arith; small = omega arith }

new_connection-WindowOk_example : WindowOk (
    Accounts.after
      (new_connection connection listener entry_100 the_ack)
      (early_data ∷ three_bytes ∷ []))
new_connection-WindowOk_example =
    new_connection-WindowOk connection listener entry_100 the_ack (early_data ∷ three_bytes ∷ [])
      refl

send-SentAll_example :
    SentAll connection (7 ∷ 8 ∷ 9 ∷ []) 0 (send (λ out. ok) [] connection (7 ∷ 8 ∷ 9 ∷ []))
send-SentAll_example =
    send-SentAll (λ out. ok) [] connection (7 ∷ 8 ∷ 9 ∷ []) (omega arith) (omega arith)
      (omega arith) (λ out. refl)

abbrev narrow : Socket
narrow = record connection { remote_window_size = 2 }

abbrev gone : Socket
gone = record narrow { state = TcpState.closed }

recv-Ends_example : Ends connection 2 (recv connection 2)
recv-Ends_example = recv-Ends connection 2 refl connection-WindowOk (omega arith)

abbrev half_closed : Socket
half_closed = record connection { state = TcpState.close_wait }

-- Two of the three bytes were read.
abbrev half_read : Socket
half_read = record connection { recv_window_used = 1; recv_skb_payload_offset = 2 }

abbrev one_byte : Segment
one_byte = segment_to_7 16 83886080 1694498816 (4 ∷ [])
