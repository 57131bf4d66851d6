-- ===== src/Net/TcpSocket/Listen/SynAck.antt =====
-- `send_syn_ack`: what the peer reads of the segment that answers its SYN.
use otrix.Prelude.{ℕ, ◌+◌, ◌%◌, ◌<◌, ◌≡◌, refl, ap, ◌∙◌, [], length, true, false, arith}
use otrix.Net.{swap16, swap32, swap-swap}
use otrix.Net.Tcp.{Segment, Outgoing, has_syn, has_ack, has_rst, has_fin}
use otrix.Net.TcpSocket.{tcp_initial_window_size, send_syn_ack}

-- A segment that answers the SYN: SYN and ACK and no other of the flags that are looked at, the number
-- that the socket chose, the number behind the SYN and what it holds, to where the SYN came from.
pub record IsSynAck (isn : ℕ) (syn : Segment) (out : Outgoing) : Type 0 where
  pub syn_flag : has_syn out.header ≡ true
  pub ack_flag : has_ack out.header ≡ true
  pub no_rst : has_rst out.header ≡ false
  pub no_fin : has_fin out.header ≡ false
  pub seq : swap32 out.header.seq ≡ isn
  pub ack : swap32 out.header.ack ≡ (swap32 syn.hdr.seq + 1 + length syn.payload) % 4294967296
  pub from : out.header.source_port ≡ syn.hdr.dest_port
  pub to : out.header.dest_port ≡ syn.hdr.source_port
  pub window : swap16 out.header.window_size ≡ tcp_initial_window_size
  pub host : out.remote ≡ swap32 syn.saddr
  pub empty : out.data_bytes ≡ []

pub send_syn_ack-IsSynAck :
    (isn : ℕ) (syn : Segment) → isn < 4294967296 → IsSynAck isn syn (send_syn_ack syn isn)
unfolding send_syn_ack
send_syn_ack-IsSynAck isn syn small = record {
  syn_flag = refl;
  ack_flag = refl;
  no_rst = refl;
  no_fin = refl;
  seq = (swap-swap 0 isn (omega arith) small).1;
  ack =
      (swap-swap 0 ((swap32 syn.hdr.seq + length syn.payload + 1) % 4294967296) (omega arith)
        (omega arith)).1
      ∙ ap (λ n. n % 4294967296) (omega arith);
  from = refl;
  to = refl;
  window = refl;
  host = refl;
  empty = refl;
}
