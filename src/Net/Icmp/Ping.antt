-- ===== src/Net/Icmp/Ping.antt =====
-- A ping from one host to another, and back.
use otrix.Prelude.{ℕ, ◌+◌, ◌*◌, ◌/◌, ◌%◌, ◌≡◌, refl, List, [], ◌∷◌, ==_self, arith}
use otrix.Net.{swap32}
use otrix.Sync.{take, give}
use otrix.Net.Icmp.{
  Icmp, echo_reply, with_header, count_up, begin_ping, process_echo_request, process_echo_reply,
  process_packet,
}

-- The payload of a request.
abbrev pub payload : ℕ → List ℕ
payload id = id % 256 ∷ id / 256 ∷ count_up 64 0

-- The request of a ping, when it reaches a host, is answered to where it came from; the answer gives the
-- semaphore of the host that pings, while the ping is pending. What comes back is the payload that was sent.
pub begin_ping-process_packet :
    (here there : Icmp) (thread req_id addr saddr raddr : ℕ)
    → ((process_packet there saddr (begin_ping here thread req_id addr).1.bytes).sent
        ≡ record {
          remote = swap32 saddr;
          bytes = with_header echo_reply (payload (req_id % 65536));
        }
          ∷ [])
      × ((process_packet
            (begin_ping here thread req_id addr).0
            raddr
            (with_header echo_reply (payload (req_id % 65536)))).woken
          ≡ (give (take here.ping_req_semaphore thread 0).1).0)
      × ((process_packet
            (begin_ping here thread req_id addr).0
            raddr
            (with_header echo_reply (payload (req_id % 65536)))).icmp.ping_req_semaphore
          ≡ (give (take here.ping_req_semaphore thread 0).1).1)
unfolding process_packet begin_ping process_echo_request process_echo_reply with_header
begin_ping-process_packet here there thread req_id addr saddr raddr =
    let id : req_id % 65536 % 256 + 256 * (req_id % 65536 / 256) ≡ req_id % 65536 = omega arith in
    let same = ==_self (req_id % 65536) in
    (refl, rw (process_echo_reply, id, same) refl, rw (process_echo_reply, id, same) refl)
