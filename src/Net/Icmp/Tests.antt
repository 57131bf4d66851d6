-- ===== src/Net/Icmp/Tests.antt =====
-- A host that pings another, with a thread that waits for the answer.
use otrix.Prelude.{◌%◌, ◌≡◌, [], ◌∷◌, false}
use otrix.Net.{swap32}
use otrix.Sync.{take, give}
use otrix.Net.Icmp.{Icmp, echo_reply, with_header, begin_ping, process_packet}
use otrix.Net.Icmp.Ping.{payload, begin_ping-process_packet}

abbrev idle : Icmp
idle = record {
  ping_req_semaphore = record { waiting_queue = 11 ∷ []; count = 0; max_count = 1 };
  ping_req_pending = false;
  ping_req_id = 0;
}

begin_ping-process_packet_example :
    ((process_packet idle 16777226 (begin_ping idle 11 70000 33554442).1.bytes).sent
      ≡ record {
        remote = swap32 16777226;
        bytes = with_header echo_reply (payload (70000 % 65536));
      }
        ∷ [])
    × ((process_packet
          (begin_ping idle 11 70000 33554442).0
          33554442
          (with_header echo_reply (payload (70000 % 65536)))).woken
        ≡ (give (take idle.ping_req_semaphore 11 0).1).0)
    × ((process_packet
          (begin_ping idle 11 70000 33554442).0
          33554442
          (with_header echo_reply (payload (70000 % 65536)))).icmp.ping_req_semaphore
        ≡ (give (take idle.ping_req_semaphore 11 0).1).1)
begin_ping-process_packet_example =
    begin_ping-process_packet idle idle 11 70000 33554442 16777226 33554442
