-- ===== src/Net/Arp/Tests.antt =====
-- ARP at a table of two entries, and the theorems at it.
use otrix.Prelude.{◌≡◌, refl, [], ◌∷◌, arith}
use otrix.Net.{swap16, swap32}
use otrix.Net.Arp.{Arp, ArpHeader, process_packet}
use otrix.Net.Arp.Reply.{process_packet-reply}

-- The host 10.0.2.15, which knows 10.0.2.2, and a request of 10.0.2.3 for it.
abbrev host : Arp
host = record {
  table = record { ip = 167772674; mac = 11 } ∷ record { ip = 0; mac = 0 } ∷ [];
  base = 5000;
  own_mac = 22;
  ip_addr = 167772687;
}

abbrev request : ArpHeader
request = record {
  hardware_type = 256;
  protocol_type = 8;
  hln = 6;
  pln = 4;
  operation = 256;
  sender_mac = 33;
  sender_ip = swap32 167772675;
  target_mac = 0;
  target_ip = swap32 167772687;
}

abbrev full_host : Arp
full_host = record host { table = record { ip = 167772674; mac = 11 } ∷ [] }

process_packet-reply_example :
    (reply : ArpHeader) × ((process_packet host 46 request).1 ≡ (reply, 33) ∷ [])
    × (reply.operation ≡ swap16 2)
    × (reply.sender_ip ≡ request.target_ip)
    × (reply.sender_mac ≡ 22)
    × (reply.target_mac ≡ 33)
    × (reply.target_ip ≡ 167772675)
process_packet-reply_example =
    process_packet-reply host 46 request (omega arith) refl (omega arith) refl
