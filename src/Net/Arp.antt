-- ===== src/Net/Arp.antt =====
-- net/arp.cpp and net/include/net/arp.hpp: which link address an Internet address has. The six bytes
-- of a link address are one number.
use otrix.Prelude.{
  ℕ, ◌+◌, List, [], ◌∷◌, Bool, true, false, not, ◌&&◌, ◌==◌, ltb, if◌then◌else◌, Option, none, some,
}
use otrix.IntrusiveList.{Ptr}
use otrix.Net.{swap16, swap32}
pub mod Learn
pub mod Reply
mod Tests

-- `std::pair<ipv4_t, mac_t>`
pub record Entry : Type 0 where
  pub ip : ℕ
  pub mac : ℕ

-- The table, whose first entry is at the address `base`, and the host's two addresses.
pub record Arp : Type 0 where
  pub table : List Entry
  pub base : Ptr
  pub own_mac : ℕ
  pub ip_addr : ℕ

-- `arp_header_ipv4`, its numbers as they stand in the packet.
pub record ArpHeader : Type 0 where
  pub hardware_type : ℕ
  pub protocol_type : ℕ
  pub hln : ℕ
  pub pln : ℕ
  pub operation : ℕ
  pub sender_mac : ℕ
  pub sender_ip : ℕ
  pub target_mac : ℕ
  pub target_ip : ℕ

-- `sizeof(arp_header_ipv4)`, and the size of an entry with its padding.
abbrev pub arp_header_size : ℕ
arp_header_size = 28

abbrev pub entry_size : ℕ
entry_size = 12

-- The loop of `get_ip`. It compares two arrays, that is their addresses: `p` is that of the entry and
-- its link address is behind its four bytes of `first`.
unfoldable pub find_ip : Ptr → List Entry → Ptr → Option ℕ
find_ip p [] mac = none
find_ip p (e ∷ es) mac =
    let rest = find_ip (p + entry_size) es mac in if p + 4 == mac then some e.ip else rest

-- The link address is given by its address in memory.
unfoldable pub get_ip : Arp → Ptr → Option ℕ
unfolding find_ip
get_ip arp mac = find_ip arp.base arp.table mac

-- The loop of `get_mac`.
unfoldable pub find_mac : List Entry → ℕ → Option ℕ
find_mac [] addr = none
find_mac (e ∷ es) addr = let rest = find_mac es addr in if e.ip == addr then some e.mac else rest

unfoldable pub get_mac : Arp → ℕ → Option ℕ
unfolding find_mac
get_mac arp addr = find_mac arp.table addr

-- `resolve` sends no request yet.
unfoldable pub resolve : Arp → ℕ → Option ℕ
resolve arp addr = get_mac arp addr

-- The loop of `process_packet` over the table: the first entry with address 0 is filled.
unfoldable pub fill_entry : List Entry → Entry → Option (List Entry)
fill_entry [] new = none
fill_entry (e ∷ es) new =
    let rest = fill_entry es new in
    if 0 == e.ip then some (new ∷ es) else elim rest [ none ↦ none | some es' ↦ some (e ∷ es') ]

abbrev pub replace_first : List Entry → Entry → List Entry
replace_first [] new = []
replace_first (e ∷ es) new = new ∷ es

abbrev pub filled_or : List Entry → Entry → Option (List Entry) → List Entry
filled_or table new none = replace_first table new
filled_or table new (some filled) = filled

unfoldable pub learn : List Entry → Entry → List Entry
learn table new = filled_or table new (fill_entry table new)

-- `send`: the payload, and the link address that the link writes it to.
unfoldable pub send : Arp → (op addr target_mac target_ip : ℕ) → ArpHeader × ℕ
send arp op addr target_mac target_ip = (
  record {
    hardware_type = swap16 1;
    protocol_type = swap16 2048;
    hln = 6;
    pln = 4;
    operation = swap16 op;
    sender_mac = arp.own_mac;
    sender_ip = swap32 addr;
    target_mac = target_mac;
    target_ip = swap32 target_ip;
  },
  target_mac,
)

abbrev pub arp_request : ℕ
arp_request = 1

abbrev pub arp_reply : ℕ
arp_reply = 2

unfoldable pub send_reply : Arp → (addr target_mac target_ip : ℕ) → ArpHeader × ℕ
send_reply arp addr target_mac target_ip = send arp arp_reply addr target_mac target_ip

abbrev pub broadcast_mac : ℕ
broadcast_mac = 281474976710655

unfoldable pub announce : Arp → ArpHeader × ℕ
announce arp = send_reply arp arp.ip_addr broadcast_mac 4294967295

unfoldable pub send_request : Arp → (target_ip : ℕ) → ArpHeader × ℕ
send_request arp target_ip = send arp arp_request arp.ip_addr broadcast_mac target_ip

-- What `process_packet` makes of a packet with `size` bytes of payload: the table it leaves, and what it
-- sends.
unfoldable pub process_packet : Arp → (size : ℕ) → ArpHeader → Arp × List (ArpHeader × ℕ)
process_packet arp size packet =
    if ltb size arp_header_size
    then (arp, [])
    else (let asks =
          (packet.operation == swap16 arp_request) && (swap32 packet.target_ip == arp.ip_addr) in
        let new : Entry = record { ip = swap32 packet.sender_ip; mac = packet.sender_mac } in
        (
          record arp { table = learn arp.table new },
          if asks then send_reply arp arp.ip_addr packet.sender_mac packet.sender_ip ∷ [] else [],
        ))
