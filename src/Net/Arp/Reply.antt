-- ===== src/Net/Arp/Reply.antt =====
-- `process_packet`, `get_ip`: the calls of the layer above and below.
use otrix.Prelude.{
  ℕ, ◌+◌, ◌*◌, ◌<◌, ◌≤◌, ◌≡◌, ◌≢◌, ◌⊎◌, refl, sym, subst, List, [], ◌∷◌, ◌++◌, length, true, false,
  ◌==◌, ltb, ==_iff, ne→==, inl, inr, arith, none, some,
}
use otrix.IntrusiveList.{Ptr}
use otrix.Net.{swap16, swap32, swap-swap}
use otrix.Net.Arp.{
  Entry, Arp, ArpHeader, find_mac, find_ip, get_mac, get_ip, learn, send, send_reply,
  process_packet,
}
use otrix.Net.Arp.Learn.{Known, or_else, learn-find_mac, learn-full}

module _ (arp : Arp) (size : ℕ) (packet : ArpHeader) (long_enough : 28 ≤ size) where
  is_read : ltb size 28 ≡ false
  is_read = ground arith

  -- While an entry is free, after a packet of at least 28 bytes the layer answers for the sender's address: with the link
  -- address of the entry in front that has the address already, else with the packet's.
  pub process_packet-get_mac :
      (known rest : List Entry) (e : Entry)
      → Known known
      → arp.table ≡ known ++ e ∷ rest
      → e.ip ≡ 0
      → get_mac (process_packet arp size packet).0 (swap32 packet.sender_ip)
        ≡ or_else (find_mac known (swap32 packet.sender_ip)) (some packet.sender_mac)
  unfolding process_packet get_mac
  process_packet-get_mac known rest e k at free =
      let new : Entry = record { ip = swap32 packet.sender_ip; mac = packet.sender_mac } in
      rw is_read (
        subst (λ t. find_mac (learn t new) new.ip ≡ or_else (find_mac known new.ip) (some new.mac))
          (sym at) (learn-find_mac known rest e new k free))

  -- When no entry is free, after a packet of at least 28 bytes the layer answers for the sender's address with the packet's
  -- link address.
  pub process_packet-full :
      (e : Entry) (rest : List Entry)
      → arp.table ≡ e ∷ rest
      → Known (e ∷ rest)
      → get_mac (process_packet arp size packet).0 (swap32 packet.sender_ip)
        ≡ some packet.sender_mac
  unfolding process_packet get_mac
  process_packet-full e rest at k =
      let new : Entry = record { ip = swap32 packet.sender_ip; mac = packet.sender_mac } in
      rw is_read (
        subst (λ t. find_mac (learn t new) new.ip ≡ some new.mac) (sym at)
          (learn-full (e ∷ rest) new e rest k refl))

  -- A request of at least 28 bytes for this host's address is answered once, to the sender: the reply tells the address
  -- that was asked for, but its target address is the sender's with its bytes in reverse order.
  pub process_packet-reply :
      packet.operation ≡ swap16 1
      → packet.target_ip < 4294967296
      → swap32 packet.target_ip ≡ arp.ip_addr
      → (reply : ArpHeader) × ((process_packet arp size packet).1 ≡ (reply, packet.sender_mac) ∷ [])
        × (reply.operation ≡ swap16 2)
        × (reply.sender_ip ≡ packet.target_ip)
        × (reply.sender_mac ≡ arp.own_mac)
        × (reply.target_mac ≡ packet.sender_mac)
        × (reply.target_ip ≡ swap32 packet.sender_ip)
  unfolding process_packet send_reply send
  process_packet-reply op small asked =
      let request : (packet.operation == 256) ≡ true = (==_iff _ _).1 op in
      let ours : (swap32 packet.target_ip == arp.ip_addr) ≡ true = (==_iff _ _).1 asked in
      let back : swap32 arp.ip_addr ≡ packet.target_ip =
        subst (λ a. swap32 a ≡ packet.target_ip) asked
          (swap-swap 0 packet.target_ip (omega arith) small).1 in
      (
        (send arp 2 arp.ip_addr packet.sender_mac packet.sender_ip).0,
        rw (is_read, request, ours) refl,
        refl,
        back,
        refl,
        refl,
        refl,
      )

find_ip-outside :
    (p : Ptr) (es : List Entry) (mac : Ptr)
    → (mac < p) ⊎ (p + 12 * length es ≤ mac)
    → find_ip p es mac ≡ none
unfolding find_ip
find_ip-outside p [] mac h = refl
find_ip-outside p (e ∷ es) mac h =
    let other : (p + 4 == mac) ≡ false = ne→== (elsewhere h) in
    rw other (find_ip-outside (p + 12) es mac (further h))
  where
    elsewhere : (mac < p) ⊎ (p + 12 * length (e ∷ es) ≤ mac) → p + 4 ≢ mac
    elsewhere (inl lt) = omega arith
    elsewhere (inr le) = omega arith

    further :
        (mac < p) ⊎ (p + 12 * length (e ∷ es) ≤ mac)
        → (mac < p + 12) ⊎ (p + 12 + 12 * length es ≤ mac)
    further (inl lt) = inl (omega arith)
    further (inr le) = inr (omega arith)

-- `get_ip` finds no link address that stands outside the table, whatever the table knows.
pub get_ip-outside :
    (arp : Arp) (mac : Ptr)
    → (mac < arp.base) ⊎ (arp.base + 12 * length arp.table ≤ mac)
    → get_ip arp mac ≡ none
unfolding get_ip
get_ip-outside arp mac h = find_ip-outside arp.base arp.table mac h
