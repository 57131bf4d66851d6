-- ===== src/Net/Ipv4/Process.antt =====
-- `process_packet`: which packets are delivered, and with which payload.
use otrix.Prelude.{
  ℕ, ◌+◌, ◌≤◌, ◌<◌, ◌≡◌, refl, List, [], ◌↔◌, true, false, not, ◌&&◌, ◌||◌, ◌==◌, ltb, Bool,
  Bool-cases, inl, inr, arith, returns, ◌>>=◌, subst,
}
use otrix.IntrusiveList.{Ptr, null}
use otrix.Net.{swap16, swap32}
use otrix.Net.Checksum.{ip_checksum}
use otrix.Net.SockBuf.{SockBuf, IsValid, ip, add64, sub64, add_parsed_header, set_payload_size}
use otrix.Net.SockBuf.Valid.{add_parsed_header-IsValid, set_payload_size-IsValid}
use otrix.Net.Ipv4.{
  Memory, Ipv4, RxHandler, read_bytes, version_ihl, len, proto_of, daddr, ip_hdr_size,
  version_ihl_ipv4, broadcast, deliver, process_packet,
}

ltb-le : {m n : ℕ} → ltb m n ≡ false → n ≤ m
ltb-le e = ground arith

and-left : (a b : Bool) → (a && b) ≡ true → a ≡ true
and-left true b e = refl
and-left false b e = cc

not-false : (a : Bool) → not a ≡ true → a ≡ false
not-false true e = cc
not-false false e = refl

-- A length below 20 is nearly 2 ^ 64 once the header's size is taken off.
too_long :
    (payload length end : ℕ)
    → length < 20
    → payload + 20 + sub64 length 20 ≤ end
    → end < 18446744073709551616
    → ⊥
too_long payload length end short le fits = omega arith

module _ (layer : Ipv4) (mem : Memory) (b : SockBuf) where
  -- The packet with its header taken off, and the header's address.
  abbrev pub parsed : SockBuf
  parsed = add_parsed_header b ip_hdr_size ip

  abbrev pub hdr : Ptr
  hdr = parsed.headers ip

  -- A packet that is long enough, has the checksum 0, the version and header length that the stack
  -- sends, and is for this host or for all.
  abbrev pub accepted : Bool
  accepted =
      not (ltb b.payload_size ip_hdr_size)
      && (ip_checksum (read_bytes mem hdr ip_hdr_size) 0 == 0)
      && (version_ihl mem hdr == version_ihl_ipv4)
      && ((daddr mem hdr == swap32 layer.addr) || (daddr mem hdr == swap32 broadcast))

  -- `ntohs(p_hdr->len) - sizeof(ip_hdr)`
  abbrev pub declared : ℕ
  declared = sub64 (swap16 (len mem hdr)) ip_hdr_size

  -- Both ways through the guards.
  process_packet_lem :
      (accepted ≡ true
        → process_packet layer mem b ≡ (
            deliver layer.rx_handlers (proto_of mem hdr) >>= λ called.
            returns (set_payload_size parsed declared, called)))
      × (accepted ≡ false
          → (b' : SockBuf) × (process_packet layer mem b ≡ returns (b', []))
            × (IsValid b → IsValid b'))
  unfolding process_packet
  process_packet_lem = elim (Bool-cases (ltb b.payload_size ip_hdr_size)) [
    | inl e ↦ rw e ((λ f. cc), λ f. (b, refl, λ v. v))
    | inr e ↦ elim (Bool-cases (ip_checksum (read_bytes mem hdr ip_hdr_size) 0 == 0)) [
      | inr f ↦
          rw (e, f)
            ((λ g. cc), λ g. (parsed, refl, λ v. add_parsed_header-IsValid b v ip_hdr_size ip))
      | inl f ↦ elim (Bool-cases (version_ihl mem hdr == version_ihl_ipv4)) [
        | inr g ↦
            rw (e, f, g)
              ((λ h. cc), λ h. (parsed, refl, λ v. add_parsed_header-IsValid b v ip_hdr_size ip))
        | inl g ↦ elim (Bool-cases (daddr mem hdr == swap32 layer.addr)) [
          | inl h ↦ rw (e, f, g, h) ((λ i. refl), λ i. cc)
          | inr h ↦ elim (Bool-cases (daddr mem hdr == swap32 broadcast)) [
            | inl k ↦ rw (e, f, g, h, k) ((λ i. refl), λ i. cc)
            | inr k ↦
                rw (e, f, g, h, k)
                  (
                    (λ i. cc),
                    λ i. (parsed, refl, λ v. add_parsed_header-IsValid b v ip_hdr_size ip),
                  )
          ]
        ]
      ]
    ]
  ]

  -- An accepted packet goes to the handlers of its protocol with the payload size that its header
  -- declares.
  pub process_packet-accepted :
      accepted ≡ true
      → process_packet layer mem b ≡ (
          deliver layer.rx_handlers (proto_of mem hdr) >>= λ called.
          returns (set_payload_size parsed declared, called))
  process_packet-accepted = process_packet_lem.0

  -- A packet that is not accepted goes to no handler, and its buffer stays valid.
  pub process_packet-dropped :
      accepted ≡ false
      → IsValid b
      → (b' : SockBuf) × (process_packet layer mem b ≡ returns (b', [])) × IsValid b'
  process_packet-dropped not_ok v =
      let (b', calls, valid) = process_packet_lem.1 not_ok in (b', calls, valid v)

  long_enough : accepted ≡ true → 20 ≤ b.payload_size
  long_enough ok =
      ltb-le (not-false (ltb b.payload_size 20) (and-left _ _ (and-left _ _ (and-left _ _ ok))))

  payload-parsed :
      IsValid b → b.headers ip ≡ null → 20 ≤ b.payload_size → parsed.payload ≡ b.payload + 20
  unfolding add_parsed_header
  payload-parsed v unset le =
      let enough : ltb b.payload_size 20 ≡ false = ground arith in
      let in_range : add64 b.payload 20 ≡ b.payload + 20 =
        omega (arith, v.payload_le, v.fits, le) in
      rw (unset, enough, in_range) refl

  module _ (called : List RxHandler) (v : IsValid b) (ok : accepted ≡ true)
      (calls : deliver layer.rx_handlers (proto_of mem hdr) ≡ returns called) where
    -- For an accepted packet in a valid buffer, and handlers that are not NULL, the buffer that the
    -- handlers get is valid exactly if the declared payload fits behind the header: the declared size
    -- is not compared with what was received.
    pub process_packet-overrun :
        (process_packet layer mem b ≡ returns (set_payload_size parsed declared, called))
        × (IsValid (set_payload_size parsed declared)
            ↔ (parsed.payload + declared ≤ parsed.start + parsed.buffer_size))
    process_packet-overrun = (
      rw calls at (process_packet-accepted ok),
      set_payload_size-IsValid parsed (add_parsed_header-IsValid b v ip_hdr_size ip) declared ip,
    )

    -- When an accepted packet in a valid buffer, whose IP header was not parsed before, declares a
    -- length below the 20 bytes of its header, and its handlers are not NULL, they get a buffer that is
    -- not valid.
    pub process_packet-short :
        b.headers ip ≡ null
        → swap16 (len mem hdr) < ip_hdr_size
        → (b' : SockBuf) × (process_packet layer mem b ≡ returns (b', called)) × ¬ (IsValid b')
    process_packet-short unset short =
        let (eq, iff) = process_packet-overrun in
        (
          set_payload_size parsed declared,
          eq,
          λ w.
              too_long b.payload (swap16 (len mem hdr)) (parsed.start + parsed.buffer_size) short
                (subst (λ q. q + declared ≤ parsed.start + parsed.buffer_size)
                  (payload-parsed v unset (long_enough ok)) (iff.0 w))
                (add_parsed_header-IsValid b v ip_hdr_size ip).fits,
        )
