-- ===== src/Net/Icmp.antt =====
-- net/icmp.cpp and net/include/net/icmp.hpp: echo requests and their replies. A packet is the bytes behind
-- its IP header and the address it comes from or goes to.
use otrix.Prelude.{
  ℕ, zero, suc, ◌+◌, ◌*◌, ◌/◌, ◌%◌, List, [], ◌∷◌, ◌++◌, length, drop, get_or, Bool, true, false,
  not, ◌&&◌, ◌||◌, ◌==◌, ltb, if◌then◌else◌, Option, none, some,
}
use otrix.Net.{swap32}
use otrix.Net.Checksum.{ip_checksum}
use otrix.Net.SockBuf.{sub64}
use otrix.Sync.{Thread, Wait, SemaphoreState, take, give}
pub mod Ping
mod Tests

-- `ping_req_semaphore_`, `ping_req_pending_` and `ping_req_id_`
pub record Icmp : Type 0 where
  pub ping_req_semaphore : SemaphoreState
  pub ping_req_pending : Bool
  pub ping_req_id : ℕ

-- `icmp_type`
abbrev pub echo_reply : ℕ
echo_reply = 0

abbrev pub echo : ℕ
echo = 8

abbrev pub icmp_payload_size : ℕ
icmp_payload_size = 64

-- `sizeof(ip_hdr)`, `sizeof(icmp_v4_hdr)` and `sizeof(icmp_echo_hdr)`
abbrev pub ip_hdr_size : ℕ
ip_hdr_size = 20

abbrev pub icmp_v4_hdr_size : ℕ
icmp_v4_hdr_size = 4

abbrev pub icmp_echo_hdr_size : ℕ
icmp_echo_hdr_size = 2

-- What is handed to the network layer.
pub record Sent : Type 0 where
  pub remote : ℕ
  pub bytes : List ℕ

-- A header of the type, its checksum filled in, in front of a payload.
unfoldable pub with_header : (type : ℕ) → List ℕ → List ℕ
with_header type payload =
    let csum = ip_checksum (type ∷ 0 ∷ 0 ∷ 0 ∷ payload) 0 in
    type ∷ 0 ∷ csum % 256 ∷ csum / 256 ∷ payload

-- `n` bytes that count from `i`.
abbrev pub count_up : ℕ → ℕ → List ℕ
count_up zero i = []
count_up (suc n) i = i ∷ count_up n (suc i)

-- `ping` up to the wait for the reply: `req_id` is the static counter. The first `take` does not wait.
unfoldable pub begin_ping : Icmp → Thread → (req_id addr : ℕ) → Icmp × Sent
unfolding with_header
begin_ping icmp thread req_id addr =
    let id = req_id % 65536 in
    (
      record {
        ping_req_semaphore = (take icmp.ping_req_semaphore thread 0).1;
        ping_req_pending = true;
        ping_req_id = id;
      },
      record {
        remote = addr;
        bytes = with_header echo (id % 256 ∷ id / 256 ∷ count_up icmp_payload_size 0);
      },
    )

-- The end of `ping`: what `take` gave, with `timeout`.
unfoldable pub end_ping : Icmp → Icmp
end_ping icmp = record icmp { ping_req_pending = false }

-- `process_echo_request`
unfoldable pub process_echo_request : (saddr : ℕ) → List ℕ → Sent
unfolding with_header
process_echo_request saddr payload = record {
  remote = swap32 saddr;
  bytes = with_header echo_reply payload;
}

-- The loop of `process_echo_reply`: whether the bytes count from `i`.
abbrev pub counts_up : List ℕ → ℕ → Bool
counts_up [] i = true
counts_up (b ∷ bs) i = (i == b) && counts_up bs (suc i)

-- `process_echo_reply`: the thread that is woken, and the state.
unfoldable pub process_echo_reply : Icmp → List ℕ → Option Thread × Icmp
process_echo_reply icmp payload =
    let id_seq = get_or payload 0 0 + 256 * get_or payload 1 0 in
    let given = give icmp.ping_req_semaphore in
    if not icmp.ping_req_pending
      || not (sub64 (length payload) icmp_echo_hdr_size == icmp_payload_size)
      || not (id_seq == icmp.ping_req_id)
      || not (counts_up (drop icmp_echo_hdr_size payload) 0)
    then (none, icmp)
    else (given.0, record icmp { ping_req_semaphore = given.1 })

-- What `process_packet` does: a reply that is sent, or a thread that is woken.
pub record Handled : Type 0 where
  pub icmp : Icmp
  pub sent : List Sent
  pub woken : Option Thread

abbrev pub ignored : Icmp → Handled
ignored icmp = record { icmp = icmp; sent = []; woken = none }

unfoldable pub process_packet : Icmp → (saddr : ℕ) → List ℕ → Handled
unfolding process_echo_request process_echo_reply
process_packet icmp saddr bytes =
    let payload = drop icmp_v4_hdr_size bytes in
    let replied = process_echo_reply icmp payload in
    if ltb (length bytes) ip_hdr_size
    then ignored icmp
    else (if get_or bytes 0 0 == echo
        then record (ignored icmp) { sent = process_echo_request saddr payload ∷ [] }
        else (if get_or bytes 0 0 == echo_reply
            then record { icmp = replied.1; sent = []; woken = replied.0 }
            else ignored icmp))
