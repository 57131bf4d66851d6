-- ===== src/Net/Tcp/Sockets.antt =====
-- Which socket a segment goes to, after the calls that change the tables.
use otrix.Prelude.{
  ℕ, ◌≡◌, ◌≢◌, refl, sym, subst, [], ◌∷◌, Bool, true, false, not, ne→==, ◌&&◌, ◌==◌, ==_self,
  if◌then◌else◌, Bool-cases, Option-cases, inl, inr, Option, none, some,
}
use otrix.Error.{ok, addrinuse}
use otrix.IntrusiveList.{Ptr}
use otrix.Net.{swap16}
use otrix.Net.Tcp.{
  Segment, SocketId, Sockets, rekey, same_id, find_socket, Tcp, listen_id, bind_socket,
  unbind_socket, add_connected_socket, connected_id, to_socket, has_syn, process_packet,
}

-- Whether a segment is for the listening sockets.
abbrev for_listener : Option Ptr → Bool → Bool
for_listener none syn = true
for_listener (some sock) syn = syn

abbrev pub wants_listener : Tcp → Segment → Bool
wants_listener tcp seg =
    for_listener (find_socket tcp.connected_sockets (connected_id seg)) (has_syn seg.hdr)

same_listen_id : (p q : ℕ) → same_id (listen_id p) (listen_id q) ≡ (p == q)
same_listen_id p q = elim (Bool-cases (p == q)) [ inl e ↦ rw e refl | inr e ↦ rw e refl ]

-- The socket is in no entry of a table.
abbrev pub Absent : Ptr → Sockets → Type 0
Absent sock [] = Unit {0}
Absent sock (e ∷ es) = (e.1 ≢ sock) × Absent sock es

-- Its node is linked in neither table.
pub record Unlinked (tcp : Tcp) (sock : Ptr) : Type 0 where
  pub not_listening : Absent sock tcp.listen_sockets
  pub not_connected : Absent sock tcp.connected_sockets

rekey-Absent : (sock : Ptr) (id : SocketId) (es : Sockets) → Absent sock es → rekey sock id es ≡ es
rekey-Absent sock id [] out = refl
rekey-Absent sock id (e ∷ es) out =
    let other : (e.1 == sock) ≡ false = ne→== out.0 in
    rw (other, rekey-Absent sock id es out.1) refl

module _ (tcp : Tcp) (sock : Ptr) (unlinked : Unlinked tcp sock) where
  rekey-listen : (id : SocketId) → rekey sock id tcp.listen_sockets ≡ tcp.listen_sockets
  rekey-listen id = rekey-Absent sock id tcp.listen_sockets unlinked.not_listening

  rekey-connected : (id : SocketId) → rekey sock id tcp.connected_sockets ≡ tcp.connected_sockets
  rekey-connected id = rekey-Absent sock id tcp.connected_sockets unlinked.not_connected

  bind_socket-ok :
      (port : ℕ)
      → find_socket tcp.listen_sockets (listen_id port) ≡ none
      → bind_socket tcp sock port
        ≡ (ok, record tcp { listen_sockets = (listen_id port, sock) ∷ tcp.listen_sockets })
  unfolding bind_socket
  bind_socket-ok port free =
      rw (free, bind_socket, rekey-listen (listen_id port), rekey-connected (listen_id port)) refl

  -- Binding a socket in no table to a port that no socket listens on succeeds, and from then on the segments for
  -- that port go to it that have SYN or are of no connection; where all others go does not change.
  pub bind_socket-process_packet :
      (port : ℕ) (seg : Segment)
      → find_socket tcp.listen_sockets (listen_id port) ≡ none
      → ((bind_socket tcp sock port).0 ≡ ok)
        × (process_packet (bind_socket tcp sock port).1 seg ≡ (
            if (port == swap16 seg.hdr.dest_port) && wants_listener tcp seg
            then to_socket sock
            else process_packet tcp seg))
  unfolding process_packet
  bind_socket-process_packet port seg free =
      let same = same_listen_id port (swap16 seg.hdr.dest_port) in
      elim (Bool-cases (port == swap16 seg.hdr.dest_port)) [
        | inr e ↦ rw (bind_socket-ok port free, same, process_packet, e) (refl, refl)
        | inl e ↦ elim (Option-cases (find_socket tcp.connected_sockets (connected_id seg))) [
          | inl none_connected ↦
              rw (bind_socket-ok port free, same, process_packet, e, none_connected) (refl, refl)
          | inr (_, connected) ↦ elim (Bool-cases (has_syn seg.hdr)) [
            | inl syn ↦
                rw (bind_socket-ok port free, same, process_packet, e, connected, syn) (refl, refl)
            | inr syn ↦
                rw (bind_socket-ok port free, same, process_packet, e, connected, syn) (refl, refl)
          ]
        ]
      ]

  -- A connection is added whenever no listening socket has its identifier, also when there is one with
  -- that identifier already. From then on the segments of the connection without SYN go to the new
  -- socket; where all others go does not change, but that those of the connection with SYN are for the
  -- listening sockets.
  pub add_connected_socket-process_packet :
      (id : SocketId) (seg : Segment)
      → find_socket tcp.listen_sockets id ≡ none
      → ((add_connected_socket tcp sock id).0 ≡ ok)
        × (process_packet (add_connected_socket tcp sock id).1 seg ≡ (
            if same_id id (connected_id seg) && not (has_syn seg.hdr)
            then to_socket sock
            else process_packet tcp seg))
  unfolding add_connected_socket process_packet
  add_connected_socket-process_packet id seg free =
      elim (Bool-cases (same_id id (connected_id seg))) [
        | inr e ↦
            rw (free, add_connected_socket, rekey-listen id, rekey-connected id, process_packet, e)
              (refl, refl)
        | inl e ↦ elim (Bool-cases (has_syn seg.hdr)) [
          | inr syn ↦
              rw
                (
                  free,
                  add_connected_socket,
                  rekey-listen id,
                  rekey-connected id,
                  process_packet,
                  e,
                  syn,
                )
                (refl, refl)
          | inl syn ↦ elim (Option-cases (find_socket tcp.connected_sockets (connected_id seg))) [
            | inl none_connected ↦
                rw
                  (
                    free,
                    add_connected_socket,
                    rekey-listen id,
                    rekey-connected id,
                    process_packet,
                    e,
                    syn,
                    none_connected,
                  )
                  (refl, refl)
            | inr (_, connected) ↦
                rw
                  (
                    free,
                    add_connected_socket,
                    rekey-listen id,
                    rekey-connected id,
                    process_packet,
                    e,
                    syn,
                    connected,
                  )
                  (refl, refl)
          ]
        ]
      ]

  pub add_connected_socket-find :
      (id : SocketId)
      → find_socket tcp.listen_sockets id ≡ none
      → find_socket (add_connected_socket tcp sock id).1.connected_sockets id ≡ some sock
  unfolding add_connected_socket
  add_connected_socket-find id free =
      rw
        (
          add_connected_socket,
          free,
          ==_self id.host_port,
          ==_self id.remote_port,
          ==_self id.remote_ip,
        )
        refl

  -- A socket that was bound to a port where none listened is unbound again: the tables are as they were.
  pub unbind_socket-bind_socket :
      (port : ℕ)
      → find_socket tcp.listen_sockets (listen_id port) ≡ none
      → unbind_socket (bind_socket tcp sock port).1 sock ≡ some tcp
  unfolding unbind_socket
  unbind_socket-bind_socket port free =
      subst (λ r. unbind_socket r.1 sock ≡ some tcp) (sym (bind_socket-ok port free))
        (rw (==_self sock, unbind_socket) refl)

  -- While a socket listens on a port, binding one to it fails, and changes nothing.
  pub bind_socket-addrinuse :
      (port : ℕ) (other : Ptr)
      → find_socket tcp.listen_sockets (listen_id port) ≡ some other
      → bind_socket tcp sock port ≡ (addrinuse, tcp)
  unfolding bind_socket
  bind_socket-addrinuse port other taken = rw (taken, bind_socket) refl
