-- ===== src/Net/TcpSocket/Listen/Handshake.antt =====
-- The three-way handshake of a listening socket, from the layer to the new connection.
use otrix.Prelude.{ℕ, ◌+◌, ◌%◌, ◌≡◌, refl, [], ◌∷◌, ◌++◌, true, false, some}
use otrix.IntrusiveList.{Ptr}
use otrix.Net.{swap16, swap32}
use otrix.Net.Tcp
use otrix.Net.Tcp.{
  pick_socket, Tcp, Segment, SocketId, same_id, find_socket, connected_id, has_syn, has_ack,
}
use otrix.Net.TcpSocket.{TcpState, Listening, SynCacheEntry, tcp_initial_window_size}
use otrix.Net.TcpSocket.Listen.{Stack, set_socket, syn_id, set_listening}
use otrix.Net.TcpSocket.Listen.Arrivals.{Listens, IsSyn}

module _ (stack : Stack) (this : Ptr) (port : ℕ) (l : Listening) (isn : ℕ) (syn : Segment) where
  -- The entry of the cache that the SYN makes, and the listening state with it.
  abbrev pub entry : SynCacheEntry
  entry = record { isn = isn; remote_isn = swap32 syn.hdr.seq }

  abbrev pub with_entry : Listening
  with_entry = record l {
    syn_cache = record l.syn_cache {
      entries = (syn_id (stack.sockets this) syn, entry) ∷ l.syn_cache.entries;
    };
  }

  abbrev pub after_syn : Stack
  after_syn = set_socket stack this (set_listening (stack.sockets this) with_entry)

  -- The ACK that answers the SYN+ACK that was sent for a SYN.
  pub record IsAck (seg : Segment) : Type 0 where
    pub no_syn : has_syn seg.hdr ≡ false
    pub has : has_ack seg.hdr ≡ true
    pub from : seg.hdr.source_port ≡ syn.hdr.source_port
    pub to : seg.hdr.dest_port ≡ syn.hdr.dest_port
    pub host : seg.saddr ≡ syn.saddr
    pub seq : swap32 seg.hdr.seq ≡ (swap32 syn.hdr.seq + 1) % 4294967296
    pub ack : swap32 seg.hdr.ack ≡ (isn + 1) % 4294967296
    pub empty : seg.payload ≡ []

  same-syn_id :
      Listens stack this port l
      → IsSyn syn port
      → syn_id (stack.sockets this) syn ≡ connected_id syn
  same-syn_id at s = rw (at.port_of, at.fits, s.to_port) refl

  -- A new connection at `new`: established, with the numbers that follow the two SYNs and an empty
  -- window, found by the layer, and last in the backlog; the entry of the cache is gone.
  pub record Connected (new : Ptr) (stack' : Stack) : Type 0 where
    pub state : (stack'.sockets new).state ≡ TcpState.established
    pub seq : (stack'.sockets new).seq ≡ (isn + 1) % 4294967296
    pub ack : (stack'.sockets new).ack ≡ (swap32 syn.hdr.seq + 1) % 4294967296
    pub window : (stack'.sockets new).recv_window_size ≡ tcp_initial_window_size
    pub used : (stack'.sockets new).recv_window_used ≡ 0
    pub peer : (stack'.sockets new).remote_addr ≡ swap32 syn.saddr
    pub peer_port : (stack'.sockets new).remote_port ≡ swap16 syn.hdr.source_port
    pub routed : find_socket stack'.layer.connected_sockets (connected_id syn) ≡ some new
    pub accepted :
        (stack'.sockets this).listening
        ≡ some (record l {
          backlog = record l.backlog { messages = l.backlog.messages ++ (new ∷ []) };
        })
