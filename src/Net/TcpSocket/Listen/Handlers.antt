-- ===== src/Net/TcpSocket/Listen/Handlers.antt =====
-- The steps that segments make a socket take, handler by handler.
use otrix.Prelude.{
  ℕ, ◌+◌, ◌%◌, ◌≡◌, ◌≢◌, refl, sym, [], ◌∷◌, length, false, not, ◌++◌, ◌||◌, ◌==◌, ==_self, ne→==,
  ltb, Bool-cases, Option-cases, ◌⊎◌, inl, inr, Option, none, some,
}
use otrix.Error.{ok}
use otrix.IntrusiveList.{Ptr}
use otrix.Net.{swap32}
use otrix.Net.SockBuf.{sub64}
use otrix.Net.Tcp.{Segment, has_fin, has_rst, has_ack, has_syn}
use otrix.Net.TcpSocket.{
  Socket, TcpState, SynCacheEntry, Listening, closed, listen, established, close_wait, invalid_port,
  take_segment, handle_segment, handle_established_state, handle_close_wait_state,
}
use otrix.Net.TcpSocket.Listen.{
  Stack, start_listening, find_syn, remove_syn, full, syn_id, handle_syn, establish,
  accept_connection, handle_listen_state,
}

-- The steps that a segment can make a socket take.
pub data Moves : TcpState → TcpState → Type 0 where
  stays : (st : TcpState) → Moves st st
  finished : Moves established close_wait
  reset : Moves close_wait closed

-- What the code goes through without a test.
abbrev pub HasCache : TcpState → Option Listening → Type 0
HasCache listen none = ⊥
HasCache _ _ = Unit

abbrev pub Sound : Socket → Type 0
Sound s = HasCache s.state s.listening

-- A socket that was made to listen with a port has its cache and its backlog, both empty and of the size
-- that was asked for.
pub start_listening-Sound :
    (stack : Stack) (this : Ptr) (size : ℕ)
    → invalid_port ≢ (stack.sockets this).port
    → ((start_listening stack this size).0 ≡ ok)
      × (((start_listening stack this size).1.sockets this).state ≡ listen)
      × Sound ((start_listening stack this size).1.sockets this)
unfolding start_listening
start_listening-Sound stack this size bound = (
  rw (start_listening, ne→== bound) refl,
  rw (start_listening, ne→== bound, ==_self this) refl,
  rw (start_listening, ne→== bound, ==_self this) tt,
)

-- A segment finishes an open connection, or leaves its state.
handle_segment-state :
    (s : Socket) (seg : Segment)
    → ((handle_segment s seg).0.state ≡ s.state) ⊎ ((handle_segment s seg).0.state ≡ close_wait)
unfolding handle_segment take_segment
handle_segment-state s seg =
    elim (Bool-cases (
      ltb (swap32 seg.hdr.seq) s.ack
      || ltb (sub64 s.recv_window_size s.recv_window_used) (length seg.payload))) [
        | inl e ↦ inl (rw (handle_segment, e) refl)
        | inr e ↦ elim (Bool-cases (has_fin seg.hdr)) [
          | inl fin ↦ inr (rw (handle_segment, e, take_segment, fin) refl)
          | inr fin ↦ inl (rw (handle_segment, e, take_segment, fin) refl)
        ]
      ]

pub established-Moves :
    (s : Socket) (seg : Segment)
    → s.state ≡ established
    → Moves established (handle_established_state s seg).0.state
unfolding handle_established_state
established-Moves s seg at = elim (Bool-cases (has_ack seg.hdr)) [
  | inl e ↦ elim (handle_segment-state s seg) [
    | inl same ↦ rw (handle_established_state, e, same, at) (stays established)
    | inr fin ↦ rw (handle_established_state, e, fin) finished
  ]
  | inr e ↦ rw (handle_established_state, e, at) (stays established)
]

pub close_wait-Moves :
    (s : Socket) (seg : Segment)
    → s.state ≡ close_wait
    → Moves close_wait (handle_close_wait_state s seg).0.state
unfolding handle_close_wait_state
close_wait-Moves s seg at = elim (Bool-cases (has_rst seg.hdr)) [
  | inl e ↦ rw (handle_close_wait_state, e) reset
  | inr e ↦ elim (handle_segment-state s seg) [
    | inl same ↦ rw (handle_close_wait_state, e, same, at) (stays close_wait)
    | inr fin ↦ rw (handle_close_wait_state, e, fin) (stays close_wait)
  ]
]

-- A listening socket that stays one.
abbrev Keeps : Socket → Socket → Type 0
Keeps s s' = (s'.state ≡ s.state) × (l : Listening) × (s'.listening ≡ some l)

handle_syn-Keeps :
    (s : Socket) (l : Listening) (isn : ℕ) (seg : Segment)
    → s.listening ≡ some l
    → Keeps s (handle_syn s l isn seg).0
unfolding handle_syn
handle_syn-Keeps s l isn seg at =
    elim (Option-cases (find_syn l.syn_cache.entries (syn_id s seg))) [
      | inr (entry, found) ↦ elim (Bool-cases (swap32 seg.hdr.seq == entry.remote_isn)) [
        | inl e ↦ rw (handle_syn, found, e) (refl, l, at)
        | inr e ↦ rw (handle_syn, found, e) (refl, l, at)
      ]
      | inl fresh ↦ elim (Bool-cases (length l.syn_cache.entries == l.syn_cache.pool_size)) [
        | inl e ↦ rw (handle_syn, fresh, e) (refl, l, at)
        | inr e ↦ rw (handle_syn, fresh, e) (refl, _, refl)
      ]
    ]

establish-Keeps :
    (stack : Stack) (this new : Ptr) (l : Listening) (entry : SynCacheEntry) (seg : Segment)
    → new ≢ this
    → Keeps (stack.sockets this) ((establish stack this new l entry seg).0.sockets this)
unfolding establish
establish-Keeps stack this new l entry seg apart =
    let other : (this == new) ≡ false = ne→== (λ e. apart (sym e)) in
    (
      rw (establish, other, ==_self this) refl,
      record {
        syn_cache = record l.syn_cache {
          entries = remove_syn l.syn_cache.entries (syn_id (stack.sockets this) seg);
        };
        backlog = record l.backlog { messages = l.backlog.messages ++ (new ∷ []) };
      },
      rw (establish, other, ==_self this) refl,
    )

accept_connection-Keeps :
    (stack : Stack) (this new : Ptr) (l : Listening) (seg : Segment)
    → (stack.sockets this).listening ≡ some l
    → new ≢ this
    → Keeps (stack.sockets this) ((accept_connection stack this new l seg).0.sockets this)
unfolding accept_connection establish
accept_connection-Keeps stack this new l seg at apart =
    elim (Option-cases (find_syn l.syn_cache.entries (syn_id (stack.sockets this) seg))) [
      | inl fresh ↦ rw (accept_connection, fresh) (refl, l, at)
      | inr (entry, found) ↦
          elim (Bool-cases (
            not (swap32 seg.hdr.seq == (entry.remote_isn + 1) % 4294967296)
            || not (swap32 seg.hdr.ack == (entry.isn + 1) % 4294967296))) [
              | inl wrong ↦ rw (accept_connection, found, wrong) (refl, l, at)
              | inr right ↦ elim (Bool-cases (full l.backlog)) [
                | inl e ↦ rw (accept_connection, found, right, e) (refl, l, at)
                | inr e ↦
                    rw (accept_connection, found, right, e)
                      (establish-Keeps stack this new l entry seg apart)
              ]
            ]
    ]

pub handle_listen_state-Keeps :
    (stack : Stack) (this new : Ptr) (l : Listening) (isn : ℕ) (seg : Segment)
    → (stack.sockets this).listening ≡ some l
    → new ≢ this
    → Keeps (stack.sockets this) ((handle_listen_state stack this new l isn seg).0.sockets this)
unfolding handle_listen_state
handle_listen_state-Keeps stack this new l isn seg at apart = elim (Bool-cases (has_syn seg.hdr)) [
  | inl e ↦
      rw (handle_listen_state, e, ==_self this) (handle_syn-Keeps (stack.sockets this) l isn seg at)
  | inr e ↦ elim (Bool-cases (has_ack seg.hdr)) [
    | inl e' ↦
        rw (handle_listen_state, e, e') (accept_connection-Keeps stack this new l seg at apart)
    | inr e' ↦ rw (handle_listen_state, e, e') (refl, l, at)
  ]
]
