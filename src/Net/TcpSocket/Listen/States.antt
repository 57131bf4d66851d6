-- ===== src/Net/TcpSocket/Listen/States.antt =====
-- The states of a socket: how segments move it, and that a listening one has what it goes through.
use otrix.Prelude.{
  ℕ, ◌≡◌, ◌≢◌, refl, sym, subst, ◌∙◌, List, [], ==_self, Option, none, some, Outcome, returns,
}
use otrix.IntrusiveList.{Ptr}
use otrix.Net.Tcp.{Segment}
use otrix.Net.TcpSocket.{
  Socket, TcpState, Listening, Action, closed, listen, syn_sent, syn_received, established,
  fin_wait1, fin_wait2, close_wait, closing, last_ack, time_wait,
}
use otrix.Net.TcpSocket.Listen.{
  Stack, set_socket, at_socket, handle_listen_state, by_state, process_packet,
}
use otrix.Net.TcpSocket.Listen.Handlers.{
  stays, finished, reset, Moves, HasCache, Sound, established-Moves, close_wait-Moves,
  handle_listen_state-Keeps,
}

HasCache-any : (st : TcpState) → HasCache st none → (li : Option Listening) → HasCache st li
HasCache-any listen h li = absurd h
HasCache-any _ h li = tt

HasCache-some : (st : TcpState) (l : Listening) → HasCache st (some l)
HasCache-some listen l = tt
HasCache-some _ l = tt

Moves-HasCache :
    {st st' : TcpState}
    → Moves st st'
    → HasCache st none
    → (li : Option Listening) → HasCache st' li
Moves-HasCache (stays st) h li = HasCache-any st h li
Moves-HasCache finished h li = tt
Moves-HasCache reset h li = tt

module _ (stack : Stack) (this new : Ptr) (isn : ℕ) (seg : Segment) where
  -- What comes back, of a socket in the state `st`.
  abbrev Handles : TcpState → Outcome (Stack × List Action) → Type 0
  Handles st o =
      (stack' : Stack) × (acts : List Action) × (o ≡ returns (stack', acts))
      × Moves st (stack'.sockets this).state
      × Sound (stack'.sockets this)

  open-Handles :
      (st : TcpState) (handled : Socket × List Action)
      → HasCache st none
      → Moves st handled.0.state
      → Handles st (returns (at_socket stack this handled))
  open-Handles st handled free moves = (
    set_socket stack this handled.0,
    handled.1,
    refl,
    rw (==_self this) moves,
    rw (==_self this) (Moves-HasCache moves free handled.0.listening),
  )

  drop-Handles :
      (st : TcpState)
      → HasCache st none
      → (stack.sockets this).state ≡ st
      → Handles st (returns (stack, []))
  drop-Handles st free at = (
    stack,
    [],
    refl,
    subst (λ x. Moves st x) (sym at) (stays st),
    subst (λ x. HasCache x (stack.sockets this).listening) (sym at) (HasCache-any st free _),
  )

  by_state-Handles :
      (st : TcpState) (li : Option Listening)
      → (stack.sockets this).state ≡ st
      → (stack.sockets this).listening ≡ li
      → HasCache st li
      → new ≢ this
      → Handles st (by_state stack this new isn seg st li)
  unfolding by_state
  by_state-Handles listen none at li sound apart = absurd sound
  by_state-Handles listen (some l) at li sound apart =
      let (same, l', has) = handle_listen_state-Keeps stack this new l isn seg li apart in
      let handled = handle_listen_state stack this new l isn seg in
      (
        handled.0,
        handled.1,
        refl,
        subst (λ x. Moves listen x) (sym (same ∙ at)) (stays listen),
        subst (λ o. HasCache (handled.0.sockets this).state o) (sym has) (HasCache-some _ l'),
      )
  by_state-Handles established listening at li sound apart =
      open-Handles established _ tt (established-Moves (stack.sockets this) seg at)
  by_state-Handles close_wait listening at li sound apart =
      open-Handles close_wait _ tt (close_wait-Moves (stack.sockets this) seg at)
  by_state-Handles closed listening at li sound apart = drop-Handles closed tt at
  by_state-Handles syn_sent listening at li sound apart = drop-Handles syn_sent tt at
  by_state-Handles syn_received listening at li sound apart = drop-Handles syn_received tt at
  by_state-Handles fin_wait1 listening at li sound apart = drop-Handles fin_wait1 tt at
  by_state-Handles fin_wait2 listening at li sound apart = drop-Handles fin_wait2 tt at
  by_state-Handles closing listening at li sound apart = drop-Handles closing tt at
  by_state-Handles last_ack listening at li sound apart = drop-Handles last_ack tt at
  by_state-Handles time_wait listening at li sound apart = drop-Handles time_wait tt at

  -- A socket that is sound handles every segment, whatever its state, without going through NULL: it
  -- stays sound, and its state stays, goes from established to close_wait, or from close_wait to closed.
  -- The memory of a new socket is not that of this one.
  pub process_packet-Moves :
      Sound (stack.sockets this)
      → new ≢ this
      → (stack' : Stack) × (acts : List Action) × (process_packet stack this new isn seg
          ≡ returns (stack', acts))
        × Moves (stack.sockets this).state (stack'.sockets this).state
        × Sound (stack'.sockets this)
  unfolding process_packet
  process_packet-Moves sound apart =
      by_state-Handles (stack.sockets this).state (stack.sockets this).listening refl refl sound
        apart
