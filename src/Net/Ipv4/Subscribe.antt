-- ===== src/Net/Ipv4/Subscribe.antt =====
-- `subscribe_to_rx` and the delivery to the handlers.
use otrix.Prelude.{
  ℕ, ◌≡◌, ◌≢◌, refl, List, [], ◌∷◌, ◌++◌, true, ◌==◌, ==_iff, ne→==, sym, ap, subst, if◌then◌else◌,
  Bool-cases, inl, inr, none, some, returns, faults,
}
use otrix.Error.{ok, nomem}
use otrix.IntrusiveList.{Ptr, null}
use otrix.Net.Ipv4.{Ipv4, RxHandler, free_entry, put_handler, stored, subscribe_to_rx, deliver}

-- Every entry of the list is taken; every one is free.
abbrev pub Taken : List RxHandler → Type 0
Taken [] = Unit
Taken (h ∷ hs) = (h.proto ≢ 0) × (h.handler ≢ null) × Taken hs

abbrev pub Free : List RxHandler → Type 0
Free [] = Unit
Free (h ∷ hs) = (h ≡ free_entry) × Free hs

put_handler-append :
    (used rest : List RxHandler) (h new : RxHandler)
    → Taken used
    → h.proto ≡ 0
    → put_handler (used ++ h ∷ rest) new ≡ some (used ++ new ∷ rest)
unfolding put_handler
put_handler-append [] rest h new taken e = rw e refl
put_handler-append (u ∷ used) rest h new taken e =
    rw (ne→== (λ f. taken.0 (sym f)), put_handler-append used rest h new taken.2 e) refl

put_handler-full :
    (used : List RxHandler) (new : RxHandler) → Taken used → put_handler used new ≡ none
unfolding put_handler
put_handler-full [] new taken = refl
put_handler-full (u ∷ used) new taken =
    rw (ne→== (λ f. taken.0 (sym f)), put_handler-full used new taken.2) refl

deliver-Free : (p : ℕ) (hs : List RxHandler) → Free hs → p ≢ 0 → deliver hs p ≡ returns []
unfolding deliver
deliver-Free p [] free ne = refl
deliver-Free p (h ∷ hs) free ne =
    rw (free.0, ne→== (λ e. ne (sym e)), deliver-Free p hs free.1 ne) refl

-- The handlers of a protocol.
abbrev pub handlers_of : ℕ → List RxHandler → List RxHandler
handlers_of p [] = []
handlers_of p (h ∷ hs) = if h.proto == p then h ∷ handlers_of p hs else handlers_of p hs

deliver-append :
    (p : ℕ) (used rest called : List RxHandler)
    → Taken used
    → deliver rest p ≡ returns called
    → deliver (used ++ rest) p ≡ returns (handlers_of p used ++ called)
unfolding deliver
deliver-append p [] rest called taken e = e
deliver-append p (u ∷ used) rest called taken e = elim (Bool-cases (u.proto == p)) [
  | inl f ↦ rw (f, ne→== taken.1, deliver-append p used rest called taken.2 e) refl
  | inr f ↦ rw (f, deliver-append p used rest called taken.2 e) refl
]

deliver-first :
    (p : ℕ) (h : RxHandler) (rest : List RxHandler)
    → h.proto ≡ p
    → h.handler ≢ null
    → Free rest
    → p ≢ 0
    → deliver (h ∷ rest) p ≡ returns (h ∷ [])
unfolding deliver
deliver-first p h rest same live free ne =
    let hit : (h.proto == p) ≡ true = (==_iff h.proto p).1 same in
    rw (hit, ne→== live, deliver-Free p rest free ne) refl

-- A handler that is not NULL and is subscribed for a protocol other than 0, while an entry is free
-- behind the taken ones, is called for each packet of the protocol, behind the earlier handlers of it.
pub subscribe_to_rx-deliver :
    (layer : Ipv4) (used rest : List RxHandler) (p : ℕ) (handler ctx : Ptr)
    → layer.rx_handlers ≡ used ++ free_entry ∷ rest
    → Taken used
    → Free rest
    → p ≢ 0
    → handler ≢ null
    → let new : RxHandler = record { proto = p; handler = handler; ctx = ctx } in
      let r = subscribe_to_rx layer p handler ctx in
      (r.0 ≡ ok) × (deliver r.1.rx_handlers p ≡ returns (handlers_of p used ++ new ∷ []))
unfolding subscribe_to_rx
subscribe_to_rx-deliver layer used rest p handler ctx at taken free ne live =
    let new : RxHandler = record { proto = p; handler = handler; ctx = ctx } in
    let found : put_handler layer.rx_handlers new ≡ some (used ++ new ∷ rest) =
      subst (λ l. put_handler l new ≡ some (used ++ new ∷ rest)) (sym at)
        (put_handler-append used rest free_entry new taken refl) in
    let subscribed : subscribe_to_rx layer p handler ctx
        ≡ (ok, record layer { rx_handlers = used ++ new ∷ rest }) =
      ap (stored layer) found in
    let calls =
      deliver-append p used (new ∷ rest) (new ∷ []) taken
        (deliver-first p new rest refl live free ne) in
    rw subscribed (refl, calls)

-- When every entry is taken, subscribing fails and changes nothing.
pub subscribe_to_rx-nomem :
    (layer : Ipv4) (p : ℕ) (handler ctx : Ptr)
    → Taken layer.rx_handlers
    → subscribe_to_rx layer p handler ctx ≡ (nomem, layer)
unfolding subscribe_to_rx
subscribe_to_rx-nomem layer p handler ctx taken =
    ap (stored layer) (
      put_handler-full layer.rx_handlers (record { proto = p; handler = handler; ctx = ctx }) taken)

-- A packet of protocol 0 takes a free entry behind taken ones for a handler: the kernel calls NULL.
pub deliver-faults :
    (used rest : List RxHandler) → Taken used → deliver (used ++ free_entry ∷ rest) 0 ≡ faults
unfolding deliver
deliver-faults [] rest taken = refl
deliver-faults (u ∷ used) rest taken = rw (ne→== taken.0, deliver-faults used rest taken.2) refl
