-- ===== src/IntrusiveList/PushBack.antt =====
-- `intrusive_list_init` and `intrusive_list_push_back` on the sequences of a list.
use otrix.Prelude.{◌≡◌, ◌≢◌, refl, List, [], ◌∷◌, ◌++◌, arith, returns}
use otrix.IntrusiveList.{Ptr, null, Links, self_link, link_last, push_back}
use otrix.IntrusiveList.Distinct.{NotIn, Distinct, NotIn-append, Distinct-append, Apart-sym}
use otrix.IntrusiveList.Chain.{Chain, IsList, Chain-prev_ne, IsList-rotate}

module _ (m : Links) (b l t : Ptr) (last : l ≡ m.prev b) where
  Chain-link_last :
      (a : Ptr) (xs : List Ptr)
      → Chain m a xs b
      → NotIn t (a ∷ xs)
      → t ≢ b
      → Distinct (a ∷ xs)
      → NotIn b xs
      → Chain (link_last m b l t) a (xs ++ t ∷ []) b
  unfolding link_last
  Chain-link_last a [] c out ne d k = ground arith
  Chain-link_last a (x ∷ xs) c out ne d k =
      ground (arith, Chain-link_last x xs c.2 out.1 ne d.1 k.1, Chain-prev_ne m a x xs b c.2 d.0)

pushed-IsList :
    (m : Links) (h t x : Ptr) (xs : List Ptr)
    → IsList m h (x ∷ xs)
    → t ≢ null
    → NotIn t (x ∷ xs)
    → IsList (link_last m h (m.prev h) t) h (x ∷ (xs ++ t ∷ []))
pushed-IsList m h t x xs is ne out =
    let e : h ≡ x = is.0 in
    rw e (
      refl,
      Chain-link_last m x (m.prev x) t refl x xs is.1 out (ground arith) is.2 is.2.0,
      Distinct-append (x ∷ xs) (t ∷ []) is.2 (tt, tt) (Apart-sym (t ∷ []) (x ∷ xs) (out, tt)),
      NotIn-append null (x ∷ xs) (t ∷ []) is.3 (ground arith),
    )

-- Pushing onto a list of distinct nodes, for a node that is not among them: the call returns the new
-- node, a reader that starts at the old head finds the new node last, and a reader that starts at the
-- pointer returned finds it first.
pub push_back-append :
    (m : Links) (h t x : Ptr) (xs : List Ptr)
    → IsList m h (x ∷ xs)
    → t ≢ null
    → NotIn t (x ∷ xs)
    → (push_back m h t ≡ returns (t, link_last m h (m.prev h) t))
      × IsList (link_last m h (m.prev h) t) h (x ∷ (xs ++ t ∷ []))
      × IsList (link_last m h (m.prev h) t) t (t ∷ x ∷ xs)
unfolding push_back
push_back-append m h t x xs is ne out =
    let pushed : IsList (link_last m h (m.prev h) t) h (x ∷ (xs ++ t ∷ [])) =
      pushed-IsList m h t x xs is ne out in
    (ground arith, pushed, IsList-rotate _ h x t xs [] pushed)

-- Pushing onto NULL makes a list of one node.
pub push_back-null :
    (m : Links) (t : Ptr)
    → t ≢ null
    → (push_back m null t ≡ returns (t, self_link m t)) × IsList (self_link m t) t (t ∷ [])
unfolding push_back
push_back-null m t ne = ground arith
