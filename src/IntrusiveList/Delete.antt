-- ===== src/IntrusiveList/Delete.antt =====
-- `intrusive_list_unlink_node` and `intrusive_list_delete` on the sequences of a list.
use otrix.Prelude.{◌≡◌, ◌≢◌, refl, sym, List, [], ◌∷◌, ◌++◌, append-nil, arith, false, ◌==◌}
use otrix.IntrusiveList.{Ptr, null, Links, set_next, set_prev, unlink_node, delete}
use otrix.IntrusiveList.Distinct.{NotIn, Distinct, NotIn-split, NotIn-remove, Distinct-remove}
use otrix.IntrusiveList.Chain.{
  Chain, IsList, Chain-set_next, Chain-set_prev, Chain-prev_ne, Chain-next_ne, Chain-split,
  IsList-rotate,
}

-- The two writes of `intrusive_list_unlink_node`, between the neighbours `p` and `q`.
abbrev bypass : Links → Ptr → Ptr → Links
bypass m p q = set_prev (set_next m p q) q p

module _ (m : Links) (n p q b : Ptr) where
  Chain-bypass_next :
      (a : Ptr) (zs : List Ptr)
      → p ≡ a
      → q ≡ m.next n
      → Chain m n zs b
      → Distinct (a ∷ zs)
      → NotIn b zs
      → Chain (bypass m p q) a zs b
  Chain-bypass_next a [] ep eq c d k = ground arith
  Chain-bypass_next a (z ∷ zs) ep eq c d k =
      let apart : NotIn p zs = rw ep d.0.1 in
      let fresh : NotIn q zs = rw (eq, c.0) d.1.0 in
      let kept : Chain (set_next m p q) z zs b =
        Chain-set_next m p q z zs b c.2 (ground arith) apart in
      (
        ground arith,
        ground arith,
        Chain-set_prev (set_next m p q) q p z zs b kept fresh (ground arith),
      )

  Chain-bypass :
      (a : Ptr) (ys zs : List Ptr)
      → p ≡ m.prev n
      → q ≡ m.next n
      → Chain m a (ys ++ n ∷ zs) b
      → Distinct (a ∷ (ys ++ n ∷ zs))
      → NotIn b (ys ++ n ∷ zs)
      → Chain (bypass m p q) a (ys ++ zs) b
  Chain-bypass a [] zs ep eq c d k = Chain-bypass_next a zs (ground arith) eq c.2 (d.0.1, d.1.1) k.1
  Chain-bypass a (y ∷ ys) zs ep eq c d k =
      let (cy, cz) = Chain-split m y ys n zs b c.2 in
      let out = NotIn-split a ys (n ∷ zs) d.0.1 in
      let off = NotIn-split y ys (n ∷ zs) d.1.0 in
      let rest = Chain-bypass y ys zs ep eq c.2 d.1 k.1 in
      ground (
        arith,
        rest,
        Chain-prev_ne m a y ys n cy (d.0.0, out.0),
        Chain-next_ne m y n zs b cz off.1.1,
      )

unlink_node-bypass :
    (m : Links) (n : Ptr)
    → n ≢ null
    → m.prev n ≢ n
    → unlink_node m n ≡ bypass m (m.prev n) (m.next n)
unfolding unlink_node
unlink_node-bypass m n h k = ground arith

-- Unlinking a node other than the head leaves the ring of the other nodes, in order.
pub unlink_node-IsList :
    (m : Links) (h x n : Ptr) (ys zs : List Ptr)
    → IsList m h (x ∷ (ys ++ n ∷ zs))
    → IsList (unlink_node m n) h (x ∷ (ys ++ zs))
unlink_node-IsList m h x n ys zs is =
    let (d, left, right) = Distinct-remove n (x ∷ ys) zs is.2 in
    let (cy, cz) = Chain-split m x ys n zs x is.1 in
    let (_, valid) = NotIn-split null (x ∷ ys) (n ∷ zs) is.3 in
    let fresh = Chain-prev_ne m n x ys n cy left in
    let linked = Chain-bypass m n _ _ x x ys zs refl refl is.1 is.2 is.2.0 in
    rw (unlink_node-bypass m n (ground arith) (λ e. fresh (sym e)))
      (is.0, linked, d, NotIn-remove null n (x ∷ ys) zs is.3)

-- Deleting a node that is not the head keeps the head, and the other nodes in order.
pub delete-inner :
    (m : Links) (h x n : Ptr) (ys zs : List Ptr)
    → IsList m h (x ∷ (ys ++ n ∷ zs))
    → (delete m h n ≡ (h, unlink_node m n)) × IsList (delete m h n).1 h (x ∷ (ys ++ zs))
unfolding delete
delete-inner m h x n ys zs is =
    let out = NotIn-split x ys (n ∷ zs) is.2.0 in
    let ne : (n == h) ≡ false = ground arith in rw ne (refl, unlink_node-IsList m h x n ys zs is)

delete_head : (m : Links) (x y : Ptr) → m.next x ≡ y → x ≢ y → delete m x x ≡ (y, unlink_node m x)
unfolding delete
delete_head m x y e ne = ground arith

-- Deleting the head makes the second node the head.
pub delete-head :
    (m : Links) (h x y : Ptr) (ys : List Ptr)
    → IsList m h (x ∷ y ∷ ys)
    → (delete m h h ≡ (y, unlink_node m h)) × IsList (delete m h h).1 y (y ∷ ys)
delete-head m h x y ys is =
    let turned = unlink_node-IsList m y y x ys [] (IsList-rotate m h x y [] ys is) in
    let e : delete m h h ≡ (y, unlink_node m h) =
      rw is.0 (delete_head m x y is.1.0 (λ e. is.2.0.0 e)) in
    (e, rw (e, is.0) (rw append-nil at turned))

-- Deleting the only node leaves NULL.
pub delete-last : (m : Links) (h x : Ptr) → IsList m h (x ∷ []) → delete m h x ≡ (null, m)
unfolding delete
delete-last m h x is = ground arith
