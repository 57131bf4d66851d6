-- ===== src/IntrusiveList/Insert.antt =====
-- `intrusive_list_insert` on the sequences of a list.
use otrix.Prelude.{◌≡◌, ◌≢◌, sym, subst, List, [], ◌∷◌, ◌++◌, arith, returns}
use otrix.IntrusiveList.{Ptr, null, Links, set_next, set_prev, link_after, insert}
use otrix.IntrusiveList.Distinct.{NotIn, Distinct, NotIn-append, NotIn-split}
use otrix.IntrusiveList.Chain.{Chain, IsList, Chain-set_next, Chain-set_prev, IsList-rotate}

link_after-writes :
    (m : Links) (a x n : Ptr)
    → m.next a ≡ x
    → x ≢ null
    → link_after m a n ≡ set_next (set_prev (set_prev (set_next m n x) x n) n a) a n
unfolding link_after
link_after-writes m a x n e ne = ground arith

module _ (m : Links) (n a x b : Ptr) (xs : List Ptr) where
  Chain-writes :
      Chain m x xs b
      → NotIn n (x ∷ xs)
      → n ≢ b
      → NotIn a (x ∷ xs)
      → NotIn x xs
      → x ≢ b
      → Chain (set_next (set_prev (set_prev (set_next m n x) x n) n a) a n) x xs b
  Chain-writes c out ne d k w =
      let c1 = Chain-set_next m n x x xs b c out.0 out.1 in
      let c2 = Chain-set_prev _ x n x xs b c1 k w in
      let c3 = Chain-set_prev _ n a x xs b c2 out.1 ne in Chain-set_next _ a n x xs b c3 d.0 d.1

link_after_last :
    (m : Links) (n a b : Ptr)
    → Chain m a [] b
    → n ≢ a
    → n ≢ b
    → b ≢ null
    → Chain (link_after m a n) a (n ∷ []) b
unfolding link_after
link_after_last m n a b c out ne w = ground arith

Chain-link_after :
    (m : Links) (n a : Ptr) (xs : List Ptr) (b : Ptr)
    → Chain m a xs b
    → NotIn n (a ∷ xs)
    → n ≢ b
    → NotIn null xs
    → b ≢ null
    → Distinct (a ∷ xs)
    → NotIn b xs
    → Chain (link_after m a n) a (n ∷ xs) b
Chain-link_after m n a [] b c out ne v w d k = link_after_last m n a b c out.0 ne w
Chain-link_after m n a (x ∷ xs) b c out ne v w d k =
    let away : x ≢ null = ground arith in
    let rest = Chain-writes m n a x b xs c.2 out.1 ne d.0 d.1.0 (ground arith) in
    subst (λ m'. Chain m' a (n ∷ x ∷ xs) b) (sym (link_after-writes m a x n c.0 away))
      (ground arith, ground arith, (ground arith, ground arith, rest))

insert_first :
    (m : Links) (h n x : Ptr) (xs : List Ptr)
    → IsList m h (x ∷ xs)
    → NotIn n (x ∷ xs)
    → n ≢ null
    → IsList (link_after m x n) h (x ∷ n ∷ xs)
insert_first m h n x xs is out ne = (
  is.0,
  Chain-link_after m n x xs x is.1 out out.0 is.3.1 (ground arith) is.2 is.2.0,
  (((λ e. out.0 (sym e)), is.2.0), (out.1, is.2.1)),
  (is.3.0, ((λ e. ne (sym e)), is.3.1)),
)

-- Inserting a fresh node after the member `p` of a list puts it right behind `p`, and moves nothing
-- else: also after the last node, where the list stays closed.
pub insert-IsList :
    (m : Links) (h n p : Ptr) (ys zs : List Ptr)
    → IsList m h (ys ++ p ∷ zs)
    → NotIn n (ys ++ p ∷ zs)
    → n ≢ null
    → (insert m p n ≡ returns (n, link_after m p n))
      × IsList (link_after m p n) h (ys ++ p ∷ n ∷ zs)
unfolding insert
insert-IsList m h n p [] zs is out ne = (ground arith, insert_first m h n p zs is out ne)
insert-IsList m h n p (y ∷ ys) zs is out ne =
    let turned = IsList-rotate m h y p ys zs is in
    let (left, right) = NotIn-split n (y ∷ ys) (p ∷ zs) out in
    let fresh = NotIn-append n (p ∷ zs) (y ∷ ys) right left in
    let back = insert_first m p n p (zs ++ y ∷ ys) turned fresh ne in
    let again = IsList-rotate (link_after m p n) p p y (n ∷ zs) ys back in
    let same : h ≡ y = is.0 in let valid : p ≢ null = ground arith in (ground arith, rw same again)
