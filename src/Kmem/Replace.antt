-- ===== src/Kmem/Replace.antt =====
-- A node that takes the place of another in a list, as kmem_alloc does when it splits a block: the old
-- node is unlinked, and the new one inserted behind its predecessor.
use otrix.Prelude.{
  ◌≡◌, ◌≢◌, refl, sym, ap, subst, ◌∙◌, List, [], ◌∷◌, ◌++◌, append_assoc, arith, returns,
}
use otrix.IntrusiveList.{Ptr, null, Links, link_after, unlink_node, insert, delete}
use otrix.IntrusiveList.Chain.{IsList, Chain-next_ne, IsList-rotate, IsList-self}
use otrix.IntrusiveList.Distinct.{NotIn, NotIn-append, NotIn-split}
use otrix.IntrusiveList.Delete.{unlink_node-IsList, delete-last, delete-head, delete-inner}
use otrix.IntrusiveList.Insert.{insert-IsList}
use otrix.IntrusiveList.Frame.{SameOutside, unlink_node-SameOutside}

-- Deleting the node between `ys` and `zs`.
pub delete-IsList :
    (m : Links) (h p : Ptr) (ys zs : List Ptr)
    → IsList m h (ys ++ p ∷ zs)
    → IsList (delete m h p).1 (delete m h p).0 (ys ++ zs)
delete-IsList m h p [] [] is = rw (delete-last m h p is) refl
delete-IsList m h p [] (z ∷ zs) is =
    let same : h ≡ p = is.0 in
    let (e, left) = delete-head m h p z zs is in rw (← same) (rw e (rw e at left))
delete-IsList m h p (y ∷ ys) zs is =
    let (e, left) = delete-inner m h y p ys zs is in rw e (rw e at left)

-- `intrusive_list_insert` writes to the new node and its two neighbours.
pub link_after-SameOutside :
    (m : Links) (h p n : Ptr) (ys zs : List Ptr)
    → IsList m h (ys ++ p ∷ zs)
    → SameOutside (n ∷ (ys ++ p ∷ zs)) m (link_after m p n)
unfolding link_after
link_after-SameOutside m h p n [] zs is a out =
    ground (arith, Chain-next_ne m a p zs p is.1 out.1.1 out.1.0)
link_after-SameOutside m h p n (y ∷ ys) zs is a out =
    let turned = IsList-rotate m h y p ys zs is in
    let (left, right) = NotIn-split a (y ∷ ys) (p ∷ zs) out.1 in
    let others = NotIn-append a zs (y ∷ ys) right.1 left in
    ground (arith, Chain-next_ne m a p (zs ++ y ∷ ys) p turned.1 others right.0)

-- What the last node of a list that is not empty is.
snoc_split : (x : Ptr) (xs : List Ptr) → (ws : List Ptr) × (q : Ptr) × (x ∷ xs ≡ ws ++ q ∷ [])
snoc_split x [] = ([], x, refl)
snoc_split x (y ∷ ys) = let (ws, q, e) = snoc_split y ys in (x ∷ ws, q, cc)

-- Read from its predecessor `q`.
replace_second :
    (m : Links) (q p n : Ptr) (zs : List Ptr)
    → IsList m q (q ∷ p ∷ zs)
    → NotIn n (q ∷ p ∷ zs)
    → n ≢ null
    → (m.prev p ≡ q)
      × (insert (unlink_node m p) q n ≡ returns (n, link_after (unlink_node m p) q n))
      × IsList (link_after (unlink_node m p) q n) q (q ∷ n ∷ zs)
      × SameOutside (n ∷ q ∷ p ∷ zs) m (link_after (unlink_node m p) q n)
replace_second m q p n zs is out ne =
    let left = unlink_node-IsList m q q p [] zs is in
    let (calls, list) = insert-IsList (unlink_node m p) q n q [] zs left (out.0, out.1.1) ne in
    let same : SameOutside (n ∷ q ∷ p ∷ zs) m (link_after (unlink_node m p) q n) = λ a away.
      let once = unlink_node-SameOutside m q q p [] zs is a away.1 in
      let twice =
        link_after-SameOutside (unlink_node m p) q q n [] zs left a
          (away.0, (away.1.0, away.1.1.1)) in
      (twice.0 ∙ once.0, twice.1 ∙ once.1) in
    (is.1.1, calls, list, same)

-- The list starts with the new node when the old one was the head of several.
pub replace-head :
    (m : Links) (h p n y : Ptr) (zs : List Ptr)
    → IsList m h (p ∷ y ∷ zs)
    → NotIn n (p ∷ y ∷ zs)
    → n ≢ null
    → (m' : Links) × (insert (unlink_node m p) (m.prev p) n ≡ returns (n, m'))
      × (m.prev p ≢ p)
      × IsList m' n (n ∷ y ∷ zs)
      × SameOutside (n ∷ p ∷ y ∷ zs) m m'
replace-head m h p n y zs is out ne =
    let (ws, q, e) = snoc_split y zs in
    let ring = IsList-rotate m h p q ws [] (subst (λ xs. IsList m h (p ∷ xs)) e is) in
    let (left, right) = NotIn-split n ws (q ∷ []) (subst (NotIn n) e out.1) in
    let (before, calls, list, same) = replace_second m q p n ws ring (right.0, (out.0, left)) ne in
    (
      link_after (unlink_node m p) q n,
      rw before calls,
      (λ loop. ring.2.0.0 (sym before ∙ loop)),
      subst (λ xs. IsList (link_after (unlink_node m p) q n) n (n ∷ xs)) (sym e)
          (IsList-rotate _ q q n [] ws list),
      λ a away.
          let (l, r) = NotIn-split a ws (q ∷ []) (subst (NotIn a) e away.1.1) in
          same a (away.0, (r.0, (away.1.0, l))),
    )

-- The head stays when the old node was not the head.
replace_inner :
    (m : Links) (h p n x q : Ptr) (ws zs : List Ptr)
    → IsList m h (x ∷ (ws ++ q ∷ p ∷ zs))
    → NotIn n (x ∷ (ws ++ q ∷ p ∷ zs))
    → n ≢ null
    → (m' : Links) × (insert (unlink_node m p) (m.prev p) n ≡ returns (n, m'))
      × IsList m' h (x ∷ (ws ++ q ∷ n ∷ zs))
      × SameOutside (n ∷ x ∷ (ws ++ q ∷ p ∷ zs)) m m'
replace_inner m h p n x q ws zs is out ne =
    let ring = IsList-rotate m h x q ws (p ∷ zs) is in
    let turn : (a : Ptr) → NotIn a (x ∷ (ws ++ q ∷ p ∷ zs)) → NotIn a (q ∷ p ∷ (zs ++ x ∷ ws)) =
      λ a away.
        let (l, r) = NotIn-split a (x ∷ ws) (q ∷ p ∷ zs) away in
        (r.0, (r.1.0, NotIn-append a zs (x ∷ ws) r.1.1 l)) in
    let (before, calls, list, same) = replace_second m q p n (zs ++ x ∷ ws) ring (turn n out) ne in
    let back = IsList-rotate _ q q x (n ∷ zs) ws list in
    let head : h ≡ x = is.0 in
    (
      link_after (unlink_node m p) q n,
      rw before calls,
      rw head back,
      λ a away. same a (away.0, turn a away.1),
    )

pub replace-inner :
    (m : Links) (h p n x : Ptr) (ys zs : List Ptr)
    → IsList m h (x ∷ (ys ++ p ∷ zs))
    → NotIn n (x ∷ (ys ++ p ∷ zs))
    → n ≢ null
    → (m' : Links) × (insert (unlink_node m p) (m.prev p) n ≡ returns (n, m'))
      × IsList m' h (x ∷ (ys ++ n ∷ zs))
      × SameOutside (n ∷ x ∷ (ys ++ p ∷ zs)) m m'
replace-inner m h p n x [] zs is out ne =
    let head : h ≡ x = is.0 in
    let (before, calls, list, same) =
      replace_second m x p n zs (IsList-self m h x (p ∷ zs) is) out ne in
    (link_after (unlink_node m p) x n, rw before calls, rw head list, same)
replace-inner m h p n x (y ∷ ys) zs is out ne =
    let (ws, q, e) = snoc_split y ys in
    let shape : (k : Ptr) → x ∷ ((y ∷ ys) ++ k ∷ zs) ≡ x ∷ (ws ++ q ∷ k ∷ zs) = λ k.
      ap (λ xs. x ∷ (xs ++ k ∷ zs)) e ∙ ap (λ xs. x ∷ xs) (append_assoc ws (q ∷ []) (k ∷ zs)) in
    let (m', calls, list, same) =
      replace_inner m h p n x q ws zs (subst (IsList m h) (shape p) is)
        (subst (NotIn n) (shape p) out) ne in
    (
      m',
      calls,
      subst (IsList m' h) (sym (shape n)) list,
      λ a away. same a (away.0, subst (NotIn a) (shape p) away.1),
    )
