-- ===== src/IntrusiveList/Neighbours.antt =====
-- The nodes next to a node of a list, and unlinking one of them.
use otrix.Prelude.{◌≡◌, sym, ap, subst, List, [], ◌∷◌, ◌++◌, append_assoc}
use otrix.IntrusiveList.{Ptr, Links, unlink_node}
use otrix.IntrusiveList.Chain.{Chain, IsList, Chain-split}
use otrix.IntrusiveList.Delete.{unlink_node-IsList}
use otrix.IntrusiveList.Frame.{SameOutside, unlink_node-SameOutside}

-- Two nodes in a row are linked with each other.
pub neighbours :
    (m : Links) (h q n : Ptr) (ws zs : List Ptr)
    → IsList m h (ws ++ q ∷ n ∷ zs)
    → (m.next q ≡ n) × (m.prev n ≡ q)
neighbours m h q n [] zs is = (is.1.0, is.1.1)
neighbours m h q n (w ∷ ws) zs is =
    let (left, right) = Chain-split m w ws q (n ∷ zs) w is.1 in (right.0, right.1)

-- The last node is followed by the head.
pub next-last : (m : Links) (h q : Ptr) (ws : List Ptr) → IsList m h (ws ++ q ∷ []) → m.next q ≡ h
next-last m h q [] is = cc
next-last m h q (w ∷ ws) is = let (left, right) = Chain-split m w ws q [] w is.1 in cc

abbrev pub last_of : Ptr → List Ptr → Ptr
last_of a [] = a
last_of a (x ∷ xs) = last_of x xs

Chain-last :
    (m : Links) (a : Ptr) (xs : List Ptr) (b : Ptr) → Chain m a xs b → m.prev b ≡ last_of a xs
Chain-last m a [] b c = c.1
Chain-last m a (x ∷ xs) b c = Chain-last m x xs b c.2

-- The head is preceded by the last node.
pub prev-head :
    (m : Links) (h x : Ptr) (xs : List Ptr) → IsList m h (x ∷ xs) → m.prev x ≡ last_of x xs
prev-head m h x xs is = Chain-last m x xs x is.1

-- Unlinking the node behind another.
pub unlink_behind :
    (m : Links) (h q n : Ptr) (ws zs : List Ptr)
    → IsList m h (ws ++ q ∷ n ∷ zs)
    → IsList (unlink_node m n) h (ws ++ q ∷ zs) × SameOutside (ws ++ q ∷ n ∷ zs) m (unlink_node m n)
unlink_behind m h q n [] zs is =
    (unlink_node-IsList m h q n [] zs is, unlink_node-SameOutside m h q n [] zs is)
unlink_behind m h q n (w ∷ ws) zs is =
    let shape : (ks : List Ptr) → w ∷ (ws ++ q ∷ ks) ≡ w ∷ ((ws ++ q ∷ []) ++ ks) =
      λ ks. ap (λ xs. w ∷ xs) (sym (append_assoc ws (q ∷ []) ks)) in
    let is' = subst (IsList m h) (shape (n ∷ zs)) is in
    (
      subst (IsList (unlink_node m n) h) (sym (shape zs))
          (unlink_node-IsList m h w n (ws ++ q ∷ []) zs is'),
      subst (λ xs. SameOutside xs m (unlink_node m n)) (sym (shape (n ∷ zs)))
          (unlink_node-SameOutside m h w n (ws ++ q ∷ []) zs is'),
    )
