-- ===== src/IntrusiveList/Tests.antt =====
-- The list operations at rings of concrete nodes, and the theorems at them.
use otrix.Prelude.{ℕ, ◌≡◌, refl, List, [], ◌∷◌, arith, Bool, ◌==◌, ltb, if◌then◌else◌, returns}
use otrix.IntrusiveList.{Ptr, Links, push_back, delete, link_last}
use otrix.IntrusiveList.Chain.{IsList}
use otrix.IntrusiveList.Erase.{delete-erase}
use otrix.IntrusiveList.Frame.{SameOutside, push_back-cons}
use otrix.IntrusiveList.PushBack.{push_back-append}

-- The ring 10, 20, 30, and every other object linked to itself.
abbrev three : Links
three = record {
  next = λ p. if p == 10 then 20 else if p == 20 then 30 else if p == 30 then 10 else p;
  prev = λ p. if p == 10 then 30 else if p == 20 then 10 else if p == 30 then 20 else p;
}

abbrev nodes : List Ptr
nodes = 10 ∷ 20 ∷ 30 ∷ []

three-IsList : IsList three 10 nodes
three-IsList = omega arith

-- What a walk from `p` meets in `k` steps.
visits : ℕ → Links → Ptr → List Ptr
visits ℕ.zero m p = []
visits (ℕ.suc k) m p = p ∷ visits k m (m.next p)

pushed_visits : visits 5 (link_last three 10 30 40) 40 ≡ 40 ∷ 10 ∷ 20 ∷ 30 ∷ 40 ∷ []
unfolding visits link_last
pushed_visits = refl

deleted_head : (delete three 10 10).0 ≡ 20
unfolding delete
deleted_head = refl

push_back-append_example : push_back three 10 40 ≡ returns (40, link_last three 10 30 40)
push_back-append_example =
    (push_back-append three 10 40 10 (20 ∷ 30 ∷ []) three-IsList (omega arith) (omega arith)).0

push_back-cons_example :
    (m' : Links) × (push_back three 10 40 ≡ returns (40, m'))
    × IsList m' 40 (40 ∷ nodes)
    × SameOutside (40 ∷ nodes) three m'
push_back-cons_example = push_back-cons three 10 40 nodes three-IsList (omega arith) (omega arith)

delete-erase_example : IsList (delete three 10 20).1 (delete three 10 20).0 (10 ∷ 30 ∷ [])
delete-erase_example = delete-erase three 10 20 nodes three-IsList refl

-- `compare` as the schedulers' callers have it: the first argument's key is larger.
abbrev above : Ptr → Ptr → Bool
above a b = ltb b a
