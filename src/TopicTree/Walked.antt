-- ===== src/TopicTree/Walked.antt =====
-- The tree after a walk of `getNode` of mqtt/src/topictree.cpp: what the filter reaches is there, no
-- subscribers have changed, and each level has one link still.
use culex_mqtt_broker.Common.{
  ℕ, ◌≡◌, refl, sym, ◌∙◌, true, ◌||◌, List, [], ◌∷◌, ◌++◌, none, some, ◌==◌, string_eq, if-cases,
  none-or-some, inl, inr, arith,
}
use culex_mqtt_broker.TopicTree.{
  Node, Links, node, no_links, link, NodePath, Subscribers, find_link, set_link, plus_sign,
  hash_sign, has_links, link_or_new, each_link, get_node, subscribers_at,
}
use culex_mqtt_broker.TopicTree.Store.{has_node, find_link-set_link, find_link_or_new}
use culex_mqtt_broker.TopicTree.Filters.{
  reaches, IsTree, IsTreeBelow, set_link-IsTreeBelow, link_or_new-IsTree,
}
use culex_mqtt_broker.TopicTree.Reached.{by_plus, by_hash, by_level, reaches-cases}

-- The children after the recursive calls.
find_link-each_link :
    (f : Node → NodePath → Node × List NodePath) (path : NodePath) (v : List ℕ) (ls : Links)
    → find_link v (each_link f path ls).0
      ≡ elim (find_link v ls) [ none ↦ none | some n ↦ some (f n (path ++ v ∷ [])).0 ]
unfolding find_link each_link
find_link-each_link f path v no_links = refl
find_link-each_link f path v (link k n ls) =
    ground (arith, string_eq.same_iff k v, find_link-each_link f path v ls)

has_node-found :
    (v : List ℕ) (p : NodePath) (n : Node) (l : List ℕ) (ls : Links) (s : Subscribers)
    → find_link v ls ≡ some n
    → has_node p n ≡ true
    → has_node (v ∷ p) (node l ls s) ≡ true
unfolding has_node
has_node-found v p n l ls s there ok = ground (arith, there, ok)

subscribers_at-found :
    (v : List ℕ) (p : NodePath) (n : Node) (l : List ℕ) (ls : Links) (s : Subscribers)
    → find_link v ls ≡ some n
    → subscribers_at (v ∷ p) (node l ls s) ≡ subscribers_at p n
unfolding subscribers_at
subscribers_at-found v p n l ls s there = ground (arith, there)

subscribers_at-missing :
    (v : List ℕ) (p : NodePath) (l : List ℕ) (ls : Links) (s : Subscribers)
    → find_link v ls ≡ none
    → subscribers_at (v ∷ p) (node l ls s) ≡ []
unfolding subscribers_at
subscribers_at-missing v p l ls s there = ground (arith, there)

has_node-each_link :
    (f : Node → NodePath → Node × List NodePath) (path : NodePath) (v : List ℕ) (p : NodePath)
    (n : Node) (l : List ℕ) (ls : Links) (s : Subscribers)
    → find_link v ls ≡ some n
    → has_node p (f n (path ++ v ∷ [])).0 ≡ true
    → has_node (v ∷ p) (node l (each_link f path ls).0 s) ≡ true
has_node-each_link f path v p n l ls s there ok =
    has_node-found v p (f n (path ++ v ∷ [])).0 l (each_link f path ls).0 s
      (rw (find_link-each_link f path v ls, there) refl) ok

subscribers_at-each_link :
    (f : Node → NodePath → Node × List NodePath) (path : NodePath) (v : List ℕ) (p : NodePath)
    (l : List ℕ) (ls : Links) (s : Subscribers)
    → ((n : Node) (path : NodePath) → subscribers_at p (f n path).0 ≡ subscribers_at p n)
    → subscribers_at (v ∷ p) (node l (each_link f path ls).0 s)
      ≡ subscribers_at (v ∷ p) (node l ls s)
subscribers_at-each_link f path v p l ls s keeps = elim (none-or-some (find_link v ls)) [
  | inl missing ↦
      subscribers_at-missing v p l (each_link f path ls).0 s
        (rw (find_link-each_link f path v ls, missing) refl)
      ∙ sym (subscribers_at-missing v p l ls s missing)
  | inr (n, there) ↦
      subscribers_at-found v p (f n (path ++ v ∷ [])).0 l (each_link f path ls).0 s
        (rw (find_link-each_link f path v ls, there) refl)
      ∙ keeps n (path ++ v ∷ [])
      ∙ sym (subscribers_at-found v p n l ls s there)
]

-- What the filter reaches is there after the walk.
pub get_node-has_node :
    (ws : List (List ℕ)) (n : Node) (path p : NodePath)
    → reaches ws p n ≡ true
    → has_node p (get_node ws n path).0 ≡ true
unfolding get_node
get_node-has_node [] n path [] h = unfold has_node in refl
get_node-has_node [] n path (v ∷ p) h = unfold reaches in cc
get_node-has_node (w ∷ ws) (node l ls s) path p h =
    let (how, some_link) = reaches-cases w ws p l ls s h in
    elim how [
      | by_plus v q m plus at there ok ↦
          rw (at, plus, some_link (ground arith))
            (has_node-each_link (get_node ws) path v q m l ls s there
              (get_node-has_node ws m (path ++ v ∷ []) q ok))
      | by_hash other hash there ↦ rw (other, hash, some_link (ground arith)) there
      | by_level q level at ok ↦
          let child = (get_node ws (link_or_new w ls) (path ++ w ∷ [])).0 in
          rw (at, level)
            (has_node-found w q child l (set_link w child ls) s
              (rw (find_link-set_link w w child ls, (string_eq.same_iff w w).1 refl) refl)
              (get_node-has_node ws (link_or_new w ls) (path ++ w ∷ []) q ok))
    ]

-- A walk changes no subscribers.
pub subscribers_at-walk :
    (ws : List (List ℕ)) (n : Node) (path p : NodePath)
    → subscribers_at p (get_node ws n path).0 ≡ subscribers_at p n
unfolding subscribers_at get_node
subscribers_at-walk [] n path p = refl
subscribers_at-walk (w ∷ ws) (node l ls s) path [] =
    let child = (get_node ws (link_or_new w ls) (path ++ w ∷ [])).0 in ground arith
subscribers_at-walk (w ∷ ws) (node l ls s) path (v ∷ p) =
    let Same : Node × List NodePath → Type 0 =
      λ r. subscribers_at (v ∷ p) r.0 ≡ subscribers_at (v ∷ p) (node l ls s) in
    let child = (get_node ws (link_or_new w ls) (path ++ w ∷ [])).0 in
    if-cases Same (w == plus_sign || w == hash_sign) _ _
      (λ wild.
        if-cases Same (has_links ls) _ _
          (λ some_link.
            if-cases Same (w == plus_sign) _ _
              (λ plus.
                subscribers_at-each_link (get_node ws) path v p l ls s
                  (λ n path. subscribers_at-walk ws n path p))
              (λ hash. refl))
          (λ no_link. refl))
      (λ level. ground (
        arith,
        find_link-set_link v w child ls,
        string_eq.same_iff w v,
        find_link_or_new p v l ls s,
        subscribers_at-walk ws (link_or_new w ls) (path ++ w ∷ []) p,
      ))

module _ (f : Node → NodePath → Node × List NodePath)
    (keeps : (n : Node) (path : NodePath) → IsTree n → IsTree (f n path).0) where
  each_link-IsTreeBelow :
      (path : NodePath) (ls : Links) → IsTreeBelow ls → IsTreeBelow (each_link f path ls).0
  unfolding each_link IsTreeBelow
  each_link-IsTreeBelow path no_links t = tt
  each_link-IsTreeBelow path (link k n ls) t = (
    rw (find_link-each_link f path k ls, t.0),
    keeps n (path ++ k ∷ []) t.1,
    each_link-IsTreeBelow path ls t.2,
  )

node-IsTree : (l : List ℕ) (ls : Links) (s : Subscribers) → IsTreeBelow ls → IsTree (node l ls s)
unfolding IsTree
node-IsTree l ls s t = t

pub get_node-IsTree :
    (ws : List (List ℕ)) (n : Node) (path : NodePath) → IsTree n → IsTree (get_node ws n path).0
unfolding get_node
get_node-IsTree [] n path t = t
get_node-IsTree (w ∷ ws) (node l ls s) path t =
    let Tree : Node × List NodePath → Type 0 = λ r. IsTree r.0 in
    let below : IsTreeBelow ls = unfold IsTree in t in
    if-cases Tree (w == plus_sign || w == hash_sign) _ _
      (λ wild.
        if-cases Tree (has_links ls) _ _
          (λ some_link.
            if-cases Tree (w == plus_sign) _ _
              (λ plus. node-IsTree l _ s (
                each_link-IsTreeBelow (get_node ws) (λ n path t. get_node-IsTree ws n path t) path
                  ls below))
              (λ hash. t))
          (λ no_link. t))
      (λ level. node-IsTree l _ s (
        set_link-IsTreeBelow w _ ls
          (get_node-IsTree ws (link_or_new w ls) (path ++ w ∷ []) (link_or_new-IsTree w ls below))
          below))
