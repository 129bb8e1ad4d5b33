-- ===== src/TopicTree/Reached.antt =====
-- `getNode` of mqtt/src/topictree.cpp finds every node that the filter reaches, those that it adds
-- included.
use culex_mqtt_broker.Common.{
  ℕ, ◌≡◌, refl, sym, ap, Bool, true, false, ◌||◌, List, [], ◌∷◌, ◌++◌, none, some, ◌==◌, string_eq,
  if-cases, Option-cases, Bool-cases, inl, inr, arith,
}
use mathlib.Core.Path.{subst}
use mathlib.Core.Option.{some-injective}
use mathlib.Core.List.{append_assoc, append-nil}
use culex_mqtt_broker.TopicTree.{
  Node, Links, node, no_links, link, NodePath, Subscribers, find_link, plus_sign, hash_sign,
  has_links, link_or_new, handle_wild_card, handle_links, each_link, get_node,
}
use culex_mqtt_broker.TopicTree.Store.{has_node}
use culex_mqtt_broker.TopicTree.Filters.{reaches, path_in, path_in-append, path_beq_refl}

-- The child by which a path goes on.
has_node-child :
    (v : List ℕ) (p : NodePath) (l : List ℕ) (ls : Links) (s : Subscribers)
    → has_node (v ∷ p) (node l ls s) ≡ true
    → (n : Node) × (find_link v ls ≡ some n) × (has_node p n ≡ true)
unfolding has_node
has_node-child v p l ls s h =
    Option-cases (λ b. b ≡ true → (n : Node) × (find_link v ls ≡ some n) × (has_node p n ≡ true))
      (find_link v ls) _ _ (λ missing e. cc) (λ n there e. (n, there, e)) h

-- The first of several lists of paths, and the others.
in_first :
    (p : NodePath) (ps qs : List NodePath) → path_in p ps ≡ true → path_in p (ps ++ qs) ≡ true
in_first p ps qs h = rw (path_in-append p ps qs, h)

in_others :
    (p : NodePath) (ps qs : List NodePath) → path_in p qs ≡ true → path_in p (ps ++ qs) ≡ true
in_others p ps qs h = rw (path_in-append p ps qs) (ground arith)

module _ (test : Node → NodePath → Bool) (f : Node → NodePath → Node × List NodePath)
    (complete : (n : Node) (path p : NodePath)
      → test n p ≡ true
      → path_in (path ++ p) (f n path).1 ≡ true) where
  each_link_complete :
      (path : NodePath) (v : List ℕ) (p : NodePath) (n : Node) (ls : Links)
      → find_link v ls ≡ some n
      → test n p ≡ true
      → path_in (path ++ v ∷ p) (each_link f path ls).1 ≡ true
  unfolding each_link find_link
  each_link_complete path v p n no_links there ok = cc
  each_link_complete path v p n (link k m ls) there ok =
      if-cases (λ o. o ≡ some n → path_in (path ++ v ∷ p) (each_link f path (link k m ls)).1 ≡ true)
        (k == v) _ _
        (λ same here.
          let found : path_in ((path ++ k ∷ []) ++ p) (f m (path ++ k ∷ [])).1 ≡ true =
            complete m (path ++ k ∷ []) p
              (subst (λ x. test x p ≡ true) (sym (some-injective m n here)) ok) in
          in_first (path ++ v ∷ p) (f m (path ++ k ∷ [])).1 (each_link f path ls).1 (
            subst (λ x. path_in (path ++ x ∷ p) (f m (path ++ k ∷ [])).1 ≡ true)
              ((string_eq.same_iff k v).0 same)
              (subst (λ x. path_in x (f m (path ++ k ∷ [])).1 ≡ true) (append_assoc path (k ∷ []) p)
                found)))
        (λ other later.
          in_others (path ++ v ∷ p) (f m (path ++ k ∷ [])).1 (each_link f path ls).1
            (each_link_complete path v p n ls later ok))
        there

mutual
  unfolding handle_wild_card handle_links path_in find_link

  handle_wild_card_complete :
      (path p : NodePath) (n : Node)
      → has_node p n ≡ true
      → path_in (path ++ p) (handle_wild_card path n) ≡ true
  handle_wild_card_complete path [] (node l ls s) h = rw (append-nil path, path_beq_refl path)
  handle_wild_card_complete path (v ∷ p) (node l ls s) h =
      let (n, there, ok) = has_node-child v p l ls s h in
      in_others (path ++ v ∷ p) (path ∷ []) (handle_links path ls)
        (handle_links_complete path v p n ls there ok)

  handle_links_complete :
      (path : NodePath) (v : List ℕ) (p : NodePath) (n : Node) (ls : Links)
      → find_link v ls ≡ some n
      → has_node p n ≡ true
      → path_in (path ++ v ∷ p) (handle_links path ls) ≡ true
  handle_links_complete path v p n no_links there ok = cc
  handle_links_complete path v p n (link k m ls) there ok =
      if-cases (λ o. o ≡ some n → path_in (path ++ v ∷ p) (handle_links path (link k m ls)) ≡ true)
        (k == v) _ _
        (λ same here.
          let found : path_in ((path ++ k ∷ []) ++ p) (handle_wild_card (path ++ k ∷ []) m) ≡ true =
            handle_wild_card_complete (path ++ k ∷ []) p m
              (subst (λ x. has_node p x ≡ true) (sym (some-injective m n here)) ok) in
          in_first (path ++ v ∷ p) (handle_wild_card (path ++ k ∷ []) m) (handle_links path ls) (
            subst (λ x. path_in (path ++ x ∷ p) (handle_wild_card (path ++ k ∷ []) m) ≡ true)
              ((string_eq.same_iff k v).0 same)
              (subst (λ x. path_in x (handle_wild_card (path ++ k ∷ []) m) ≡ true)
                (append_assoc path (k ∷ []) p) found)))
        (λ other later.
          in_others (path ++ v ∷ p) (handle_wild_card (path ++ k ∷ []) m) (handle_links path ls)
            (handle_links_complete path v p n ls later ok))
        there

-- What the filter reaches, by its first level.
pub data Reaches (w : List ℕ) (ws : List (List ℕ)) (p : NodePath) (ls : Links) (n : Node)
    : Type 0 where
  by_plus :
      (v : List ℕ) (q : NodePath) (m : Node)
      → (w == plus_sign) ≡ true
      → p ≡ v ∷ q
      → find_link v ls ≡ some m
      → reaches ws q m ≡ true
      → Reaches w ws p ls n
  by_hash :
      (w == plus_sign) ≡ false → (w == hash_sign) ≡ true → has_node p n ≡ true → Reaches w ws p ls n
  by_level :
      (q : NodePath)
      → (w == plus_sign || w == hash_sign) ≡ false
      → p ≡ w ∷ q
      → reaches ws q (link_or_new w ls) ≡ true
      → Reaches w ws p ls n

has_links-some :
    (v : List ℕ) (n : Node) (ls : Links) → find_link v ls ≡ some n → has_links ls ≡ true
unfolding find_link
has_links-some v n no_links h = cc
has_links-some v n (link k m ls) h = refl

reached_child :
    (ws : List (List ℕ)) (v : List ℕ) (p : NodePath) (ls : Links)
    → elim (find_link v ls) as (λ _. Bool) [ none ↦ false | some n ↦ reaches ws p n ] ≡ true
    → (n : Node) × (find_link v ls ≡ some n) × (reaches ws p n ≡ true)
reached_child ws v p ls h =
    Option-cases (λ b. b ≡ true → (n : Node) × (find_link v ls ≡ some n) × (reaches ws p n ≡ true))
      (find_link v ls) _ _ (λ missing e. cc) (λ n there e. (n, there, e)) h

pub reaches-cases :
    (w : List ℕ) (ws : List (List ℕ)) (p : NodePath) (l : List ℕ) (ls : Links) (s : Subscribers)
    → reaches (w ∷ ws) p (node l ls s) ≡ true
    → (Reaches w ws p ls (node l ls s))
      × ((w == plus_sign || w == hash_sign) ≡ true → has_links ls ≡ true)
unfolding reaches
reaches-cases w ws [] l ls s h =
    (by_hash (ground arith) (ground arith) (unfold has_node in refl), λ wild. ground arith)
reaches-cases w ws (v ∷ p) l ls s h = elim (Bool-cases (w == plus_sign)) [
  | inl plus ↦
      let (n, there, ok) = reached_child ws v p ls (ground arith) in
      (by_plus v p n plus refl there ok, λ wild. has_links-some v n ls there)
  | inr other ↦ elim (Bool-cases (w == hash_sign)) [
    | inl hash ↦
        let below : has_node (v ∷ p) (node l ls s) ≡ true = ground arith in
        let (n, there, ok) = has_node-child v p l ls s below in
        (by_hash other hash below, λ wild. has_links-some v n ls there)
    | inr level ↦
        let same : w ≡ v = (string_eq.same_iff w v).0 (ground arith) in
        (
          by_level p (ground arith) (ap (λ x. x ∷ p) (sym same)) (ground arith),
          λ wild. ground arith,
        )
  ]
]

-- The walk finds every node that the filter reaches.
pub get_node_complete :
    (ws : List (List ℕ)) (n : Node) (path p : NodePath)
    → reaches ws p n ≡ true
    → path_in (path ++ p) (get_node ws n path).1 ≡ true
unfolding get_node path_in
get_node_complete [] n path [] h = rw (append-nil path, path_beq_refl path)
get_node_complete [] n path (v ∷ p) h = unfold reaches in cc
get_node_complete (w ∷ ws) (node l ls s) path p h =
    let (how, some_link) = reaches-cases w ws p l ls s h in
    elim how [
      | by_plus v q m plus at there ok ↦
          rw (at, plus, some_link (ground arith))
            (each_link_complete (λ n p. reaches ws p n) (get_node ws)
              (λ n path p ok. get_node_complete ws n path p ok) path v q m ls there ok)
      | by_hash other hash there ↦
          rw (other, hash, some_link (ground arith))
            (handle_wild_card_complete path p (node l ls s) there)
      | by_level q level at ok ↦
          rw (at, level, ← append_assoc path (w ∷ []) q)
            (get_node_complete ws (link_or_new w ls) (path ++ w ∷ []) q ok)
    ]
