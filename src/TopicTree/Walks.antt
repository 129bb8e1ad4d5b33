-- ===== src/TopicTree/Walks.antt =====
-- `getNode` and `handleWildCard` of mqtt/src/topictree.cpp reach what the filter says, once each node
-- has one link for each level.
use culex_mqtt_broker.Common.{
  ℕ, ◌≡◌, refl, sym, ◌∙◌, Bool, true, false, ◌||◌, List, [], ◌∷◌, ◌++◌, none, some, ◌==◌, string_eq,
  if-cases, All, All-map, arith,
}
use mathlib.Core.List.{append_assoc, append-nil}
use culex_mqtt_broker.TopicTree.{
  Node, Links, node, no_links, link, NodePath, Subscribers, find_link, plus_sign, hash_sign,
  has_links, link_or_new, handle_wild_card, handle_links, each_link, get_node,
}
use culex_mqtt_broker.TopicTree.Store.{has_node}
use culex_mqtt_broker.TopicTree.Filters.{reaches, IsTree, IsTreeBelow, link_or_new-IsTree}

All-append :
    (P : NodePath → Type 0) (ps qs : List NodePath) → All P ps → All P qs → All P (ps ++ qs)
All-append P [] qs h k = k
All-append P (p ∷ ps) qs h k = (h.0, All-append P ps qs h.1 k)

-- A path that goes on behind `path`, to a node by which a test holds.
abbrev Behind : NodePath → (NodePath → Bool) → NodePath → Type 0
Behind path test q = (p : NodePath) × (q ≡ path ++ p) × (test p ≡ true)

-- The same below the links `ls`.
abbrev Below : NodePath → (Node → NodePath → Bool) → Links → NodePath → Type 0
Below path test ls q =
    (v : List ℕ) × (p : NodePath) × (n : Node) × (q ≡ path ++ v ∷ p)
    × (find_link v ls ≡ some n)
    × (test n p ≡ true)

-- What is below the links behind a first link of another level is below all.
Below-link :
    (path : NodePath) (test : Node → NodePath → Bool) (k : List ℕ) (m : Node) (ls : Links)
    (q : NodePath)
    → find_link k ls ≡ none
    → Below path test ls q
    → Below path test (link k m ls) q
unfolding find_link
Below-link path test k m ls q new (v, p, n, at, there, ok) =
    (v, p, n, at, ground (arith, string_eq.same_iff k v, new, there), ok)

first-Below :
    (path : NodePath) (test : Node → NodePath → Bool) (k : List ℕ) (n : Node) (ls : Links)
    (q : NodePath)
    → Behind (path ++ k ∷ []) (test n) q
    → Below path test (link k n ls) q
unfolding find_link
first-Below path test k n ls q (p, at, ok) =
    (k, p, n, at ∙ append_assoc path (k ∷ []) p, ground (arith, string_eq.same_iff k k), ok)

module _ (test : Node → NodePath → Bool) (f : Node → NodePath → Node × List NodePath)
    (sound : (n : Node) (path : NodePath)
      → IsTree n
      → All (Behind path (test n)) (f n path).1) where
  each_link_sound :
      (path : NodePath) (ls : Links)
      → IsTreeBelow ls
      → All (Below path test ls) (each_link f path ls).1
  unfolding each_link IsTreeBelow
  each_link_sound path no_links t = tt
  each_link_sound path (link k n ls) t =
      All-append _ (f n (path ++ k ∷ [])).1 (each_link f path ls).1
        (All-map _ _ (f n (path ++ k ∷ [])).1 (first-Below path test k n ls)
          (sound n (path ++ k ∷ []) t.1))
        (All-map _ _ (each_link f path ls).1 (λ q. Below-link path test k n ls q t.0)
          (each_link_sound path ls t.2))

mutual
  unfolding handle_wild_card handle_links has_node IsTree IsTreeBelow

  handle_wild_card_sound :
      (path : NodePath) (n : Node)
      → IsTree n
      → All (Behind path (λ p. has_node p n)) (handle_wild_card path n)
  handle_wild_card_sound path (node l ls s) t = (
    ([], sym (append-nil path), refl),
    All-map _ _ (handle_links path ls)
        (λ q (b : Below path (λ n p. has_node p n) ls q).
          let (v, p, n, at, there, ok) = b in (v ∷ p, at, ground (arith, there, ok)))
        (handle_links_sound path ls t),
  )

  handle_links_sound :
      (path : NodePath) (ls : Links)
      → IsTreeBelow ls
      → All (Below path (λ n p. has_node p n) ls) (handle_links path ls)
  handle_links_sound path no_links t = tt
  handle_links_sound path (link k n ls) t =
      All-append _ (handle_wild_card (path ++ k ∷ []) n) (handle_links path ls)
        (All-map _ _ (handle_wild_card (path ++ k ∷ []) n)
          (first-Below path (λ n p. has_node p n) k n ls)
          (handle_wild_card_sound (path ++ k ∷ []) n t.1))
        (All-map _ _ (handle_links path ls)
          (λ q. Below-link path (λ n p. has_node p n) k n ls q t.0)
          (handle_links_sound path ls t.2))

hash_reaches :
    (w : List ℕ) (ws : List (List ℕ)) (p : NodePath) (l : List ℕ) (ls : Links) (s : Subscribers)
    → (w == hash_sign) ≡ true
    → (w == plus_sign) ≡ false
    → has_links ls ≡ true
    → has_node p (node l ls s) ≡ true
    → reaches (w ∷ ws) p (node l ls s) ≡ true
unfolding reaches
hash_reaches w ws [] l ls s hash plus some_link there = ground arith
hash_reaches w ws (v ∷ p) l ls s hash plus some_link there = ground arith

literal_reaches :
    (w : List ℕ) (ws : List (List ℕ)) (p : NodePath) (l : List ℕ) (ls : Links) (s : Subscribers)
    → (w == plus_sign || w == hash_sign) ≡ false
    → reaches ws p (link_or_new w ls) ≡ true
    → reaches (w ∷ ws) (w ∷ p) (node l ls s) ≡ true
unfolding reaches
literal_reaches w ws p l ls s literal ok = ground (arith, string_eq.same_iff w w)

-- Every node that the walk finds is one that the filter reaches.
pub get_node_sound :
    (ws : List (List ℕ)) (n : Node) (path : NodePath)
    → IsTree n
    → All (Behind path (λ p. reaches ws p n)) (get_node ws n path).1
unfolding get_node
get_node_sound [] n path t = (([], sym (append-nil path), unfold reaches in refl), tt)
get_node_sound (w ∷ ws) (node l ls s) path t =
    if-cases
      (λ (r : Node × List NodePath). All (Behind path (λ p. reaches (w ∷ ws) p (node l ls s))) r.1)
      (w == plus_sign || w == hash_sign) _ _
      (λ wild.
        if-cases
          (λ (r : Node × List NodePath).
            All (Behind path (λ p. reaches (w ∷ ws) p (node l ls s))) r.1)
          (has_links ls) _ _
          (λ some_link.
            if-cases
              (λ (r : Node × List NodePath).
                All (Behind path (λ p. reaches (w ∷ ws) p (node l ls s))) r.1)
              (w == plus_sign) _ _
              (λ plus.
                All-map _ _ (each_link (get_node ws) path ls).1
                  (λ q (b : Below path (λ n p. reaches ws p n) ls q).
                    let (v, p, n, at, there, ok) = b in
                    (v ∷ p, at, unfold reaches in ground (arith, plus, there, ok)))
                  (each_link_sound (λ n p. reaches ws p n) (get_node ws)
                    (λ n path t. get_node_sound ws n path t) path ls (unfold IsTree in t)))
              (λ hash.
                All-map _ _ (handle_wild_card path (node l ls s))
                  (λ q (b : Behind path (λ p. has_node p (node l ls s)) q).
                    (b.0, b.1, hash_reaches w ws b.0 l ls s (ground arith) hash some_link b.2))
                  (handle_wild_card_sound path (node l ls s) t)))
          (λ no_link. tt))
      (λ literal.
        All-map _ _ (get_node ws (link_or_new w ls) (path ++ w ∷ [])).1
          (λ q (b : Behind (path ++ w ∷ []) (λ p. reaches ws p (link_or_new w ls)) q). (
            w ∷ b.0,
            b.1 ∙ append_assoc path (w ∷ []) b.0,
            literal_reaches w ws b.0 l ls s literal b.2,
          ))
          (get_node_sound ws (link_or_new w ls) (path ++ w ∷ [])
            (link_or_new-IsTree w ls (unfold IsTree in t))))
