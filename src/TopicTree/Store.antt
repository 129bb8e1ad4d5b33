-- ===== src/TopicTree/Store.antt =====
-- The tree as a store: a path of levels has subscribers. Lookups after a link is set, after the
-- subscribers of a node are changed, and after a path without wildcards is walked.
use culex_mqtt_broker.Common.{
  ℕ, ◌≡◌, refl, ap, ◌∙◌, Bool, true, false, ◌&&◌, List, [], ◌∷◌, ◌++◌, Option, none, some, ◌==◌,
  string_eq, if◌then◌else◌, All, arith,
}
use mathlib.Core.List.{append_assoc, append-nil}
use culex_mqtt_broker.TopicTree.{
  Node, Links, node, no_links, link, Subscribers, NodePath, find_link, set_link, plus_sign,
  hash_sign, link_or_new, get_node, subscribers_at, update_at,
}

-- Equality of paths.
unfoldable pub path_beq : NodePath → NodePath → Bool
path_beq [] [] = true
path_beq (v ∷ vs) (w ∷ ws) = (v == w) && path_beq vs ws
path_beq _ _ = false

pub find_link-set_link :
    (j k : List ℕ) (n : Node) (ls : Links)
    → find_link j (set_link k n ls) ≡ (if k == j then some n else find_link j ls)
unfolding find_link set_link
find_link-set_link j k n no_links = refl
find_link-set_link j k n (link i m ls) = ground (
  arith,
  string_eq.same_iff k j,
  string_eq.same_iff i k,
  string_eq.same_iff i j,
  find_link-set_link j k n ls,
)

-- There is a node at the path.
unfoldable pub has_node : NodePath → Node → Bool
has_node [] n = true
has_node (w ∷ ws) (node l links subs) = elim (find_link w links) [
  | none ↦ false
  | some n ↦ has_node ws n
]

-- A change of the subscribers of a node is seen at its path, and nowhere else.
pub subscribers_at-update_at :
    (f : Subscribers → Subscribers) (p q : NodePath) (n : Node)
    → has_node q n ≡ true
    → subscribers_at p (update_at f q n)
      ≡ (if path_beq q p then f (subscribers_at p n) else subscribers_at p n)
unfolding subscribers_at update_at has_node path_beq
subscribers_at-update_at f [] [] (node l ls s) h = refl
subscribers_at-update_at f (v ∷ p) [] (node l ls s) h = refl
subscribers_at-update_at f [] (w ∷ q) (node l ls s) h = ground arith
subscribers_at-update_at f (v ∷ p) (w ∷ q) (node l ls s) h =
    go (subscribers_at-update_at f p q) (find_link w ls) refl
  where
    go :
        ((m : Node)
          → has_node q m ≡ true
          → subscribers_at p (update_at f q m)
            ≡ (if path_beq q p then f (subscribers_at p m) else subscribers_at p m))
        → (o : Option Node) → find_link w ls ≡ o
        → subscribers_at (v ∷ p) (update_at f (w ∷ q) (node l ls s)) ≡ (
            if path_beq (w ∷ q) (v ∷ p)
            then f (subscribers_at (v ∷ p) (node l ls s))
            else subscribers_at (v ∷ p) (node l ls s))
    go ih none e = ground arith
    go ih (some m) e =
        ground (arith, find_link-set_link v w (update_at f q m) ls, string_eq.same_iff w v, ih m)

-- A level that is no wildcard.
abbrev pub IsLiteral : List ℕ → Type 0
IsLiteral w = ((w == plus_sign) ≡ false) × ((w == hash_sign) ≡ false)

pub find_link_or_new :
    (p : NodePath) (w : List ℕ) (l : List ℕ) (ls : Links) (s : Subscribers)
    → subscribers_at (w ∷ p) (node l ls s) ≡ subscribers_at p (link_or_new w ls)
unfolding subscribers_at
find_link_or_new [] w l ls s = ground arith
find_link_or_new (v ∷ p) w l ls s = unfold find_link in ground arith

-- One level of a walk without wildcards.
pub get_node_step :
    (w : List ℕ) (ws : List (List ℕ)) (l : List ℕ) (ls : Links) (s : Subscribers) (path : NodePath)
    → IsLiteral w
    → get_node (w ∷ ws) (node l ls s) path ≡ (
      node l (set_link w (get_node ws (link_or_new w ls) (path ++ w ∷ [])).0 ls) s,
      (get_node ws (link_or_new w ls) (path ++ w ∷ [])).1,
    )
unfolding get_node
get_node_step w ws l ls s path h = rw (h.0, h.1)

-- A walk along levels without wildcards finds the one node at its end.
pub get_node_found :
    (ws : List (List ℕ)) (root : Node) (path : NodePath)
    → All IsLiteral ws
    → (get_node ws root path).1 ≡ (path ++ ws) ∷ []
get_node_found [] root path h = unfold get_node in rw append-nil
get_node_found (w ∷ ws) (node l ls s) path h = rw (get_node_step w ws l ls s path h.0) (
    get_node_found ws (link_or_new w ls) (path ++ w ∷ []) h.1
    ∙ ap (λ (p : NodePath). p ∷ []) (append_assoc path (w ∷ []) ws))

-- That node is there after the walk.
pub has_node-get_node :
    (ws : List (List ℕ)) (root : Node) (path : NodePath)
    → All IsLiteral ws
    → has_node ws (get_node ws root path).0 ≡ true
unfolding has_node
has_node-get_node [] root path h = refl
has_node-get_node (w ∷ ws) (node l ls s) path h =
    let child = (get_node ws (link_or_new w ls) (path ++ w ∷ [])).0 in
    rw (get_node_step w ws l ls s path h.0) (
      ground (
        arith,
        find_link-set_link w w child ls,
        string_eq.same_iff w w,
        has_node-get_node ws (link_or_new w ls) (path ++ w ∷ []) h.1,
      ))

-- No walk without wildcards changes the subscribers of any path.
pub subscribers_at-get_node :
    (ws : List (List ℕ)) (root : Node) (path : NodePath) (p : NodePath)
    → All IsLiteral ws
    → subscribers_at p (get_node ws root path).0 ≡ subscribers_at p root
unfolding subscribers_at
subscribers_at-get_node [] root path p h = unfold get_node in refl
subscribers_at-get_node (w ∷ ws) (node l ls s) path [] h = rw (get_node_step w ws l ls s path h.0)
subscribers_at-get_node (w ∷ ws) (node l ls s) path (v ∷ p) h =
    let child = (get_node ws (link_or_new w ls) (path ++ w ∷ [])).0 in
    rw (get_node_step w ws l ls s path h.0) (
      ground (
        arith,
        find_link-set_link v w child ls,
        string_eq.same_iff w v,
        find_link_or_new p v l ls s,
        subscribers_at-get_node ws (link_or_new w ls) (path ++ w ∷ []) p h.1,
      ))
