-- ===== src/TopicTree/Wildcards.antt =====
-- Filters with wildcards reach only the nodes that are there when they are walked.
use culex_mqtt_broker.Common.{
  ℕ, ◌≡◌, refl, true, false, ◌||◌, List, [], ◌∷◌, ◌++◌, ◌==◌, string_eq, All, arith,
}
use culex_mqtt_broker.TopicTree.{
  Node, node, NodePath, split, has_links, plus_sign, hash_sign, link_or_new, get_node,
  subscribers_at, update_all, subscribe,
}
use culex_mqtt_broker.TopicTree.Store.{
  IsLiteral, find_link-set_link, find_link_or_new, get_node_step,
}

abbrev pub IsWildcard : List ℕ → Type 0
IsWildcard w = (w == plus_sign || w == hash_sign) ≡ true

-- No level below the path has been made yet.
unfoldable IsLeaf : NodePath → Node → Type 0
IsLeaf [] (node l ls s) = has_links ls ≡ false
IsLeaf (w ∷ ws) (node l ls s) = IsLeaf ws (link_or_new w ls)

get_node_leaf :
    (ws : List (List ℕ)) (w : List ℕ) (root : Node) (path : NodePath)
    → All IsLiteral ws
    → IsWildcard w
    → IsLeaf ws root
    → (get_node (ws ++ w ∷ []) root path).1 ≡ []
unfolding IsLeaf
get_node_leaf [] w (node l ls s) path h wild leaf = unfold get_node in rw (wild, leaf)
get_node_leaf (v ∷ ws) w (node l ls s) path h wild leaf =
    rw (get_node_step v (ws ++ w ∷ []) l ls s path h.0)
      (get_node_leaf ws w (link_or_new v ls) (path ++ v ∷ []) h.1 wild leaf)

subscribers_at-get_node_leaf :
    (ws : List (List ℕ)) (w : List ℕ) (root : Node) (path p : NodePath)
    → All IsLiteral ws
    → IsWildcard w
    → IsLeaf ws root
    → subscribers_at p (get_node (ws ++ w ∷ []) root path).0 ≡ subscribers_at p root
unfolding IsLeaf subscribers_at
subscribers_at-get_node_leaf [] w (node l ls s) path p h wild leaf =
    unfold get_node in rw (wild, leaf)
subscribers_at-get_node_leaf (v ∷ ws) w (node l ls s) path [] h wild leaf =
    rw (get_node_step v (ws ++ w ∷ []) l ls s path h.0) refl
subscribers_at-get_node_leaf (v ∷ ws) w (node l ls s) path (u ∷ p) h wild leaf =
    let child = (get_node (ws ++ w ∷ []) (link_or_new v ls) (path ++ v ∷ [])).0 in
    rw (get_node_step v (ws ++ w ∷ []) l ls s path h.0) (
      ground (
        arith,
        find_link-set_link u v child ls,
        string_eq.same_iff v u,
        find_link_or_new p u l ls s,
        subscribers_at-get_node_leaf ws w (link_or_new v ls) (path ++ v ∷ []) p h.1 wild leaf,
      ))

-- A subscription to a filter that ends in a wildcard, made when no level below the filter's other
-- levels exists, is recorded nowhere.
subscribe_wildcard_lost :
    (topic client_id : List ℕ) (session qos : ℕ) (root : Node) (p : NodePath) (ws : List (List ℕ))
    (w : List ℕ)
    → split topic ≡ ws ++ w ∷ []
    → All IsLiteral ws
    → IsWildcard w
    → IsLeaf ws root
    → subscribers_at p (subscribe topic client_id session qos root) ≡ subscribers_at p root
unfolding subscribe update_all
subscribe_wildcard_lost topic client_id session qos root p ws w e h wild leaf =
    rw (e, get_node_leaf ws w root [] h wild leaf)
      (subscribers_at-get_node_leaf ws w root [] p h wild leaf)
