-- ===== src/TopicTree/Subscribing.antt =====
-- `subscribe`, `unsubscribe` and `match` of mqtt/src/topictree.cpp with any filter, wildcards included,
-- on every tree that the broker can build.
use culex_mqtt_broker.Common.{
  ℕ, ◌≡◌, refl, sym, ap, ◌∙◌, true, List, [], ◌∷◌, map, Option, none, some, Eq, string_eq,
  if◌then◌else◌, Option-cases, Bool-cases, inl, inr, All, All-map, assign, erase, arith,
}
use mathlib.Core.Path.{subst}
use culex_mqtt_broker.TopicTree.{
  Node, node, Subscribers, NodePath, find_link, update_at, update_all, get_node, subscribers_at,
  subscribe, unsubscribe, match, split, empty_tree,
}
use culex_mqtt_broker.TopicTree.Store.{has_node, find_link-set_link, subscribers_at-update_at}
use culex_mqtt_broker.TopicTree.Refinement.{
  IsPlain, TreeCall, subscribes, unsubscribes, matches, tree_run, match_plain,
}
use culex_mqtt_broker.TopicTree.Filters.{
  reaches, IsTree, IsTreeBelow, path_in, path_in-All, set_link-IsTreeBelow, find_link-IsTree,
}
use culex_mqtt_broker.TopicTree.Walks.{get_node_sound}
use culex_mqtt_broker.TopicTree.Reached.{get_node_complete}
use culex_mqtt_broker.TopicTree.Walked.{get_node-has_node, subscribers_at-walk, get_node-IsTree}

-- A change of subscribers adds and removes no node.
has_node-update_at :
    (f : Subscribers → Subscribers) (p q : NodePath) (n : Node)
    → has_node p (update_at f q n) ≡ has_node p n
unfolding has_node update_at
has_node-update_at f [] q n = refl
has_node-update_at f (v ∷ p) [] (node l ls s) = refl
has_node-update_at f (v ∷ p) (w ∷ q) (node l ls s) =
    go (has_node-update_at f p q) (find_link w ls) refl
  where
    go :
        ((m : Node) → has_node p (update_at f q m) ≡ has_node p m)
        → (o : Option Node) → find_link w ls ≡ o
        → has_node (v ∷ p) (update_at f (w ∷ q) (node l ls s)) ≡ has_node (v ∷ p) (node l ls s)
    go ih none e = ground arith
    go ih (some m) e =
        ground (arith, find_link-set_link v w (update_at f q m) ls, string_eq.same_iff w v, ih m)

update_at-IsTree :
    (f : Subscribers → Subscribers) (q : NodePath) (n : Node) → IsTree n → IsTree (update_at f q n)
unfolding update_at IsTree
update_at-IsTree f [] (node l ls s) t = t
update_at-IsTree f (w ∷ q) (node l ls s) t =
    Option-cases IsTree (find_link w ls) _ _ (λ missing. t)
      (λ n there.
        set_link-IsTreeBelow w (update_at f q n) ls
          (update_at-IsTree f q n (find_link-IsTree w n ls t there)) t)

update_all-IsTree :
    (f : Subscribers → Subscribers) (ps : List NodePath) (n : Node)
    → IsTree n
    → IsTree (update_all f ps n)
unfolding update_all
update_all-IsTree f [] n t = t
update_all-IsTree f (p ∷ ps) n t =
    update_all-IsTree f ps (update_at f p n) (update_at-IsTree f p n t)

-- A change that is made at several nodes, and at some of them more than once.
subscribers_at-update_all :
    (f : Subscribers → Subscribers) (p : NodePath) (ps : List NodePath) (n : Node)
    → ((s : Subscribers) → f (f s) ≡ f s)
    → All (λ q. has_node q n ≡ true) ps
    → subscribers_at p (update_all f ps n)
      ≡ (if path_in p ps then f (subscribers_at p n) else subscribers_at p n)
unfolding update_all path_in
subscribers_at-update_all f p [] n again h = refl
subscribers_at-update_all f p (q ∷ ps) n again h =
    let kept =
      All-map _ _ ps (λ q' (there : has_node q' n ≡ true). has_node-update_at f q' q n ∙ there)
        h.1 in
    ground (
      arith,
      subscribers_at-update_all f p ps (update_at f q n) again kept,
      subscribers_at-update_at f p q n h.0,
      again (subscribers_at p n),
    )

-- The walk finds what the filter reaches, and nothing else.
path_in-get_node :
    (ws : List (List ℕ)) (n : Node) (p : NodePath)
    → IsTree n
    → path_in p (get_node ws n []).1 ≡ reaches ws p n
path_in-get_node ws n p t = elim (Bool-cases (path_in p (get_node ws n []).1)) [
  | inl found ↦
      let (q, same, ok) = path_in-All _ p (get_node ws n []).1 (get_node_sound ws n [] t) found in
      found ∙ sym (subst (λ x. reaches ws x n ≡ true) (sym same) ok)
  | inr absent ↦ elim (Bool-cases (reaches ws p n)) [
    | inl ok ↦ get_node_complete ws n [] p ok ∙ sym ok
    | inr out ↦ absent ∙ sym out
  ]
]

-- A walk, and a change of the nodes found.
update_all-get_node :
    (f : Subscribers → Subscribers) (ws : List (List ℕ)) (p : NodePath) (n : Node)
    → ((s : Subscribers) → f (f s) ≡ f s)
    → IsTree n
    → subscribers_at p (update_all f (get_node ws n []).1 (get_node ws n []).0)
      ≡ (if reaches ws p n then f (subscribers_at p n) else subscribers_at p n)
update_all-get_node f ws p n again t =
    let there =
      All-map _ _ (get_node ws n []).1
        (λ q (b : (p : NodePath) × (q ≡ p) × (reaches ws p n ≡ true)).
          subst (λ x. has_node x (get_node ws n []).0 ≡ true) (sym b.1)
            (get_node-has_node ws n [] b.0 b.2))
        (get_node_sound ws n [] t) in
    rw (
      subscribers_at-update_all f p (get_node ws n []).1 (get_node ws n []).0 again there,
      path_in-get_node ws n p t,
      subscribers_at-walk ws n [] p,
    )

assign_again {ℓ κ} :
    {K : Type ℓ} {V : Type κ} ⦃e : Eq K⦄ (k : K) (v : V) (m : List (K × V))
    → assign k v (assign k v m) ≡ assign k v m
unfolding assign
assign_again ⦃e⦄ k v [] = ground (arith, e.same_iff k k)
assign_again ⦃e⦄ k v ((j, w) ∷ m) = ground (arith, assign_again k v m)

erase_again {ℓ κ} :
    {K : Type ℓ} {V : Type κ} ⦃e : Eq K⦄ (k : K) (m : List (K × V))
    → erase k (erase k m) ≡ erase k m
unfolding erase
erase_again ⦃e⦄ k [] = refl
erase_again ⦃e⦄ k ((j, w) ∷ m) = ground (arith, erase_again k m)

subscribe-IsTree :
    (topic client_id : List ℕ) (session qos : ℕ) (root : Node)
    → IsTree root
    → IsTree (subscribe topic client_id session qos root)
unfolding subscribe
subscribe-IsTree topic client_id session qos root t =
    update_all-IsTree _ (get_node (split topic) root []).1 _
      (get_node-IsTree (split topic) root [] t)

unsubscribe-IsTree :
    (topic client_id : List ℕ) (root : Node)
    → IsTree root
    → IsTree (unsubscribe topic client_id root)
unfolding unsubscribe
unsubscribe-IsTree topic client_id root t =
    update_all-IsTree _ (get_node (split topic) root []).1 _
      (get_node-IsTree (split topic) root [] t)

match-IsTree : (topic : List ℕ) (root : Node) → IsTree root → IsTree (match topic root).0
unfolding match
match-IsTree topic root t = get_node-IsTree (split topic) root [] t

-- The trees that the broker builds have one link for each level.
tree_run-IsTree : (cs : List TreeCall) (root : Node) → IsTree root → IsTree (tree_run root cs)
unfolding tree_run
tree_run-IsTree [] root t = t
tree_run-IsTree (subscribes topic client_id session qos ∷ cs) root t =
    tree_run-IsTree cs (subscribe topic client_id session qos root)
      (subscribe-IsTree topic client_id session qos root t)
tree_run-IsTree (unsubscribes topic client_id ∷ cs) root t =
    tree_run-IsTree cs (unsubscribe topic client_id root)
      (unsubscribe-IsTree topic client_id root t)
tree_run-IsTree (matches topic ∷ cs) root t =
    tree_run-IsTree cs (match topic root).0 (match-IsTree topic root t)

built-IsTree : (cs : List TreeCall) → IsTree (tree_run empty_tree cs)
unfolding IsTree IsTreeBelow
built-IsTree cs = tree_run-IsTree cs empty_tree tt

-- After any history of subscriptions, unsubscriptions and publications, a subscription with any
-- filter assigns the client's entry at each node that the filter reaches in the tree, and changes no
-- other.
pub subscribe_any_filter :
    (cs : List TreeCall) (filter client_id : List ℕ) (session qos : ℕ) (p : NodePath)
    → subscribers_at p (subscribe filter client_id session qos (tree_run empty_tree cs)) ≡ (
        if reaches (split filter) p (tree_run empty_tree cs)
        then assign client_id
            (record { session = session; qos = qos })
            (subscribers_at p (tree_run empty_tree cs))
        else subscribers_at p (tree_run empty_tree cs))
unfolding subscribe
subscribe_any_filter cs filter client_id session qos p =
    update_all-get_node (assign client_id (record { session = session; qos = qos })) (split filter)
      p (tree_run empty_tree cs) (assign_again client_id _) (built-IsTree cs)

-- After any such history, unsubscribing with any filter erases the client's entry at each node that
-- the filter reaches in the tree, and changes no other.
pub unsubscribe_any_filter :
    (cs : List TreeCall) (filter client_id : List ℕ) (p : NodePath)
    → subscribers_at p (unsubscribe filter client_id (tree_run empty_tree cs)) ≡ (
        if reaches (split filter) p (tree_run empty_tree cs)
        then erase client_id (subscribers_at p (tree_run empty_tree cs))
        else subscribers_at p (tree_run empty_tree cs))
unfolding unsubscribe
unsubscribe_any_filter cs filter client_id p =
    update_all-get_node (erase client_id) (split filter) p (tree_run empty_tree cs)
      (erase_again client_id) (built-IsTree cs)

-- After any such history and a subscription with any filter, a publication to a plain topic goes to
-- the subscriptions that were at the topic, with the new one among them if the filter reaches the
-- topic in the tree as it was, where a wildcard reaches only levels that are there.
pub match-subscribe :
    (cs : List TreeCall) (filter client_id : List ℕ) (session qos : ℕ) (topic : List ℕ)
    → IsPlain topic
    → (match topic (subscribe filter client_id session qos (tree_run empty_tree cs))).1
      ≡ map
          (λ s. s.1)
          (if reaches (split filter) (split topic) (tree_run empty_tree cs)
            then assign client_id
                (record { session = session; qos = qos })
                (subscribers_at (split topic) (tree_run empty_tree cs))
            else subscribers_at (split topic) (tree_run empty_tree cs))
match-subscribe cs filter client_id session qos topic plain =
    (match_plain topic (subscribe filter client_id session qos (tree_run empty_tree cs)) [] plain).0
    ∙ ap (map (λ s. s.1)) (subscribe_any_filter cs filter client_id session qos (split topic))
