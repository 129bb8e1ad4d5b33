-- ===== src/TopicTree/Refinement.antt =====
-- On topics without wildcards the tree implements a plain map from split topics to subscribers.
use culex_mqtt_broker.Common.{
  ℕ, ◌≡◌, refl, ap, ◌∙◌, List, [], ◌∷◌, map, if◌then◌else◌, All, string_eq, assign, erase,
}
use mathlib.Core.Path.{fun_ext}
use mathlib.Core.List.{append-nil}
use culex_mqtt_broker.TopicTree.{
  Node, Subscribers, NodePath, empty_tree, split, get_node, subscribers_at, find_link, update_all,
  collect, match, subscribe, unsubscribe,
}
use culex_mqtt_broker.TopicTree.Store.{
  path_beq, IsLiteral, subscribers_at-update_at, get_node_found, has_node-get_node,
  subscribers_at-get_node,
}

-- A topic without wildcards.
abbrev pub IsPlain : List ℕ → Type 0
IsPlain topic = All IsLiteral (split topic)

-- The map that the tree stands for, and the operations on it.
abbrev pub Directory : Type 0
Directory = NodePath → Subscribers

abbrev pub change : NodePath → (Subscribers → Subscribers) → Directory → Directory
change q f d p = if path_beq q p then f (d p) else d p

-- A walk to a plain topic, and a change of the one node found.
update_all_plain :
    (f : Subscribers → Subscribers) (ws : List (List ℕ)) (p : NodePath) (root : Node)
    → All IsLiteral ws
    → subscribers_at p (update_all f (get_node ws root []).1 (get_node ws root []).0)
      ≡ change ws f (λ q. subscribers_at q root) p
unfolding update_all
update_all_plain f ws p root h = rw (get_node_found ws root [] h) (
    subscribers_at-update_at f p ws (get_node ws root []).0 (has_node-get_node ws root [] h)
    ∙ rw (subscribers_at-get_node ws root [] p h))

-- A plain subscription assigns the client's entry at the split topic, and changes nothing at any
-- other path.
pub subscribers_at-subscribe :
    (topic client_id : List ℕ) (session qos : ℕ) (root : Node) (p : NodePath)
    → IsPlain topic
    → subscribers_at p (subscribe topic client_id session qos root) ≡ (
        if path_beq (split topic) p
        then assign client_id (record { session = session; qos = qos }) (subscribers_at p root)
        else subscribers_at p root)
unfolding subscribe
subscribers_at-subscribe topic client_id session qos root p h =
    update_all_plain (assign client_id (record { session = session; qos = qos })) (split topic) p
      root h

-- Unsubscribing from a plain topic erases the client's entry at the split topic, and changes nothing
-- at any other path.
pub subscribers_at-unsubscribe :
    (topic client_id : List ℕ) (root : Node) (p : NodePath)
    → IsPlain topic
    → subscribers_at p (unsubscribe topic client_id root) ≡ (
        if path_beq (split topic) p
        then erase client_id (subscribers_at p root)
        else subscribers_at p root)
unfolding unsubscribe
subscribers_at-unsubscribe topic client_id root p h =
    update_all_plain (erase client_id) (split topic) p root h

-- Matching a plain topic returns the subscriptions at the split topic, and changes no subscribers
-- at any path, although it may add nodes.
pub match_plain :
    (topic : List ℕ) (root : Node) (p : NodePath)
    → IsPlain topic
    → ((match topic root).1 ≡ map (λ s. s.1) (subscribers_at (split topic) root))
      × (subscribers_at p (match topic root).0 ≡ subscribers_at p root)
unfolding match collect
match_plain topic root p h = (
  rw (get_node_found (split topic) root [] h)
      (rw (append-nil, subscribers_at-get_node (split topic) root [] (split topic) h)),
  subscribers_at-get_node (split topic) root [] p h,
)

-- Histories of plain operations.
pub data TreeCall : Type 0 where
  subscribes : List ℕ → List ℕ → ℕ → ℕ → TreeCall
  unsubscribes : List ℕ → List ℕ → TreeCall
  matches : List ℕ → TreeCall

abbrev pub topic_of : TreeCall → List ℕ
topic_of (subscribes topic client_id session qos) = topic
topic_of (unsubscribes topic client_id) = topic
topic_of (matches topic) = topic

unfoldable pub tree_run : Node → List TreeCall → Node
tree_run root [] = root
tree_run root (subscribes topic client_id session qos ∷ cs) =
    tree_run (subscribe topic client_id session qos root) cs
tree_run root (unsubscribes topic client_id ∷ cs) = tree_run (unsubscribe topic client_id root) cs
tree_run root (matches topic ∷ cs) = tree_run (match topic root).0 cs

unfoldable pub directory_run : Directory → List TreeCall → Directory
directory_run d [] = d
directory_run d (subscribes topic client_id session qos ∷ cs) =
    directory_run
      (change (split topic) (assign client_id (record { session = session; qos = qos })) d) cs
directory_run d (unsubscribes topic client_id ∷ cs) =
    directory_run (change (split topic) (erase client_id) d) cs
directory_run d (matches topic ∷ cs) = directory_run d cs

tree_run-directory :
    (cs : List TreeCall) (root : Node) (p : NodePath)
    → All (λ c. IsPlain (topic_of c)) cs
    → subscribers_at p (tree_run root cs) ≡ directory_run (λ q. subscribers_at q root) cs p
unfolding tree_run directory_run
tree_run-directory [] root p h = refl
tree_run-directory (subscribes topic client_id session qos ∷ cs) root p h =
    tree_run-directory cs (subscribe topic client_id session qos root) p h.1
    ∙ ap (λ (d : Directory). directory_run d cs p)
        (fun_ext λ q. subscribers_at-subscribe topic client_id session qos root q h.0)
tree_run-directory (unsubscribes topic client_id ∷ cs) root p h =
    tree_run-directory cs (unsubscribe topic client_id root) p h.1
    ∙ ap (λ (d : Directory). directory_run d cs p)
        (fun_ext λ q. subscribers_at-unsubscribe topic client_id root q h.0)
tree_run-directory (matches topic ∷ cs) root p h =
    tree_run-directory cs (match topic root).0 p h.1
    ∙ ap (λ (d : Directory). directory_run d cs p) (fun_ext λ q. (match_plain topic root q h.0).1)

subscribers_at-empty : (p : NodePath) → subscribers_at p empty_tree ≡ []
unfolding subscribers_at
subscribers_at-empty [] = refl
subscribers_at-empty (w ∷ p) = unfold find_link in refl

-- After any history of subscriptions, unsubscriptions and publications of plain topics, matching a
-- plain topic returns what the plain map holds for its split topic.
pub match-tree_run :
    (cs : List TreeCall) (topic : List ℕ)
    → All (λ c. IsPlain (topic_of c)) cs
    → IsPlain topic
    → (match topic (tree_run empty_tree cs)).1
      ≡ map (λ s. s.1) (directory_run (λ p. []) cs (split topic))
match-tree_run cs topic h k =
    (match_plain topic (tree_run empty_tree cs) [] k).0
    ∙ ap (map (λ s. s.1)) (
        tree_run-directory cs empty_tree (split topic) h
        ∙ ap (λ (d : Directory). directory_run d cs (split topic)) (fun_ext subscribers_at-empty))
