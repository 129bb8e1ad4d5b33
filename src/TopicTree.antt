-- ===== src/TopicTree.antt =====
-- mqtt/include/topictree.h and mqtt/src/topictree.cpp: the tree of topic levels with the
-- subscribers of each node. A `Node*` is the path of levels from the root to the node, which stays
-- valid, since no node is ever removed. The locks are not modelled: an operation is one step.
pub mod Split
pub mod Store
pub mod Refinement
pub mod Wildcards
pub mod Filters
pub mod Walks
pub mod Reached
pub mod Walked
pub mod Subscribing
use culex_mqtt_broker.Common.{
  ℕ, zero, suc, ◌+◌, ◌-◌, Bool, true, false, ◌&&◌, ◌||◌, List, [], ◌∷◌, ◌++◌, map, Option, none,
  some, Eq, ◌==◌, string_eq, nat_beq, if◌then◌else◌, length, find, assign, erase,
}

-- A `std::weak_ptr<ClientSession>` is the identity of the object.
pub record Subscription : Type 0 where
  pub session : ℕ
  pub qos : ℕ

abbrev pub Subscribers : Type 0
Subscribers = List (List ℕ × Subscription)

abbrev pub NodePath : Type 0
NodePath = List (List ℕ)

-- `links` is an `unordered_map`; its order of iteration is the order here.
mutual
  pub data Node : Type 0 where
    node : List ℕ → Links → Subscribers → Node

  pub data Links : Type 0 where
    no_links : Links
    link : List ℕ → Node → Links → Links

abbrev pub level : Node → List ℕ
level (node l links subs) = l

abbrev pub links_of : Node → Links
links_of (node l links subs) = links

-- `Node(level)`
abbrev pub new_node : List ℕ → Node
new_node l = node l no_links []

-- `links.find(str)`, by which `ispresent` and `getLink` go.
unfoldable pub find_link : List ℕ → Links → Option Node
find_link str no_links = none
find_link str (link k n ls) = if k == str then some n else find_link str ls

-- `links[str] = n`: `addLink` with a new node, and a change of the node at `str`.
unfoldable pub set_link : List ℕ → Node → Links → Links
set_link str n no_links = link str n no_links
set_link str n (link k m ls) = if k == str then link k n ls else link k m (set_link str n ls)

abbrev pub plus_sign : List ℕ
plus_sign = b'+' ∷ []

abbrev pub hash_sign : List ℕ
hash_sign = b'#' ∷ []

abbrev pub slash : List ℕ
slash = b'/' ∷ []

-- One round of the loop of `split`: `temp` and `words` after the character `c` at index `i`.
abbrev pub split_step : ℕ → ℕ → List ℕ → ℕ → List (List ℕ) → List ℕ × List (List ℕ)
split_step len i temp c words =
    if nat_beq i 0
    then (temp, words ++ slash ∷ [])
    else if nat_beq c b'/'
    then ([], words ++ temp ∷ [])
    else if nat_beq (i + 1) len
    then ([], words ++ (temp ++ c ∷ []) ∷ [])
    else (temp ++ c ∷ [], words)

unfoldable pub split_loop : ℕ → ℕ → List ℕ → List ℕ → List (List ℕ) → List (List ℕ)
split_loop len i temp [] words = words
split_loop len i temp (c ∷ str) words =
    let next = split_step len i temp c words in split_loop len (i + 1) next.0 str next.1

unfoldable pub split : List ℕ → List (List ℕ)
unfolding split_loop
split str = split_loop (length str) 0 [] str []

-- The nodes at and below `root`, which is pushed once, whether or not it has links.
unfoldable mutual
  pub handle_wild_card : NodePath → Node → List NodePath
  handle_wild_card path (node l links subs) = path ∷ handle_links path links

  pub handle_links : NodePath → Links → List NodePath
  handle_links path no_links = []
  handle_links path (link k n ls) = handle_wild_card (path ++ k ∷ []) n ++ handle_links path ls

-- `for (auto topic : link_topics) getNode(vec, root->getLink(topic), sub_topics, i+1);`
unfoldable pub each_link :
    (Node → NodePath → Node × List NodePath) → NodePath → Links → Links × List NodePath
each_link f path no_links = (no_links, [])
each_link f path (link k n ls) =
    let (n', found) = f n (path ++ k ∷ []) in
    let (ls', more) = each_link f path ls in (link k n' ls', found ++ more)

abbrev pub has_links : Links → Bool
has_links no_links = false
has_links (link k n ls) = true

-- `if (!root->ispresent(w)) root->addLink(w); root = root->getLink(w);`
abbrev pub link_or_new : List ℕ → Links → Node
link_or_new w ls = elim (find_link w ls) [ none ↦ new_node w | some n ↦ n ]

-- `getNode`: the tree with the nodes that it has added, and the paths of `vec`. The argument
-- `path` is that of `root`.
unfoldable pub get_node : List (List ℕ) → Node → NodePath → Node × List NodePath
unfolding each_link find_link set_link handle_wild_card
get_node [] root path = (root, path ∷ [])
get_node (w ∷ ws) (node l links subs) path =
    let through_all = each_link (get_node ws) path links in
    let child = get_node ws (link_or_new w links) (path ++ w ∷ []) in
    if w == plus_sign || w == hash_sign
    then if has_links links
      then if w == plus_sign
        then (node l through_all.0 subs, through_all.1)
        else (node l links subs, handle_wild_card path (node l links subs))
      else (node l links subs, [])
    else (node l (set_link w child.0 links) subs, child.1)

-- The subscribers of a node; none where there is no such node.
unfoldable pub subscribers_at : NodePath → Node → Subscribers
subscribers_at [] (node l links subs) = subs
subscribers_at (w ∷ ws) (node l links subs) = elim (find_link w links) [
  | none ↦ []
  | some n ↦ subscribers_at ws n
]

-- A change of the subscribers of the node that a path points to.
unfoldable pub update_at : (Subscribers → Subscribers) → NodePath → Node → Node
update_at f [] (node l links subs) = node l links (f subs)
update_at f (w ∷ ws) (node l links subs) = elim (find_link w links) [
  | none ↦ node l links subs
  | some n ↦ node l (set_link w (update_at f ws n) links) subs
]

unfoldable pub update_all : (Subscribers → Subscribers) → List NodePath → Node → Node
update_all f [] root = root
update_all f (p ∷ ps) root = update_all f ps (update_at f p root)

unfoldable pub collect : List NodePath → Node → List Subscription
collect [] root = []
collect (p ∷ ps) root = map (λ s. s.1) (subscribers_at p root) ++ collect ps root

-- `TopicTree::TopicTree`
abbrev pub empty_tree : Node
empty_tree = new_node (b'*' ∷ [])

-- `match` may add nodes too.
unfoldable pub match : List ℕ → Node → Node × List Subscription
unfolding split get_node collect
match topic root =
    let (root', nodes) = get_node (split topic) root [] in (root', collect nodes root')

-- `subscribe` and `unsubscribe`; the session is given by its client id and its identity.
unfoldable pub subscribe : List ℕ → List ℕ → ℕ → ℕ → Node → Node
unfolding split get_node update_all update_at
subscribe topic client_id session qos root =
    let (root', nodes) = get_node (split topic) root [] in
    update_all (assign client_id (record { session = session; qos = qos })) nodes root'

unfoldable pub unsubscribe : List ℕ → List ℕ → Node → Node
unfolding split get_node update_all update_at
unsubscribe topic client_id root =
    let (root', nodes) = get_node (split topic) root [] in update_all (erase client_id) nodes root'
