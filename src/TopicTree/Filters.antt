-- ===== src/TopicTree/Filters.antt =====
-- What the walk `getNode` of mqtt/src/topictree.cpp is to reach with a filter, wildcards included.
use culex_mqtt_broker.Common.{
  ℕ, ◌≡◌, refl, Bool, true, false, ◌&&◌, ◌||◌, List, [], ◌∷◌, ◌++◌, none, some, ◌==◌, string_eq,
  if◌then◌else◌, if-cases, Option-cases, Bool-cases, inl, inr, All, arith,
}
use mathlib.Core.Path.{subst}
use mathlib.Core.Option.{some-injective}
use culex_mqtt_broker.TopicTree.{
  Node, Links, node, no_links, link, NodePath, find_link, set_link, plus_sign, hash_sign, has_links,
  link_or_new,
}
use culex_mqtt_broker.TopicTree.Store.{path_beq, has_node, find_link-set_link}

-- The filter reaches a node by its path: a literal level reaches its own child, which the walk makes
-- if it is not there, `+` every child that is there, and `#` everything at and below a node that has
-- children.
unfoldable pub reaches : List (List ℕ) → NodePath → Node → Bool
unfolding find_link has_node
reaches [] [] n = true
reaches [] (v ∷ p) n = false
reaches (w ∷ ws) [] (node l ls s) =
    if w == plus_sign || w == hash_sign
    then (if w == plus_sign then false else has_links ls)
    else false
reaches (w ∷ ws) (v ∷ p) (node l ls s) =
    let child : Bool = elim (find_link v ls) [ none ↦ false | some n ↦ reaches ws p n ] in
    let made = reaches ws p (link_or_new w ls) in
    if w == plus_sign
    then child
    else if w == hash_sign
    then has_node (v ∷ p) (node l ls s)
    else w == v && made

-- Each level has one link.
unfoldable mutual
  pub IsTree : Node → Type 0
  IsTree (node l ls s) = IsTreeBelow ls

  pub IsTreeBelow : Links → Type 0
  IsTreeBelow no_links = Unit {0}
  IsTreeBelow (link k n ls) = (find_link k ls ≡ none) × IsTree n × IsTreeBelow ls

unfoldable pub path_in : NodePath → List NodePath → Bool
path_in p [] = false
path_in p (q ∷ ps) = path_beq q p || path_in p ps

pub path_in-append :
    (p : NodePath) (ps qs : List NodePath) → path_in p (ps ++ qs) ≡ (path_in p ps || path_in p qs)
unfolding path_in
path_in-append p [] qs = refl
path_in-append p (q ∷ ps) qs = ground (arith, path_in-append p ps qs)

path_beq→eq : (p q : NodePath) → path_beq p q ≡ true → p ≡ q
unfolding path_beq
path_beq→eq [] [] h = refl
path_beq→eq (v ∷ p) (w ∷ q) h = ground (arith, path_beq→eq p q, string_eq.same_iff v w)
path_beq→eq [] (w ∷ q) h = cc
path_beq→eq (v ∷ p) [] h = cc

pub path_beq_refl : (p : NodePath) → path_beq p p ≡ true
unfolding path_beq
path_beq_refl [] = refl
path_beq_refl (v ∷ p) = ground (arith, path_beq_refl p, string_eq.same_iff v v)

-- What holds of all members holds of one.
pub path_in-All :
    (P : NodePath → Type 0) (p : NodePath) (ps : List NodePath)
    → All P ps
    → path_in p ps ≡ true
    → P p
unfolding path_in
path_in-All P p [] h e = cc
path_in-All P p (q ∷ ps) h e = elim (Bool-cases (path_beq q p)) [
  | inl here ↦ subst P (path_beq→eq q p here) h.0
  | inr there ↦ path_in-All P p ps h.1 (ground arith)
]

-- Links keep one for each level when one is set.
pub set_link-IsTreeBelow :
    (k : List ℕ) (n : Node) (ls : Links) → IsTree n → IsTreeBelow ls → IsTreeBelow (set_link k n ls)
unfolding IsTree IsTreeBelow set_link find_link
set_link-IsTreeBelow k n no_links t h = (refl, t, tt)
set_link-IsTreeBelow k n (link i m ls) t h =
    if-cases IsTreeBelow (i == k) _ _
      (λ same. (ground (arith, string_eq.same_iff i k, h.0), t, h.2))
      (λ other. (
        ground (
          arith,
          find_link-set_link i k n ls,
          string_eq.same_iff k i,
          string_eq.same_iff i k,
          h.0,
        ),
        h.1,
        set_link-IsTreeBelow k n ls t h.2,
      ))

pub find_link-IsTree :
    (v : List ℕ) (n : Node) (ls : Links) → IsTreeBelow ls → find_link v ls ≡ some n → IsTree n
unfolding IsTreeBelow find_link
find_link-IsTree v n no_links h e = cc
find_link-IsTree v n (link k m ls) h e =
    if-cases (λ o. o ≡ some n → IsTree n) (k == v) _ _
      (λ same e. subst IsTree (some-injective m n e) h.1) (λ other e. find_link-IsTree v n ls h.2 e)
      e

pub link_or_new-IsTree : (w : List ℕ) (ls : Links) → IsTreeBelow ls → IsTree (link_or_new w ls)
link_or_new-IsTree w ls h =
    Option-cases IsTree (find_link w ls) _ _ (λ missing. unfold IsTree IsTreeBelow in tt)
      (λ n there. find_link-IsTree w n ls h there)
