-- ===== src/Common/Assoc.antt =====
-- `std::unordered_map` as an association list: `find`, `operator[]` with an assignment, `insert`
-- and `erase`. The order of iteration is the order of the list.
use mathlib.Core.Path.{◌≡◌, refl, sym, subst}
use mathlib.Core.Option.{Option, none, some, some-injective}
use mathlib.Core.List.{List, [], ◌∷◌}
use native.Mathlib.Omega.{arith}
use culex_mqtt_broker.Common.Tests.{Eq, ◌==◌, if◌then◌else◌, if-cases}
use culex_mqtt_broker.Common.Lists.{All}

-- `std::optional::value_or`
abbrev pub value_or {ℓ} : {V : Type ℓ} → Option V → V → V
value_or none v = v
value_or (some w) v = w

module _ {ℓ κ} {K : Type ℓ} {V : Type κ} ⦃e : Eq K⦄ where
  unfoldable pub find : K → List (K × V) → Option V
  find k [] = none
  find k ((j, v) ∷ m) = if j == k then some v else find k m

  -- `m[k] = v`
  unfoldable pub assign : K → V → List (K × V) → List (K × V)
  assign k v [] = (k, v) ∷ []
  assign k v ((j, w) ∷ m) = if j == k then (j, v) ∷ m else (j, w) ∷ assign k v m

  -- `m.insert({k, v})`, which keeps the value of a key that is there.
  unfoldable pub insert : K → V → List (K × V) → List (K × V)
  insert k v [] = (k, v) ∷ []
  insert k v ((j, w) ∷ m) = if j == k then (j, w) ∷ m else (j, w) ∷ insert k v m

  unfoldable pub erase : K → List (K × V) → List (K × V)
  erase k [] = []
  erase k ((j, w) ∷ m) = if j == k then erase k m else (j, w) ∷ erase k m

  pub find-assign :
      (j k : K) (v : V) (m : List (K × V))
      → find j (assign k v m) ≡ (if k == j then some v else find j m)
  unfolding find assign
  find-assign j k v [] = refl
  find-assign j k v ((i, w) ∷ m) =
      ground (arith, e.same_iff k j, e.same_iff i k, e.same_iff i j, find-assign j k v m)

  pub find-erase :
      (j k : K) (m : List (K × V)) → find j (erase k m) ≡ (if k == j then none else find j m)
  unfolding find erase
  find-erase j k [] = ground arith
  find-erase j k ((i, w) ∷ m) =
      ground (arith, e.same_iff k j, e.same_iff i k, e.same_iff i j, find-erase j k m)

  pub find-insert :
      (j k : K) (v : V) (m : List (K × V))
      → find j (insert k v m) ≡ (if k == j then some (value_or (find k m) v) else find j m)
  unfolding find insert
  find-insert j k v [] = refl
  find-insert j k v ((i, w) ∷ m) =
      ground (arith, e.same_iff k j, e.same_iff i k, e.same_iff i j, find-insert j k v m)

  -- A property of all entries, under each operation.
  pub insert-All {μ} :
      (P : K × V → Type μ) (k : K) (v : V) (m : List (K × V))
      → P (k, v)
      → All P m
      → All P (insert k v m)
  unfolding insert
  insert-All P k v [] p h = (p, tt)
  insert-All P k v ((j, w) ∷ m) p h =
      if-cases (All P) (j == k) _ _ (λ same. h) (λ other. (h.0, insert-All P k v m p h.1))

  pub erase-All {μ} : (P : K × V → Type μ) (k : K) (m : List (K × V)) → All P m → All P (erase k m)
  unfolding erase
  erase-All P k [] h = tt
  erase-All P k ((j, w) ∷ m) h =
      if-cases (All P) (j == k) _ _ (λ same. erase-All P k m h.1)
        (λ other. (h.0, erase-All P k m h.1))

  pub find-All {μ} :
      (P : K × V → Type μ) (k : K) (v : V) (m : List (K × V))
      → All P m
      → find k m ≡ some v
      → P (k, v)
  unfolding find
  find-All P k v [] h e = cc
  find-All P k v ((j, w) ∷ m) h found =
      if-cases (λ o. o ≡ some v → P (k, v)) (j == k) _ _
        (λ same here. subst P (λ i. ((e.same_iff j k).0 same i, some-injective w v here i)) h.0)
        (λ other later. find-All P k v m h.1 later) found

  pub assign-All {μ} :
      (P : K × V → Type μ) (k : K) (v : V) (m : List (K × V))
      → P (k, v)
      → All P m
      → All P (assign k v m)
  unfolding assign
  assign-All P k v [] p h = (p, tt)
  assign-All P k v ((j, w) ∷ m) p h =
      if-cases (All P) (j == k) _ _
        (λ same. (subst (λ i. P (i, v)) (sym ((e.same_iff j k).0 same)) p, h.1))
        (λ other. (h.0, assign-All P k v m p h.1))
