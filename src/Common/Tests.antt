-- ===== src/Common/Tests.antt =====
-- Boolean tests on numbers and on byte strings, and conditionals.
use Prim.Native.Nat.{ℕ, compare, Ordering}
use mathlib.Core.Path.{◌≡◌, refl}
use mathlib.Core.Logic.{◌↔◌, ◌⊎◌, inl, inr}
use mathlib.Core.Bool.{Bool, true, false, ◌&&◌}
use mathlib.Core.Option.{Option, none, some}
use mathlib.Core.List.{List, [], ◌∷◌}
use native.Mathlib.Omega.{arith}

abbrev pub ltb : ℕ → ℕ → Bool
ltb a b = elim (compare a b) [ Ordering.lt ↦ true | _ ↦ false ]

abbrev pub leb : ℕ → ℕ → Bool
leb a b = elim (compare a b) [ Ordering.gt ↦ false | _ ↦ true ]

abbrev pub nat_beq : ℕ → ℕ → Bool
nat_beq a b = elim (compare a b) [ Ordering.eq ↦ true | _ ↦ false ]

pub nat_beq_iff : (a b : ℕ) → (nat_beq a b ≡ true) ↔ (a ≡ b)
nat_beq_iff a b = (λ h. ground arith, λ h. ground arith)

infix 1 if◌then◌else◌
abbrev pub if◌then◌else◌ {ℓ} : {A : Type ℓ} → Bool → A → A → A
if true then x else y = x
if false then x else y = y

pub Bool-cases : (b : Bool) → (b ≡ true) ⊎ (b ≡ false)
Bool-cases true = inl refl
Bool-cases false = inr refl

-- A `std::string` is the list of its bytes.
unfoldable pub string_beq : List ℕ → List ℕ → Bool
string_beq [] [] = true
string_beq (x ∷ xs) (y ∷ ys) = nat_beq x y && string_beq xs ys
string_beq _ _ = false

string_beq→eq : (s t : List ℕ) → string_beq s t ≡ true → s ≡ t
unfolding string_beq
string_beq→eq [] [] h = refl
string_beq→eq (x ∷ xs) (y ∷ ys) h = ground (arith, string_beq→eq xs ys)
string_beq→eq [] (y ∷ ys) h = cc
string_beq→eq (x ∷ xs) [] h = cc

string_beq_refl : (s : List ℕ) → string_beq s s ≡ true
unfolding string_beq
string_beq_refl [] = refl
string_beq_refl (x ∷ xs) = ground (arith, string_beq_refl xs)

pub string_beq_iff : (s t : List ℕ) → (string_beq s t ≡ true) ↔ (s ≡ t)
string_beq_iff s t = (string_beq→eq s t, λ e. rw e (string_beq_refl t))

-- Equality of keys, as an instance: `==` of C++.
pub record Eq {ℓ} (K : Type ℓ) : Type ℓ where
  pub same : K → K → Bool
  pub same_iff : (x y : K) → (same x y ≡ true) ↔ (x ≡ y)

pub same_refl {ℓ} : {K : Type ℓ} ⦃e : Eq K⦄ (x : K) → e.same x x ≡ true
same_refl ⦃e⦄ x = (e.same_iff x x).1 refl

instance abbrev pub string_eq : Eq (List ℕ)
string_eq = record { same = string_beq; same_iff = string_beq_iff }

instance abbrev pub nat_eq : Eq ℕ
nat_eq = record { same = nat_beq; same_iff = nat_beq_iff }

infix 50 ◌==◌
abbrev pub ◌==◌ {ℓ} : {K : Type ℓ} ⦃e : Eq K⦄ → K → K → Bool
◌==◌ ⦃e⦄ x y = e.same x y

-- A property of both branches, each under its test, holds of the conditional.
pub if-cases {ℓ κ} :
    {A : Type ℓ} (P : A → Type κ) (b : Bool) (x y : A)
    → (b ≡ true → P x)
    → (b ≡ false → P y)
    → P (if b then x else y)
if-cases P true x y h k = h refl
if-cases P false x y h k = k refl

-- The same of a case distinction on an option.
pub Option-cases {ℓ κ μ} :
    {A : Type ℓ} {B : Type κ} (P : B → Type μ) (o : Option A) (n : B) (s : A → B)
    → (o ≡ none → P n)
    → ((a : A) → o ≡ some a → P (s a))
    → P (elim o [ none ↦ n | some a ↦ s a ])
Option-cases P none n s h k = h refl
Option-cases P (some a) n s h k = k a refl

pub none-or-some {ℓ} : {A : Type ℓ} (o : Option A) → (o ≡ none) ⊎ ((a : A) × (o ≡ some a))
none-or-some none = inl refl
none-or-some (some a) = inr (a, refl)
