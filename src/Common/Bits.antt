-- ===== src/Common/Bits.antt =====
-- Masks and shifts on one byte as arithmetic; every value is checked by evaluation.
use Prim.Native.Nat.{ℕ, zero, suc, ◌+◌, ◌*◌, ◌/◌, ◌%◌, ◌<◌, bit_and, bit_or}
use mathlib.Core.Path.{◌≡◌, refl}
use mathlib.Core.Bool.{Bool, true, false, ◌&&◌}
use mathlib.Core.Logic.{◌⊎◌, inl, inr}
use native.Mathlib.Omega.{arith}
use culex_mqtt_broker.Common.Tests.{nat_beq, nat_beq_iff}

-- Whether two functions have the same values below a bound.
unfoldable pub agree_below : (ℕ → ℕ) → (ℕ → ℕ) → ℕ → Bool
agree_below f g zero = true
agree_below f g (suc bound) = nat_beq (f bound) (g bound) && agree_below f g bound

both_true : (a b : Bool) → (a && b) ≡ true → (a ≡ true) × (b ≡ true)
both_true true b h = (refl, h)
both_true false b h = cc

last_or_below : (x bound : ℕ) → x < suc bound → (x ≡ bound) ⊎ (x < bound)
last_or_below x bound h = grind arith

-- Two functions that agree on every value below a bound, by evaluation.
pub eq_below :
    (bound : ℕ) (f g : ℕ → ℕ) → agree_below f g bound ≡ true → (x : ℕ) → x < bound → f x ≡ g x
unfolding agree_below
eq_below zero f g h x below = absurd (omega arith)
eq_below (suc bound) f g h x below =
    let (here, others) = both_true (nat_beq (f bound) (g bound)) (agree_below f g bound) h in
    elim (last_or_below x bound below) [
      | inl e ↦ rw e ((nat_beq_iff (f bound) (g bound)).0 here)
      | inr lt ↦ eq_below bound f g others x lt
    ]

pub low_seven : (b : ℕ) → b < 256 → bit_and b 127 ≡ b % 128
unfolding agree_below
low_seven = eq_below 256 (λ b. bit_and b 127) (λ b. b % 128) refl

pub top_bit : (b : ℕ) → b < 256 → bit_and b 128 ≡ b / 128 * 128
unfolding agree_below
top_bit = eq_below 256 (λ b. bit_and b 128) (λ b. b / 128 * 128) refl

pub set_top_bit : (b : ℕ) → b < 128 → bit_or b 128 ≡ b + 128
unfolding agree_below
set_top_bit = eq_below 128 (λ b. bit_or b 128) (λ b. b + 128) refl
