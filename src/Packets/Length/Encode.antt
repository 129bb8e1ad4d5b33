-- ===== src/Packets/Length/Encode.antt =====
-- What `encode_length` writes: groups of seven bits, the lowest first, each but the last with its
-- top bit set.
use culex_mqtt_broker.Common.{
  ℕ, zero, suc, ◌+◌, ◌/◌, ◌%◌, ◌^◌, ◌≤◌, ◌<◌, bit_or, ◌≡◌, ◌↔◌, refl, ap, ◌∙◌, inl, inr, ◌⊎◌, List,
  [], ◌∷◌, ◌++◌, ltb, if◌then◌else◌, length, All, IsByte, set_top_bit, arith,
}
use culex_mqtt_broker.Packets.Length.{encode_loop, encode_length}
use mathlib.Core.List.{append_assoc}
use mathlib.Core.WellFounded.{Acc}

-- Groups of seven bits in at most k + 1 bytes, for `n` below 128 ^ (k + 1). Section 2.2.3 of the MQTT
-- standard has this encoding for at most four bytes, which is `n` below 128 ^ 4.
unfoldable pub base128 : ℕ → ℕ → List ℕ
base128 zero n = n ∷ []
base128 (suc k) n =
    let rest = base128 k (n / 128) in if ltb n 128 then n ∷ [] else (n % 128 + 128) ∷ rest

inner_group : (n : ℕ) → bit_or (n % 128) 128 % 2 ^ 8 ≡ n % 128 + 128
inner_group n = omega (arith, set_top_bit (n % 128) (omega arith))

encode_loop-base128 :
    (k e : ℕ) (buff : List ℕ) (n : ℕ) (w : Acc ◌<◌ n)
    → e < 4
    → n < 128 ^ suc k
    → encode_loop e buff n w ≡ (e, buff ++ base128 k n)
unfolding encode_loop base128
encode_loop-base128 zero e buff n (Acc.intro _ smaller) he h = ground arith
encode_loop-base128 (suc k) e buff n (Acc.intro _ smaller) he h =
    let group : List ℕ = (n % 128 + 128) ∷ [] in
    grind (
      arith,
      inner_group n,
      λ (w : Acc ◌<◌ (n / 128)).
          encode_loop-base128 k e (buff ++ group) (n / 128) w he (omega arith),
      append_assoc buff group (base128 k (n / 128)),
    )

pub encode_length-base128 :
    (n : ℕ) (buff : List ℕ) → n < 2 ^ 31 → encode_length n buff ≡ (0, buff ++ base128 4 n)
unfolding encode_length
encode_length-base128 n buff h = encode_loop-base128 4 0 buff n _ (omega arith) (omega arith)

pub length-base128 : (k n : ℕ) → (1 ≤ length (base128 k n)) × (length (base128 k n) ≤ k + 1)
unfolding base128
length-base128 zero n = omega arith
length-base128 (suc k) n = ground (arith, length-base128 k (n / 128))

pub base128-IsByte : (k n : ℕ) → n < 128 ^ suc k → All IsByte (base128 k n)
unfolding base128
base128-IsByte zero n h = omega arith
base128-IsByte (suc k) n h = ground (arith, base128-IsByte k (n / 128) (omega arith))

-- More room makes no difference where less is enough.
pub base128_mono : (k n : ℕ) → n < 128 ^ suc k → base128 (suc k) n ≡ base128 k n
unfolding base128
base128_mono zero n h = ground arith
base128_mono (suc k) n h = ground (arith, base128_mono k (n / 128) (omega arith))

pub base128_small : (k n : ℕ) → n < 128 → base128 k n ≡ n ∷ []
unfolding base128
base128_small zero n h = refl
base128_small (suc k) n h = ground arith

pub base128_large : (k n : ℕ) → 128 ≤ n → base128 (suc k) n ≡ (n % 128 + 128) ∷ base128 k (n / 128)
unfolding base128
base128_large k n h = ground arith

power_pos : (k : ℕ) → 0 < 128 ^ k
power_pos zero = omega arith
power_pos (suc k) = omega (arith, power_pos k)

lt-or-le : (a b : ℕ) → (a < b) ⊎ (b ≤ a)
lt-or-le a b = grind arith

-- The last byte is needed for the lengths that the others do not hold.
length-base128_over : (k n : ℕ) → 128 ^ suc k ≤ n → length (base128 (suc k) n) ≡ k + 2
unfolding base128
length-base128_over zero n h = ground arith
length-base128_over (suc k) n h =
    let large : 128 ≤ n = omega (arith, h, power_pos k) in
    ap length (base128_large (suc k) n large)
    ∙ omega (arith, length-base128_over k (n / 128) (omega arith))

-- `encode_length` appends to the buffer every length that an `int` holds, in groups of seven bits, the
-- lowest first, each but the last with its top bit set, and the number of bytes that it claims to have
-- written is always 0. For the lengths below 128 ^ 4 these are at most four bytes, as in the standard;
-- from 128 ^ 4 on they are five, which the standard does not allow.
pub encode_length_bytes :
    (n : ℕ) (buff : List ℕ)
    → n < 2 ^ 31
    → (encode_length n buff ≡ (0, buff ++ base128 4 n))
      × (length (base128 4 n) ≤ 5)
      × ((length (base128 4 n) ≡ 5) ↔ (128 ^ 4 ≤ n))
encode_length_bytes n buff h =
    let sizes = length-base128 4 n in
    (
      encode_length-base128 n buff h,
      omega (arith, sizes),
      (
        λ five. elim (lt-or-le n (128 ^ 4)) [
          | inl low ↦
              absurd (omega (arith, five, ap length (base128_mono 3 n low), length-base128 3 n))
          | inr over ↦ over
        ],
        length-base128_over 3 n,
      ),
    )
