-- ===== src/Packets/Length/RoundTrip.antt =====
-- `decode_length` on what `encode_length` writes.
use culex_mqtt_broker.Common.{
  ℕ, zero, suc, ◌+◌, ◌*◌, ◌/◌, ◌%◌, ◌^◌, ◌≤◌, ◌<◌, ◌≡◌, List, [], ◌∷◌, ◌++◌, some, done, throws,
  malformed_remaining_length, length, length-append, low_seven, top_bit, arith, ap, ◌∙◌,
}
use culex_mqtt_broker.Packets.Length.{decode_loop, decode_length}
use culex_mqtt_broker.Packets.Length.Encode.{base128, base128_small, base128_large, length-base128}
use native.Mathlib.Decide.{dec_lt}
use native.Mathlib.Nat.{pow-suc, div-add-mod}

-- One round: on a last byte, on a byte with its top bit set, and on a fourth byte.
decode_loop_last :
    (b available i len m : ℕ) (rest : List ℕ)
    → b < 128
    → i < available
    → m ≤ 128 * 128
    → decode_loop (b ∷ rest) available i len m ≡ done (some (len + b * m), rest)
unfolding decode_loop
decode_loop_last b available i len m rest hb hi hm = ground (arith, low_seven b, top_bit b)

decode_loop_more :
    (g available i len m : ℕ) (rest : List ℕ)
    → g < 128
    → i < available
    → m ≤ 128 * 128
    → decode_loop ((g + 128) ∷ rest) available i len m
      ≡ decode_loop rest available (i + 1) (len + g * m) (m * 128)
unfolding decode_loop
decode_loop_more g available i len m rest hg hi hm =
    ground (arith, low_seven (g + 128), top_bit (g + 128))

decode_loop_fourth :
    (mem : List ℕ) (available i len m : ℕ)
    → 1 ≤ length mem
    → i < available
    → 128 * 128 < m
    → decode_loop mem available i len m ≡ throws malformed_remaining_length
unfolding decode_loop
decode_loop_fourth [] available i len m hl hi hm = absurd (omega arith)
decode_loop_fourth (b ∷ rest) available i len m hl hi hm = ground arith

pub power_pos : (k : ℕ) → 1 ≤ 128 ^ k
power_pos zero = omega arith
power_pos (suc k) = omega (arith, pow-suc 128 k, power_pos k)

-- The encoding of `n`, whose lowest group stands for `m`.
decode_loop-base128 :
    (k j n available i len m : ℕ) (rest : List ℕ)
    → k ≤ j
    → n < 128 ^ suc k
    → m * 128 ^ k ≤ 128 * 128
    → i + length (base128 j n) ≤ available
    → decode_loop (base128 j n ++ rest) available i len m ≡ done (some (len + n * m), rest)
decode_loop-base128 zero j n available i len m rest hj hn hm ha =
    let e = base128_small j n (omega arith) in
    rw e (
      decode_loop_last n available i len m rest (omega arith) (omega (arith, ap length e))
        (omega arith))
decode_loop-base128 (suc k) zero n available i len m rest hj hn hm ha = absurd (omega arith)
decode_loop-base128 (suc k) (suc j) n available i len m rest hj hn hm ha = elim (dec_lt n 128) [
  | yes small ↦
      let e = base128_small (suc j) n small in
      rw e (decode_loop_last n available i len m rest small (omega (arith, ap length e)) m_small)
  | no large ↦
      let e = base128_large j n (omega arith) in
      rw e (
        decode_loop_more (n % 128) available i len m (base128 j (n / 128) ++ rest) (omega arith)
          (omega (arith, ap length e)) m_small
        ∙ decode_loop-base128 k j (n / 128) available (i + 1) (len + n % 128 * m) (m * 128) rest
            (omega arith) (omega (arith, pow-suc 128 (suc k)))
            (omega (arith, pow-suc 128 k, ap (λ (t : ℕ). m * t) (pow-suc 128 k)))
            (omega (arith, ap length e))
        ∙ ap (λ (t : ℕ). done (some t, rest))
            (omega (arith, ap (λ (t : ℕ). t * m) (div-add-mod n 128))))
]
  where
    m_small : m ≤ 128 * 128
    m_small = grind (arith, power_pos (suc k))

-- A length below 128 ^ 3 is read back from its encoding if that is available, and what follows
-- the encoding is left.
pub decode_length-base128 :
    (n available : ℕ) (rest : List ℕ)
    → n < 128 ^ 3
    → length (base128 4 n) ≤ available
    → decode_length (base128 4 n ++ rest) available ≡ done (some n, rest)
unfolding decode_length
decode_length-base128 n available rest h ha =
    decode_loop-base128 2 4 n available 0 0 1 rest (omega arith) h (omega arith) (omega arith)
    ∙ ap (λ (t : ℕ). done (some t, rest)) (omega arith)

-- A length from 128 ^ 3 on is refused: where its encoding is available, the fourth byte makes
-- `decode_length` throw.
pub decode_length_four_bytes :
    (n available : ℕ) (rest : List ℕ)
    → 128 ^ 3 ≤ n
    → length (base128 4 n) ≤ available
    → decode_length (base128 4 n ++ rest) available ≡ throws malformed_remaining_length
unfolding decode_length
decode_length_four_bytes n available rest h ha =
    let e₁ = base128_large 3 n (omega arith) in
    let e₂ = base128_large 2 (n / 128) (omega arith) in
    let e₃ = base128_large 1 (n / 128 / 128) (omega arith) in
    let l₁ = ap length e₁ in
    let l₂ = ap length e₂ in
    let l₃ = ap length e₃ in
    let (last, _) = length-base128 1 (n / 128 / 128 / 128) in
    rw (e₁, e₂, e₃)
      (decode_loop_more (n % 128) available 0 0 1 _ (omega arith) (omega arith) (omega arith)
        ∙ decode_loop_more (n / 128 % 128) available 1 _ 128 _ (omega arith) (omega arith)
            (omega arith)
        ∙ decode_loop_more (n / 128 / 128 % 128) available 2 _ (128 * 128) _ (omega arith)
            (omega arith) (omega arith)
        ∙ decode_loop_fourth _ available 3 _ (128 * 128 * 128)
            (omega (arith, length-append (base128 1 (n / 128 / 128 / 128)) rest)) (omega arith)
            (omega arith))
