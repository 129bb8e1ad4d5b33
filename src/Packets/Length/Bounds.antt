-- ===== src/Packets/Length/Bounds.antt =====
-- `decode_length` on any memory.
use culex_mqtt_broker.Common.{
  ℕ, zero, suc, ◌+◌, ◌*◌, ◌^◌, ◌≤◌, ◌<◌, ◌≡◌, ◌≢◌, bit_and, List, [], ◌∷◌, some, done, faults,
  stuck, length, All, IsByte, low_seven, top_bit, arith, ap,
}
use culex_mqtt_broker.Packets.Length.{decode_loop, decode_length}
use culex_mqtt_broker.Packets.Length.RoundTrip.{power_pos}
use native.Mathlib.Nat.{pow-suc}

power_three : (k : ℕ) → k ≤ 3 → 1 * 128 ^ k ≤ 128 ^ 3
power_three zero h = omega arith
power_three (suc zero) h = omega arith
power_three (suc (suc zero)) h = omega arith
power_three (suc (suc (suc zero))) h = omega arith
power_three (suc (suc (suc (suc k)))) h = absurd (omega arith)

group_small : (b : ℕ) → b < 256 → bit_and b 127 < 128
group_small b h = omega (arith, low_seven b h)

-- `len` is below `m`, the value of the next group's lowest bit, and at most `k` groups are left.
decode_loop_bounds :
    (mem : List ℕ) (k available i len m n : ℕ) (rest : List ℕ)
    → All IsByte mem
    → len < m
    → 128 ^ 3 < m * 128 ^ suc k
    → decode_loop mem available i len m ≡ done (some n, rest)
    → (n < 128 ^ 3)
      × (length rest < length mem)
      × (length mem ≤ length rest + k)
      × (length mem + i ≤ length rest + available)
unfolding decode_loop
decode_loop_bounds [] k available i len m n rest hb hl hm e = ground arith
decode_loop_bounds (b ∷ bs) zero available i len m n rest hb hl hm e = ground arith
decode_loop_bounds (b ∷ bs) (suc k) available i len m n rest hb hl hm e =
    let g = group_small b hb.0 in
    let below : len + bit_and b 127 * m < m * 128 = grind arith in
    let left : 128 ^ 3 < m * 128 * 128 ^ suc k =
      omega (arith, ap (λ (t : ℕ). m * t) (pow-suc 128 (suc k))) in
    ground (
      arith,
      decode_loop_bounds bs k available (i + 1) (len + bit_and b 127 * m) (m * 128) n rest hb.1
          below left,
    )

-- A length that `decode_length` returns from memory that holds bytes is below 128 ^ 3. It was
-- read from at least one and at most three bytes, and from no more than the available ones.
pub decode_length_bounds :
    (mem : List ℕ) (available n : ℕ) (rest : List ℕ)
    → All IsByte mem
    → decode_length mem available ≡ done (some n, rest)
    → (n < 128 ^ 3)
      × (length rest < length mem)
      × (length mem ≤ length rest + 3)
      × (length mem ≤ length rest + available)
unfolding decode_length
decode_length_bounds mem available n rest hb e =
    let b = decode_loop_bounds mem 3 available 0 0 1 n rest hb (omega arith) (omega arith) e in
    omega arith

decode_loop-ne-faults :
    (mem : List ℕ) (available i len m : ℕ)
    → available ≤ length mem + i
    → decode_loop mem available i len m ≢ faults
unfolding decode_loop
decode_loop-ne-faults [] available i len m h e = ground arith
decode_loop-ne-faults (b ∷ bs) available i len m h e =
    ground (arith, decode_loop-ne-faults bs available (i + 1) (len + bit_and b 127 * m) (m * 128))

-- `decode_length` reads nothing outside of the memory if that holds the available bytes.
pub decode_length-ne-faults :
    (mem : List ℕ) (available : ℕ) → available ≤ length mem → decode_length mem available ≢ faults
unfolding decode_length
decode_length-ne-faults mem available h = decode_loop-ne-faults mem available 0 0 1 (omega arith)

decode_loop-ne-stuck :
    (mem : List ℕ) (available i len m : ℕ) → decode_loop mem available i len m ≢ stuck
unfolding decode_loop
decode_loop-ne-stuck [] available i len m e = ground arith
decode_loop-ne-stuck (b ∷ bs) available i len m e =
    ground (arith, decode_loop-ne-stuck bs available (i + 1) (len + bit_and b 127 * m) (m * 128))

decode_loop_moves :
    (mem : List ℕ) (available i len m n : ℕ) (rest : List ℕ)
    → decode_loop mem available i len m ≡ done (some n, rest)
    → length rest < length mem
unfolding decode_loop
decode_loop_moves [] available i len m n rest e = ground arith
decode_loop_moves (b ∷ bs) available i len m n rest e =
    ground
      (arith, decode_loop_moves bs available (i + 1) (len + bit_and b 127 * m) (m * 128) n rest)

pub decode_length-ne-stuck : (mem : List ℕ) (available : ℕ) → decode_length mem available ≢ stuck
unfolding decode_length
decode_length-ne-stuck mem available = decode_loop-ne-stuck mem available 0 0 1

-- A length takes a byte at least, whatever the memory holds.
pub decode_length_moves :
    (mem : List ℕ) (available n : ℕ) (rest : List ℕ)
    → decode_length mem available ≡ done (some n, rest)
    → length rest < length mem
unfolding decode_length
decode_length_moves mem available n rest e = decode_loop_moves mem available 0 0 1 n rest e

-- A continuation byte of a length.
abbrev pub GoesOn : ℕ → Type 0
GoesOn b = (128 ≤ b) × (b < 256)

decode_loop_overread :
    (mem : List ℕ) (available i len m : ℕ)
    → All GoesOn mem
    → i + length mem < available
    → m * 128 ^ length mem ≤ 128 ^ 3
    → decode_loop mem available i len m ≡ faults
unfolding decode_loop
decode_loop_overread [] available i len m h short hm = ground arith
decode_loop_overread (b ∷ bs) available i len m h short hm =
    let step : m * 128 * 128 ^ length bs ≤ 128 ^ 3 =
      omega (arith, ap (λ (t : ℕ). m * t) (pow-suc 128 (length bs))) in
    let here : m * 128 ≤ 128 ^ 3 = grind (arith, power_pos (length bs)) in
    ground (
      arith,
      top_bit b h.0.1,
      decode_loop_overread bs available (i + 1) (len + bit_and b 127 * m) (m * 128) h.1,
    )

-- `decode_length` reads on past the end of the memory if that holds at most three bytes, all of them
-- with the top bit set, and fewer than are said to be available.
pub decode_length_overread :
    (mem : List ℕ) (available : ℕ)
    → All GoesOn mem
    → length mem ≤ 3
    → length mem < available
    → decode_length mem available ≡ faults
unfolding decode_length
decode_length_overread mem available h three short =
    decode_loop_overread mem available 0 0 1 h (omega arith) (power_three (length mem) three)
