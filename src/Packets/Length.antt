-- ===== src/Packets/Length.antt =====
-- `encode_length` and `decode_length` of mqtt/src/packets.cpp.
pub mod Encode
pub mod RoundTrip
pub mod Bounds
use culex_mqtt_broker.Common.{
  ℕ, ◌+◌, ◌*◌, ◌/◌, ◌%◌, ◌^◌, ◌<◌, bit_and, bit_or, Bool, List, [], ◌∷◌, ◌++◌, Option, none, some,
  ltb, leb, nat_beq, if◌then◌else◌, Outcome, done, throws, faults, malformed_remaining_length,
  arith,
}
use mathlib.Core.Logic.{dite}
use mathlib.Core.WellFounded.{Acc, WellFounded}
use native.Mathlib.Decide.{dec_lt}

Acc-below : (k n : ℕ) → n < k → Acc ◌<◌ n
Acc-below ℕ.zero n h = absurd (omega arith)
Acc-below (ℕ.suc k) n h = Acc.intro n λ m hm. Acc-below k m (omega arith)

lt_wf : WellFounded ◌<◌
unfolding Acc-below
lt_wf = record { apply = λ n. Acc-below (ℕ.suc n) n (omega arith) }

quotient_shrinks : (len : ℕ) → 0 < len / 128 → len / 128 < len
quotient_shrinks len h = omega arith

-- The loop of `encode_length`, for a length that is not negative. `encodedbyte` stays what it was.
encode_loop : ℕ → List ℕ → (len : ℕ) → Acc ◌<◌ len → ℕ × List ℕ
encode_loop encodedbyte buff len (Acc.intro _ smaller) =
    let d = len % 128 in
    let go_on =
      dite (dec_lt 0 (len / 128))
        (λ more.
          encode_loop encodedbyte (buff ++ (bit_or d 128 % 2 ^ 8) ∷ []) (len / 128)
            (smaller _ (quotient_shrinks len more)))
        (λ _. (encodedbyte, buff ++ d ∷ [])) in
    if ltb 4 (encodedbyte + 1) then (encodedbyte, buff) else go_on

-- The returned number and the buffer, to which the bytes are appended.
pub encode_length : ℕ → List ℕ → ℕ × List ℕ
encode_length len buff = encode_loop 0 buff len (lt_wf.apply len)

-- The loop of `decode_length` over the memory from `*buff` on. It returns the length, `none` for
-- -1, and the memory from the new `*buff` on.
decode_loop : List ℕ → ℕ → ℕ → ℕ → ℕ → Outcome (Option ℕ × List ℕ)
decode_loop [] available_bytes bytes_read len multiplier =
    if leb available_bytes bytes_read then done (none, []) else faults
decode_loop (nextbyte ∷ rest) available_bytes bytes_read len multiplier =
    let len' = len + bit_and nextbyte 127 * multiplier in
    let multiplier' = multiplier * 128 in
    let more = decode_loop rest available_bytes (bytes_read + 1) len' multiplier' in
    if leb available_bytes bytes_read
    then done (none, nextbyte ∷ rest)
    else if ltb (128 * 128 * 128) multiplier'
    then throws malformed_remaining_length
    else if nat_beq (bit_and nextbyte 128) 0
    then done (some len', rest)
    else more

unfoldable pub decode_length : List ℕ → ℕ → Outcome (Option ℕ × List ℕ)
unfolding decode_loop
decode_length mem available_bytes = decode_loop mem available_bytes 0 0 1
