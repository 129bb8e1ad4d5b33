-- ===== src/Unpack/Frame.antt =====
-- `is_partial` and the lines that each deserializer opens with.
use culex_mqtt_broker.Common.{
  ℕ, ◌+◌, ◌-◌, ◌^◌, ◌≤◌, ◌<◌, ◌≡◌, refl, List, ◌++◌, Option, none, some, Outcome, done, throws,
  faults, stuck, ◌>>=◌, length, length-append, arith,
}
use culex_mqtt_broker.Packets.{Packet, mqtt_ok}
use culex_mqtt_broker.Packets.Length.Encode.{base128, length-base128}
use culex_mqtt_broker.Packets.Length.RoundTrip.{decode_length-base128}
use culex_mqtt_broker.Packets.Length.Bounds.{decode_length_moves}
use culex_mqtt_broker.Unpack.{Unpacked, is_partial, framed, framed_body}

-- A packet found complete fits into the available bytes with its first byte and its length field.
pub is_partial_complete :
    (mem : List ℕ) (available n : ℕ) (after : List ℕ)
    → is_partial mem available ≡ done (some n, after)
    → (length after < length mem) × (1 + (length mem - length after) + n ≤ available)
unfolding is_partial
is_partial_complete mem available n after e =
    ground (arith, decode_length_moves mem available n after)

-- What a successful deserializer has gone through.
pub framed_ok :
    (packet packet' : Packet) (mem after : List ℕ) (available : ℕ)
    (body : ℕ → List ℕ → Outcome Unpacked)
    → framed packet mem available body ≡ done (mqtt_ok, packet', after)
    → (n : ℕ) × (start : List ℕ) × (is_partial mem available ≡ done (some n, start))
      × (body n start ≡ done (mqtt_ok, packet', after))
unfolding framed
framed_ok packet packet' mem after available body e = go (is_partial mem available) refl e
  where
    go :
        (r : Outcome (Option ℕ × List ℕ))
        → is_partial mem available ≡ r
        → (r >>= λ (p : Option ℕ × List ℕ). framed_body packet body p.0 p.1)
          ≡ done (mqtt_ok, packet', after)
        → (n : ℕ) × (start : List ℕ) × (is_partial mem available ≡ done (some n, start))
          × (body n start ≡ done (mqtt_ok, packet', after))
    go (done (some n, start)) h e = (n, start, h, e)
    go (done (none, start)) h e = cc
    go (throws x) h e = cc
    go faults h e = cc
    go stuck h e = cc

module _ (n available : ℕ) (rest : List ℕ) (small : n < 128 ^ 3) where
  -- The length field of a packet that is there whole.
  pub is_partial-base128 :
      1 + length (base128 4 n) + n ≤ available
      → is_partial (base128 4 n ++ rest) available ≡ done (some n, rest)
  unfolding is_partial
  is_partial-base128 fits =
      let d = decode_length-base128 n available rest small (omega arith) in
      let l = length-base128 4 n in ground (arith, d, l, length-append (base128 4 n) rest)

  -- The length field of a packet of which less is there.
  pub is_partial-base128_short :
      length (base128 4 n) < available
      → available < 1 + length (base128 4 n) + n
      → is_partial (base128 4 n ++ rest) available ≡ done (none, rest)
  unfolding is_partial
  is_partial-base128_short whole short =
      let d = decode_length-base128 n available rest small (omega arith) in
      let l = length-base128 4 n in ground (arith, d, l, length-append (base128 4 n) rest)
