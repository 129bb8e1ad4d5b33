-- ===== src/Unpack/Wire/Frames.antt =====
-- The deserializers' way to the body of a packet.
use culex_mqtt_broker.Common.{
  ℕ, ◌+◌, ◌*◌, ◌-◌, ◌/◌, ◌%◌, ◌^◌, ◌≤◌, ◌<◌, ◌≡◌, ap, ◌∙◌, List, ◌++◌, some, Outcome, done, length,
  length-append, get_elem?, arith,
}
use mathlib.Core.List.{append_assoc}
use culex_mqtt_broker.Core.{Core, Reads}
use culex_mqtt_broker.Packets.{Packet, partial_packet}
use culex_mqtt_broker.Packets.Flags.{Header, pack_header}
use culex_mqtt_broker.Packets.FlagsRoundTrip.{unpack_header-pack_header}
use culex_mqtt_broker.Packets.Length.Encode.{base128}
use culex_mqtt_broker.Unpack.{Unpacked, framed, unpack, unpack_handlers}
use culex_mqtt_broker.Unpack.Frame.{is_partial-base128, is_partial-base128_short}
use culex_mqtt_broker.Unpack.Wire.{IsShort, u16_bytes, string_bytes, frame_bytes}

pub framed-base128 :
    (packet : Packet) (n available : ℕ) (rest : List ℕ) (body : ℕ → List ℕ → Outcome Unpacked)
    → n < 128 ^ 3
    → 1 + length (base128 4 n) + n ≤ available
    → framed packet (base128 4 n ++ rest) available body ≡ body n rest
unfolding framed
framed-base128 packet n available rest body small fits =
    rw (is_partial-base128 n available rest small fits)

pub framed-base128_short :
    (packet : Packet) (n available : ℕ) (rest : List ℕ) (body : ℕ → List ℕ → Outcome Unpacked)
    → n < 128 ^ 3
    → length (base128 4 n) < available
    → available < 1 + length (base128 4 n) + n
    → framed packet (base128 4 n ++ rest) available body ≡ done (partial_packet, packet, rest)
unfolding framed
framed-base128_short packet n available rest body small whole short =
    rw (is_partial-base128_short n available rest small whole short)

module _ (c : Core) (reads : Reads c) where
  pub unpack_u16-bytes :
      (v : ℕ) (rest : List ℕ) → v < 256 * 256 → c.unpack_u16 (u16_bytes v ++ rest) ≡ done (v, rest)
  unpack_u16-bytes v rest h =
      reads.u16 (v / 256) (v % 256) rest (omega arith) (omega arith)
      ∙ ap (λ (t : ℕ). done (t, rest)) (omega arith)

  pub unpack_string16-bytes :
      (s rest : List ℕ) → IsShort s → c.unpack_string16 (string_bytes s ++ rest) ≡ done (s, rest)
  unpack_string16-bytes s rest h =
      reads.string16 (length s / 256) (length s % 256) s rest (omega arith) (omega arith)
        (omega arith)

  -- A packet on the wire reaches the handler of its type with its header read.
  pub unpack-frame :
      (packet : Packet) (h : Header) (body rest : List ℕ) (available : ℕ)
      (handler : Packet → List ℕ → ℕ → Outcome Unpacked)
      → h.kind < 16
      → h.qos < 4
      → get_elem? (unpack_handlers c) h.kind ≡ some (some handler)
      → unpack c packet (frame_bytes h body ++ rest) available
        ≡ handler
            (record packet { header = h })
            (base128 4 (length body) ++ (body ++ rest))
            available
  unfolding unpack
  unpack-frame packet h body rest available handler hk hq e =
      let header = unpack_header-pack_header h hk hq in
      rw (reads.u8 (pack_header h) ((base128 4 (length body) ++ body) ++ rest), header.1, e)
        (rw append_assoc)

  -- So the lines behind a deserializer's opening run on the body of the packet.
  pub unpack-frame_body :
      (packet : Packet) (h : Header) (body rest : List ℕ) (available : ℕ)
      (run : Packet → List ℕ → ℕ → List ℕ → Outcome Unpacked)
      → h.kind < 16
      → h.qos < 4
      → get_elem? (unpack_handlers c) h.kind
        ≡ some (some (λ packet mem available. framed packet mem available (run packet mem)))
      → length body < 128 ^ 3
      → length (frame_bytes h body) ≤ available
      → unpack c packet (frame_bytes h body ++ rest) available
        ≡ run
            (record packet { header = h })
            (base128 4 (length body) ++ (body ++ rest))
            (length body)
            (body ++ rest)
  unpack-frame_body packet h body rest available run hk hq e small fits =
      unpack-frame packet h body rest available _ hk hq e
      ∙ framed-base128 (record packet { header = h }) (length body) available (body ++ rest) _ small
          (omega (arith, length-append (base128 4 (length body)) body))

-- The packet length that a deserializer computes is that of the packet on the wire.
pub frame_length :
    (h : Header) (body rest : List ℕ)
    → 1 + (length (base128 4 (length body) ++ (body ++ rest)) - length (body ++ rest)) + length body
      ≡ length (frame_bytes h body)
frame_length h body rest = omega (
  arith,
  length-append (base128 4 (length body)) (body ++ rest),
  length-append (base128 4 (length body)) body,
)
