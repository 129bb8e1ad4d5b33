-- ===== src/Unpack/Wire/Subscribing.antt =====
-- SUBSCRIBE and UNSUBSCRIBE on the wire.
use culex_mqtt_broker.Common.{
  ℕ, zero, suc, ◌+◌, ◌*◌, ◌-◌, ◌/◌, ◌%◌, ◌^◌, ◌≤◌, ◌<◌, ◌≡◌, refl, ◌∙◌, false, List, [], ◌∷◌, ◌++◌,
  done, nat_beq, length, length-append, All, arith, bit_and, not, agree_below, eq_below,
}
use mathlib.Core.List.{append_assoc, append-nil}
use culex_mqtt_broker.Core.{Core, Reads}
use culex_mqtt_broker.Packets.{
  Packet, TopicFilter, Subscribe, Unsubscribe, mqtt_ok, subscribe, unsubscribe,
}
use culex_mqtt_broker.Packets.Flags.{Header, pack_header}
use culex_mqtt_broker.Packets.FlagsRoundTrip.{bit-lt, pack_header_sum, unpack_header-pack_header}
use culex_mqtt_broker.Unpack.{
  unpack, unpack_handlers, filters_loop, subscribe_body, unpack_subscribe, topics_loop,
  unsubscribe_body, unpack_unsubscribe,
}
use culex_mqtt_broker.Unpack.Wire.{
  IsShort, string_bytes, frame_bytes, filters_bytes, subscribe_bytes, topics_bytes,
  unsubscribe_bytes,
}
use culex_mqtt_broker.Unpack.Wire.Frames.{
  unpack-frame_body, frame_length, unpack_u16-bytes, unpack_string16-bytes,
}

abbrev pub FilterFits : TopicFilter → Type 0
FilterFits f = IsShort f.topic

bit_two : (b : ℕ) → b < 256 → bit_and b 0x02 ≡ b / 2 % 2 * 2
unfolding agree_below
bit_two = eq_below 256 (λ b. bit_and b 0x02) (λ b. b / 2 % 2 * 2) refl

reserved_bits :
    (h : Header)
    → h.kind < 16
    → h.qos < 4
    → h.qos % 2 ≡ 1
    → not (nat_beq (bit_and (pack_header h) 0x02) 0x02) ≡ false
reserved_bits h hk hq odd =
    let byte = (unpack_header-pack_header h hk hq).0 in
    let r = bit-lt h.retain in ground (arith, bit_two (pack_header h) byte, pack_header_sum h hk hq)

module _ (c : Core) (reads : Reads c) where
  filters_loop_step :
      (fuel payload_len qos : ℕ) (mem topic rest : List ℕ) (acc : List TopicFilter)
      → 0 < payload_len
      → c.unpack_string16 mem ≡ done (topic, qos ∷ rest)
      → filters_loop c (suc fuel) payload_len mem acc
        ≡ filters_loop c fuel
            (payload_len - (2 + length topic + 1))
            rest
            (acc ++ record { topic = topic; qos = qos } ∷ [])
  unfolding filters_loop
  filters_loop_step fuel payload_len qos mem topic rest acc some_left read =
      ground (arith, reads.u8 qos rest)

  filters_loop-bytes :
      (fs : List TopicFilter) (fuel : ℕ) (rest : List ℕ) (acc : List TopicFilter)
      → All FilterFits fs
      → length (filters_bytes fs) ≤ fuel
      → filters_loop c fuel (length (filters_bytes fs)) (filters_bytes fs ++ rest) acc
        ≡ done (acc ++ fs, rest)
  unfolding filters_loop filters_bytes
  filters_loop-bytes [] zero rest acc hf h = rw append-nil
  filters_loop-bytes [] (suc fuel) rest acc hf h = rw append-nil
  filters_loop-bytes (f ∷ fs) zero rest acc hf h = absurd (omega arith)
  filters_loop-bytes (f ∷ fs) (suc fuel) rest acc hf h =
      let l = length-append (string_bytes f.topic) (f.qos ∷ filters_bytes fs) in
      let left : length (filters_bytes (f ∷ fs)) - (2 + length f.topic + 1)
          ≡ length (filters_bytes fs) =
        omega (arith, l) in
      let read : c.unpack_string16 (filters_bytes (f ∷ fs) ++ rest)
          ≡ done (f.topic, f.qos ∷ (filters_bytes fs ++ rest)) =
        rw append_assoc
          (unpack_string16-bytes c reads f.topic (f.qos ∷ (filters_bytes fs ++ rest)) hf.0) in
      filters_loop_step fuel _ f.qos _ f.topic _ acc (omega (arith, l)) read
      ∙ (rw left (
          filters_loop-bytes fs fuel rest (acc ++ f ∷ []) hf.1 (omega (arith, l))
          ∙ rw append_assoc))

  -- If the functions of culex-core that read do so as documented, a SUBSCRIBE packet on the wire,
  -- with any number of topic filters, which are shorter than 2 ^ 16, with a packet id of 16 bits
  -- and a remaining length below 128 ^ 3, is read back whole if it is all available. The bytes
  -- behind it are left.
  pub unpack-subscribe :
      (packet : Packet) (h : Header) (s : Subscribe) (rest : List ℕ) (available : ℕ)
      → h.kind ≡ 8
      → h.qos < 4
      → s.packet_id < 256 * 256
      → All FilterFits s.payload
      → length (subscribe_bytes s) < 128 ^ 3
      → length (frame_bytes h (subscribe_bytes s)) ≤ available
      → unpack c packet (frame_bytes h (subscribe_bytes s) ++ rest) available
        ≡ done (
          mqtt_ok,
          record {
            header = h;
            pkt_len = length (frame_bytes h (subscribe_bytes s));
            pkt = subscribe s;
          },
          rest,
        )
  unfolding unpack_subscribe
  unpack-subscribe packet h s rest available hk hq hp hf small fits =
      let body = subscribe_bytes s in
      let fb = filters_bytes s.payload in
      let left : length body - 2 ≡ length fb = omega arith in
      rw (← frame_length h body rest) (
        unpack-frame_body c reads packet h body rest available (subscribe_body c) (omega arith) hq
          (rw hk (unfold unpack_handlers unpack_subscribe in refl)) small fits
        ∙ rw (unpack_u16-bytes c reads s.packet_id (fb ++ rest) hp, left)
            (rw (filters_loop-bytes s.payload (length fb) rest [] hf (omega arith))))

  topics_loop_step :
      (fuel payload_len : ℕ) (mem topic rest : List ℕ) (acc : List (List ℕ))
      → 0 < payload_len
      → c.unpack_string16 mem ≡ done (topic, rest)
      → topics_loop c (suc fuel) payload_len mem acc
        ≡ topics_loop c fuel
            ((payload_len + 2 ^ 64 - (2 + length topic)) % 2 ^ 64)
            rest
            (acc ++ topic ∷ [])
  unfolding topics_loop
  topics_loop_step fuel payload_len mem topic rest acc some_left read = ground arith

  topics_loop-bytes :
      (ts : List (List ℕ)) (fuel : ℕ) (rest : List ℕ) (acc : List (List ℕ))
      → All IsShort ts
      → length (topics_bytes ts) ≤ fuel
      → length (topics_bytes ts) < 2 ^ 64
      → topics_loop c fuel (length (topics_bytes ts)) (topics_bytes ts ++ rest) acc
        ≡ done (acc ++ ts, rest)
  unfolding topics_loop topics_bytes
  topics_loop-bytes [] zero rest acc hf h b = rw append-nil
  topics_loop-bytes [] (suc fuel) rest acc hf h b = rw append-nil
  topics_loop-bytes (t ∷ ts) zero rest acc hf h b = absurd (omega arith)
  topics_loop-bytes (t ∷ ts) (suc fuel) rest acc hf h b =
      let l = length-append (string_bytes t) (topics_bytes ts) in
      let left : (length (topics_bytes (t ∷ ts)) + 2 ^ 64 - (2 + length t)) % 2 ^ 64
          ≡ length (topics_bytes ts) =
        omega (arith, l) in
      let read : c.unpack_string16 (topics_bytes (t ∷ ts) ++ rest)
          ≡ done (t, topics_bytes ts ++ rest) =
        rw append_assoc (unpack_string16-bytes c reads t (topics_bytes ts ++ rest) hf.0) in
      topics_loop_step fuel _ _ t _ acc (omega (arith, l)) read
      ∙ (rw left (
          topics_loop-bytes ts fuel rest (acc ++ t ∷ []) hf.1 (omega (arith, l)) (omega (arith, l))
          ∙ rw append_assoc))

  -- If the functions of culex-core that read do so as documented, an UNSUBSCRIBE packet on the
  -- wire, whose QoS bits are 1 or 3, with topics shorter than 2 ^ 16, a packet id of 16 bits and
  -- a remaining length below 128 ^ 3, is read back whole if it is all available. The bytes behind
  -- it are left.
  pub unpack-unsubscribe :
      (packet : Packet) (h : Header) (u : Unsubscribe) (rest : List ℕ) (available : ℕ)
      → h.kind ≡ 10
      → h.qos < 4
      → h.qos % 2 ≡ 1
      → u.packet_id < 256 * 256
      → All IsShort u.topics
      → length (unsubscribe_bytes u) < 128 ^ 3
      → length (frame_bytes h (unsubscribe_bytes u)) ≤ available
      → unpack c packet (frame_bytes h (unsubscribe_bytes u) ++ rest) available
        ≡ done (
          mqtt_ok,
          record {
            header = h;
            pkt_len = length (frame_bytes h (unsubscribe_bytes u));
            pkt = unsubscribe u;
          },
          rest,
        )
  unpack-unsubscribe packet h u rest available hk hq odd hp hf small fits =
      let body = unsubscribe_bytes u in
      let tb = topics_bytes u.topics in
      let left : (length body + 2 ^ 64 - 2) % 2 ^ 64 ≡ length tb = omega arith in
      let room = length-append tb rest in
      rw (← frame_length h body rest) (
        unpack-frame_body c reads packet h body rest available (unsubscribe_body c) (omega arith) hq
          (rw hk (unfold unpack_handlers unpack_unsubscribe in refl)) small fits
        ∙ unfold unsubscribe_body in
          rw
            (
              reserved_bits h (omega arith) hq odd,
              unpack_u16-bytes c reads u.packet_id (tb ++ rest) hp,
              left,
            )
            (rw (
              topics_loop-bytes u.topics (suc (length (tb ++ rest))) rest [] hf (omega arith)
                (omega arith))))
