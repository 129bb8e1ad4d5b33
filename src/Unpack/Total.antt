-- ===== src/Unpack/Total.antt =====
-- The deserializers come to an end on every input.
use culex_mqtt_broker.Common.{
  ℕ, zero, suc, ◌+◌, ◌-◌, ◌%◌, ◌^◌, ◌≤◌, ◌<◌, ◌≡◌, ◌≢◌, refl, Bool, true, false, List, [], Option,
  none, some, Bool-cases, inl, inr, ltb, nat_beq, Outcome, stuck, >>=-ne-stuck, done-ne-stuck,
  length, All, get_elem?, get_elem?-All, bit_and, arith,
}
use culex_mqtt_broker.Core.{Core, Reads, Ends}
use culex_mqtt_broker.Packets.{Packet, TopicFilter}
use culex_mqtt_broker.Packets.Flags.{pack_header, unpack_header, unpack_flags}
use culex_mqtt_broker.Packets.Length.Bounds.{decode_length-ne-stuck}
use culex_mqtt_broker.Unpack.{
  Unpacked, dispatch, is_partial, framed, framed_body, set_pkt_len, string_if, two_strings_if,
  packet_id_if, take_payload, filters_loop, topics_loop, connect_rest, unpack_connect,
  unpack_publish, unpack_ack, unpack_subscribe, unpack_unsubscribe, unpack_handlers, unpack,
}

is_partial-ne-stuck : (mem : List ℕ) (available : ℕ) → is_partial mem available ≢ stuck
unfolding is_partial
is_partial-ne-stuck mem available e = ground (arith, decode_length-ne-stuck mem available)

framed-ne-stuck :
    (packet : Packet) (mem : List ℕ) (available : ℕ) (body : ℕ → List ℕ → Outcome Unpacked)
    → ((n : ℕ) (after : List ℕ) → body n after ≢ stuck)
    → framed packet mem available body ≢ stuck
unfolding framed
framed-ne-stuck packet mem available body h =
    >>=-ne-stuck _ _ (is_partial-ne-stuck mem available) (λ p e. go p.0 p.1)
  where
    go : (o : Option ℕ) (after : List ℕ) → framed_body packet body o after ≢ stuck
    go none after = λ e. cc
    go (some n) after = h n after

module _ (c : Core) (ends : Ends c) where
  packet_id_if-ne-stuck : (b : Bool) (mem : List ℕ) → packet_id_if c b mem ≢ stuck
  packet_id_if-ne-stuck true mem = >>=-ne-stuck _ _ (ends.u16 mem) λ p e. done-ne-stuck _
  packet_id_if-ne-stuck false mem = λ e. cc

take_payload-ne-stuck :
    (c : Core) (remaining_len used : ℕ) (mem : List ℕ)
    → take_payload c remaining_len used mem ≢ stuck
take_payload-ne-stuck c remaining_len used mem e = ground arith

module _ (c : Core) (reads : Reads c) (ends : Ends c) where
  -- Each topic filter takes three bytes of the length at least.
  filters_loop-ne-stuck :
      (fuel payload_len : ℕ) (mem : List ℕ) (acc : List TopicFilter)
      → payload_len ≤ fuel
      → filters_loop c fuel payload_len mem acc ≢ stuck
  unfolding filters_loop
  filters_loop-ne-stuck zero payload_len mem acc h = λ e. ground arith
  filters_loop-ne-stuck (suc fuel) payload_len mem acc h = elim (Bool-cases (ltb 0 payload_len)) [
    | inl more ↦
        rw (more, filters_loop)
          (>>=-ne-stuck _ _ (ends.string16 mem) (λ p e. >>=-ne-stuck _ _ (ends.u8 p.1) (λ q e'.
            filters_loop-ne-stuck fuel (payload_len - (2 + length p.0 + 1)) q.1 _ (omega arith))))
    | inr less ↦ rw (less, filters_loop) (λ e. cc)
  ]

  -- Each topic takes two bytes of the memory at least, also where the length has wrapped.
  topics_loop-ne-stuck :
      (fuel payload_len : ℕ) (mem : List ℕ) (acc : List (List ℕ))
      → length mem < fuel
      → topics_loop c fuel payload_len mem acc ≢ stuck
  unfolding topics_loop
  topics_loop-ne-stuck zero payload_len mem acc h = absurd (omega arith)
  topics_loop-ne-stuck (suc fuel) payload_len mem acc h =
      elim (Bool-cases (nat_beq payload_len 0)) [
        | inl over ↦ rw (over, topics_loop) (λ e. cc)
        | inr more ↦
            rw (more, topics_loop)
              (>>=-ne-stuck _ _ (ends.string16 mem) (λ p e.
                topics_loop-ne-stuck fuel ((payload_len + 2 ^ 64 - (2 + length p.0)) % 2 ^ 64) p.1 _
                  (omega (arith, reads.string16_moves mem p.0 p.1 e))))
      ]

  -- An entry of the jump table.
  abbrev EntryEnds : Option (Packet → List ℕ → ℕ → Outcome Unpacked) → Type 0
  EntryEnds none = Unit {0}
  EntryEnds (some handler) =
      (packet : Packet) (mem : List ℕ) (available : ℕ) → handler packet mem available ≢ stuck

  string_if-ne-stuck : (b : Bool) (mem : List ℕ) → string_if c b mem ≢ stuck
  string_if-ne-stuck true mem = ends.string16 mem
  string_if-ne-stuck false mem = λ e. cc

  two_strings_if-ne-stuck : (b : Bool) (mem : List ℕ) → two_strings_if c b mem ≢ stuck
  two_strings_if-ne-stuck true mem =
      >>=-ne-stuck _ _ (ends.string16 mem)
        λ p e. >>=-ne-stuck _ _ (ends.string16 p.1) λ q e. done-ne-stuck _
  two_strings_if-ne-stuck false mem = λ e. cc

  connect_rest-ne-stuck : (packet : Packet) (mem : List ℕ) → connect_rest c packet mem ≢ stuck
  unfolding connect_rest
  connect_rest-ne-stuck packet mem = >>=-ne-stuck _ _ (ends.u8 mem) λ p e.
      >>=-ne-stuck _ _ (ends.u8 p.1) λ q e. >>=-ne-stuck _ _ (ends.u16 q.1) λ k e.
        >>=-ne-stuck _ _ (ends.string16 k.1) λ i e.
          >>=-ne-stuck _ _ (two_strings_if-ne-stuck (unpack_flags q.0).will i.1) λ w e.
            >>=-ne-stuck _ _ (string_if-ne-stuck (unpack_flags q.0).username w.2) λ u e.
              >>=-ne-stuck _ _ (string_if-ne-stuck (unpack_flags q.0).passwd u.1)
                λ x e. done-ne-stuck _

  unpack_connect-ends : EntryEnds (some (unpack_connect c))
  unfolding unpack_connect
  unpack_connect-ends packet mem available = framed-ne-stuck packet mem available _ λ n after.
      >>=-ne-stuck _ _ (ends.string16 after)
        λ p e. ground (arith, connect_rest-ne-stuck (set_pkt_len packet mem after n) p.1)

  unpack_publish-ends : EntryEnds (some (unpack_publish c))
  unfolding unpack_publish
  unpack_publish-ends packet mem available = framed-ne-stuck packet mem available _ λ n after.
      >>=-ne-stuck _ _ (ends.string16 after) λ p e.
        >>=-ne-stuck _ _ (packet_id_if-ne-stuck c ends (ltb 0 packet.header.qos) p.1) λ q e.
          >>=-ne-stuck _ _ (take_payload-ne-stuck c n (length p.0 + 2 + q.1) q.2)
            λ x e. done-ne-stuck _

  unpack_ack-ends : EntryEnds (some (unpack_ack c))
  unfolding unpack_ack
  unpack_ack-ends packet mem available =
      framed-ne-stuck packet mem available _
        λ n after. >>=-ne-stuck _ _ (ends.u16 after) λ p e. done-ne-stuck _

  unpack_subscribe-ends : EntryEnds (some (unpack_subscribe c))
  unfolding unpack_subscribe
  unpack_subscribe-ends packet mem available = framed-ne-stuck packet mem available _ λ n after.
      >>=-ne-stuck _ _ (ends.u16 after) λ p e.
        >>=-ne-stuck _ _ (filters_loop-ne-stuck (n - 2) (n - 2) p.1 [] (omega arith))
          λ x e. done-ne-stuck _

  unpack_unsubscribe-ends : EntryEnds (some (unpack_unsubscribe c))
  unfolding unpack_unsubscribe
  unpack_unsubscribe-ends packet mem available = framed-ne-stuck packet mem available _ λ n after.
      elim (Bool-cases (nat_beq (bit_and (pack_header packet.header) 0x02) 0x02)) [
        | inl good ↦ rw good (
            >>=-ne-stuck _ _ (ends.u16 after) λ p e.
              >>=-ne-stuck _ _
                (topics_loop-ne-stuck (suc (length p.1)) ((n + 2 ^ 64 - 2) % 2 ^ 64) p.1 []
                  (omega arith))
                λ x e. done-ne-stuck _)
        | inr bad ↦ rw bad (λ e. cc)
      ]

  unpack_handlers-ends : All EntryEnds (unpack_handlers c)
  unfolding unpack_handlers
  unpack_handlers-ends = (
    tt,
    (
      unpack_connect-ends,
      (
        tt,
        (
          unpack_publish-ends,
          (
            unpack_ack-ends,
            (
              unpack_ack-ends,
              (
                unpack_ack-ends,
                (unpack_ack-ends, (unpack_subscribe-ends, (tt, (unpack_unsubscribe-ends, tt)))),
              ),
            ),
          ),
        ),
      ),
    ),
  )

  dispatch-ne-stuck :
      (entry : Option (Option (Packet → List ℕ → ℕ → Outcome Unpacked))) (packet : Packet)
      (mem : List ℕ) (available : ℕ)
      → ((handler : Option (Packet → List ℕ → ℕ → Outcome Unpacked))
          → entry ≡ some handler
          → EntryEnds handler)
      → dispatch entry packet mem available ≢ stuck
  dispatch-ne-stuck none packet mem available h = λ e. cc
  dispatch-ne-stuck (some none) packet mem available h = λ e. cc
  dispatch-ne-stuck (some (some f)) packet mem available h = h (some f) refl packet mem available

  -- If the functions of culex-core that read do so as documented and end, `unpack` ends on every
  -- input: none of its loops goes on for ever, whatever lengths the bytes claim.
  pub unpack-ne-stuck :
      (packet : Packet) (mem : List ℕ) (available : ℕ) → unpack c packet mem available ≢ stuck
  unfolding unpack
  unpack-ne-stuck packet mem available = >>=-ne-stuck _ _ (ends.u8 mem) λ p e.
      dispatch-ne-stuck (get_elem? (unpack_handlers c) (unpack_header p.0).kind) _ p.1 available
        λ handler found.
          get_elem?-All EntryEnds _ (unpack_header p.0).kind unpack_handlers-ends found
