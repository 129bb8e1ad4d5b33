-- ===== src/Unpack/Errors.antt =====
-- What `unpack` does with bytes that are not a whole packet of a type that it knows.
use culex_mqtt_broker.Common.{
  ℕ, ◌+◌, ◌/◌, ◌^◌, ◌≤◌, ◌<◌, ◌≡◌, ◌∙◌, ◌⊎◌, inl, inr, List, ◌∷◌, ◌++◌, none, some, Outcome, done,
  throws, faults, malformed_remaining_length, length, get_elem?, get_elem?_past, All, arith,
}
use culex_mqtt_broker.Core.{Core, Reads}
use culex_mqtt_broker.Packets.{Packet, mqtt_err, partial_packet}
use culex_mqtt_broker.Packets.Flags.{unpack_header}
use culex_mqtt_broker.Packets.FlagsRoundTrip.{unpack_header_fields}
use culex_mqtt_broker.Packets.Length.{decode_length}
use culex_mqtt_broker.Packets.Length.Encode.{base128, length-base128}
use culex_mqtt_broker.Packets.Length.RoundTrip.{decode_length_four_bytes}
use culex_mqtt_broker.Packets.Length.Bounds.{GoesOn, decode_length_overread}
use culex_mqtt_broker.Unpack.{
  Unpacked, is_partial, framed, dispatch, unpack, unpack_handlers, connect_body, publish_body,
  ack_body, subscribe_body, unsubscribe_body, unpack_connect, unpack_publish, unpack_ack,
  unpack_subscribe, unpack_unsubscribe,
}
use culex_mqtt_broker.Unpack.Wire.Frames.{framed-base128_short}

-- The types that have a deserializer, those that have none in the table, and those past its end.
abbrev pub IsHandled : ℕ → Type 0
IsHandled k = (k ≡ 1) ⊎ ((3 ≤ k) × (k ≤ 8)) ⊎ (k ≡ 10)

abbrev pub IsNull : ℕ → Type 0
IsNull k = (k ≡ 0) ⊎ (k ≡ 2) ⊎ (k ≡ 9)

six_cases :
    (k : ℕ) → 3 ≤ k → k ≤ 8 → (k ≡ 3) ⊎ ((k ≡ 4) ⊎ ((k ≡ 5) ⊎ ((k ≡ 6) ⊎ ((k ≡ 7) ⊎ (k ≡ 8)))))
six_cases k lo hi = grind arith

framed_throws :
    (packet : Packet) (mem : List ℕ) (available : ℕ) (body : ℕ → List ℕ → Outcome Unpacked)
    → 1 < available
    → decode_length mem available ≡ throws malformed_remaining_length
    → framed packet mem available body ≡ throws malformed_remaining_length
unfolding framed is_partial
framed_throws packet mem available body h e = ground arith

framed_faults :
    (packet : Packet) (mem : List ℕ) (available : ℕ) (body : ℕ → List ℕ → Outcome Unpacked)
    → 1 < available
    → decode_length mem available ≡ faults
    → framed packet mem available body ≡ faults
unfolding framed is_partial
framed_faults packet mem available body h e = ground arith

module _ (c : Core) (reads : Reads c) where
  -- The entry of the table decides.
  unpack-byte :
      (packet : Packet) (b : ℕ) (mem : List ℕ) (available : ℕ)
      → b < 256
      → unpack c packet (b ∷ mem) available
        ≡ dispatch
            (get_elem? (unpack_handlers c) (b / 16))
            (record packet { header = unpack_header b })
            mem
            available
  unfolding unpack
  unpack-byte packet b mem available h = rw (reads.u8 b mem, (unpack_header_fields b h).0)

  past_end : (k : ℕ) → 11 ≤ k → get_elem? (unpack_handlers c) k ≡ none
  unfolding unpack_handlers
  past_end k h = get_elem?_past (unpack_handlers c) k h

  null_entry : (k : ℕ) → IsNull k → get_elem? (unpack_handlers c) k ≡ some none
  unfolding unpack_handlers
  null_entry k (inl e) = rw e
  null_entry k (inr (inl e)) = rw e
  null_entry k (inr (inr e)) = rw e

  -- A first byte whose type is 0, CONNACK or SUBACK is reported as an error, with nothing read of
  -- what follows.
  pub unpack_null_entry :
      (packet : Packet) (b : ℕ) (mem : List ℕ) (available : ℕ)
      → b < 256
      → IsNull (b / 16)
      → unpack c packet (b ∷ mem) available
        ≡ done (mqtt_err, record packet { header = unpack_header b }, mem)
  unpack_null_entry packet b mem available h null =
      unpack-byte packet b mem available h ∙ rw (null_entry (b / 16) null)

  -- On a first byte whose type is 11 or more, such as PINGREQ and DISCONNECT, `unpack` indexes its
  -- table past the end, whatever follows.
  pub unpack_past_end :
      (packet : Packet) (b : ℕ) (mem : List ℕ) (available : ℕ)
      → b < 256
      → 11 ≤ b / 16
      → unpack c packet (b ∷ mem) available ≡ faults
  unpack_past_end packet b mem available h past =
      unpack-byte packet b mem available h ∙ rw (past_end (b / 16) past)

  abbrev FramedEntry : ℕ → Type 0
  FramedEntry k =
      (run : Packet → List ℕ → ℕ → List ℕ → Outcome Unpacked) × (get_elem? (unpack_handlers c) k
        ≡ some (some (λ packet mem available. framed packet mem available (run packet mem))))

  framed_entry : (k : ℕ) → IsHandled k → FramedEntry k
  unfolding unpack_handlers unpack_connect unpack_publish unpack_ack unpack_subscribe
      unpack_unsubscribe
  framed_entry k (inl e) = (connect_body c, rw e)
  framed_entry k (inr (inl (lo, hi))) = elim (six_cases k lo hi) [
    | inl e ↦ (publish_body c, rw e)
    | inr (inl e) ↦ (ack_body c, rw e)
    | inr (inr (inl e)) ↦ (ack_body c, rw e)
    | inr (inr (inr (inl e))) ↦ (ack_body c, rw e)
    | inr (inr (inr (inr (inl e)))) ↦ (ack_body c, rw e)
    | inr (inr (inr (inr (inr e)))) ↦ (subscribe_body c, rw e)
  ]
  framed_entry k (inr (inr e)) = (unsubscribe_body c, rw e)

  unpack-framed :
      (packet : Packet) (b : ℕ) (mem : List ℕ) (available : ℕ)
      → b < 256
      → (entry : FramedEntry (b / 16))
      → unpack c packet (b ∷ mem) available
        ≡ framed
            (record packet { header = unpack_header b })
            mem
            available
            (entry.0 (record packet { header = unpack_header b }) mem)
  unpack-framed packet b mem available h entry = unpack-byte packet b mem available h ∙ rw entry.1

  -- A packet of a known type of which the length field is there whole and the rest is not, is
  -- reported as partial.
  pub unpack_cut_short :
      (packet : Packet) (b n : ℕ) (part : List ℕ)
      → b < 256
      → IsHandled (b / 16)
      → n < 128 ^ 3
      → length part < n
      → unpack c packet (b ∷ (base128 4 n ++ part)) (1 + length (base128 4 n) + length part)
        ≡ done (partial_packet, record packet { header = unpack_header b }, part)
  unpack_cut_short packet b n part hb hk small short =
      let entry = framed_entry (b / 16) hk in
      unpack-framed packet b _ _ hb entry
      ∙ framed-base128_short _ n _ part _ small (omega arith) (omega arith)

  -- A packet of a known type whose remaining length is 128 ^ 3 or more makes `unpack` throw as soon
  -- as the length field is there.
  pub unpack_large :
      (packet : Packet) (b n available : ℕ) (rest : List ℕ)
      → b < 256
      → IsHandled (b / 16)
      → 128 ^ 3 ≤ n
      → 1 + length (base128 4 n) ≤ available
      → unpack c packet (b ∷ (base128 4 n ++ rest)) available ≡ throws malformed_remaining_length
  unpack_large packet b n available rest hb hk large fits =
      let entry = framed_entry (b / 16) hk in
      unpack-framed packet b _ _ hb entry
      ∙ framed_throws _ _ available _ (omega (arith, length-base128 4 n))
          (decode_length_four_bytes n available rest large (omega arith))

  -- A packet of a known type of which only the first byte and at most three bytes of an unfinished
  -- length field have come makes `unpack` read past the end of what has come.
  pub unpack_overreads :
      (packet : Packet) (b : ℕ) (mem : List ℕ)
      → b < 256
      → IsHandled (b / 16)
      → All GoesOn mem
      → 1 ≤ length mem
      → length mem ≤ 3
      → unpack c packet (b ∷ mem) (length (b ∷ mem)) ≡ faults
  unpack_overreads packet b mem hb hk go lo hi =
      let entry = framed_entry (b / 16) hk in
      unpack-framed packet b _ _ hb entry
      ∙ framed_faults _ mem _ _ (omega arith)
          (decode_length_overread mem (length (b ∷ mem)) go hi (omega arith))
