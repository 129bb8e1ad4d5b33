-- ===== src/Unpack/Wire/Publishing.antt =====
-- PUBLISH and the acknowledgements on the wire.
use culex_mqtt_broker.Common.{
  ℕ, suc, ◌+◌, ◌*◌, ◌-◌, ◌^◌, ◌≤◌, ◌<◌, ◌≡◌, refl, ap, ◌∙◌, ◌⊎◌, inl, inr, Bool, true, false, List,
  ◌++◌, some, done, ltb, if◌then◌else◌, length, length-append, take-append, drop-append, get_elem?,
  arith,
}
use mathlib.Core.List.{append_assoc}
use culex_mqtt_broker.Core.{Core, Reads}
use culex_mqtt_broker.Packets.{Packet, Publish, mqtt_ok, ack, publish}
use culex_mqtt_broker.Packets.Flags.{Header}
use culex_mqtt_broker.Packets.Length.Encode.{base128_small}
use culex_mqtt_broker.Unpack.{
  unpack, unpack_handlers, publish_body, ack_body, unpack_ack, unpack_publish, packet_id_if,
  take_payload,
}
use culex_mqtt_broker.Unpack.Wire.{IsShort, u16_bytes, bytes_if, frame_bytes, publish_bytes}
use culex_mqtt_broker.Unpack.Wire.Frames.{
  unpack-frame_body, frame_length, unpack_u16-bytes, unpack_string16-bytes,
}

pub length-bytes_if : (b : Bool) (v : ℕ) → length (bytes_if b (u16_bytes v)) ≡ (if b then 2 else 0)
length-bytes_if true v = refl
length-bytes_if false v = refl

four_cases : (k : ℕ) → 4 ≤ k → k ≤ 7 → (k ≡ 4) ⊎ ((k ≡ 5) ⊎ ((k ≡ 6) ⊎ (k ≡ 7)))
four_cases k lo hi = grind arith

module _ (c : Core) (reads : Reads c) where
  packet_id_if-bytes :
      (b : Bool) (v : ℕ) (rest : List ℕ)
      → v < 256 * 256
      → packet_id_if c b (bytes_if b (u16_bytes v) ++ rest)
        ≡ done (if b then v else 0, if b then 2 else 0, rest)
  packet_id_if-bytes true v rest h = rw (unpack_u16-bytes c reads v rest h)
  packet_id_if-bytes false v rest h = refl

  take_payload-append :
      (remaining_len used : ℕ) (payload rest : List ℕ)
      → remaining_len ≡ used + length payload
      → take_payload c remaining_len used (payload ++ rest) ≡ done (payload, rest)
  take_payload-append remaining_len used payload rest h =
      let e : remaining_len - used ≡ length payload = omega arith in
      ground
        (arith, e, take-append payload rest, drop-append payload rest, length-append payload rest)

  ack_entry : (k : ℕ) → 4 ≤ k → k ≤ 7 → get_elem? (unpack_handlers c) k ≡ some (some (unpack_ack c))
  unfolding unpack_handlers
  ack_entry k lo hi = elim (four_cases k lo hi) [
    | inl e ↦ rw e
    | inr (inl e) ↦ rw e
    | inr (inr (inl e)) ↦ rw e
    | inr (inr (inr e)) ↦ rw e
  ]

  -- If the functions of culex-core that read do so as documented, a PUBLISH packet on the wire
  -- whose topic is shorter than 2 ^ 16, whose packet id has 16 bits, and whose remaining length
  -- is below 128 ^ 3, with any bytes behind it, is read back if it is all available: its topic,
  -- its payload, its packet id if its QoS is not 0, and its length. The bytes behind it are left.
  pub unpack-publish :
      (packet : Packet) (h : Header) (p : Publish) (rest : List ℕ) (available : ℕ)
      → h.kind ≡ 3
      → h.qos < 4
      → IsShort p.topic
      → p.packet_id < 256 * 256
      → length (publish_bytes h p) < 128 ^ 3
      → length (frame_bytes h (publish_bytes h p)) ≤ available
      → unpack c packet (frame_bytes h (publish_bytes h p) ++ rest) available
        ≡ done (
          mqtt_ok,
          record {
            header = h;
            pkt_len = length (frame_bytes h (publish_bytes h p));
            pkt = publish (record p { packet_id = if ltb 0 h.qos then p.packet_id else 0 });
          },
          rest,
        )
  unfolding unpack_publish
  unpack-publish packet h p rest available hk hq ht hp small fits =
      let body = publish_bytes h p in
      let b = ltb 0 h.qos in
      let i = bytes_if b (u16_bytes p.packet_id) in
      let read_topic : c.unpack_string16 (body ++ rest) ≡ done (p.topic, i ++ (p.payload ++ rest)) =
        rw (append_assoc, append_assoc)
          (unpack_string16-bytes c reads p.topic (i ++ (p.payload ++ rest)) ht) in
      let read_id = packet_id_if-bytes b p.packet_id (p.payload ++ rest) hp in
      let read_payload =
        take_payload-append (length body) (length p.topic + 2 + (if b then 2 else 0)) p.payload rest
          (omega (
            arith,
            length-append p.topic (i ++ p.payload),
            length-append i p.payload,
            length-bytes_if b p.packet_id,
          )) in
      unpack-frame_body c reads packet h body rest available (publish_body c) (omega arith) hq
        (rw hk (unfold unpack_handlers unpack_publish in refl)) small fits
      ∙ rw (read_topic, read_id, read_payload, frame_length h body rest)

  -- If the functions of culex-core that read do so as documented, a PUBACK, PUBREC, PUBREL or
  -- PUBCOMP on the wire, with a packet id of 16 bits, is read back if its 4 bytes are available:
  -- the packet id and the length 4. The bytes behind it are left.
  pub unpack-ack :
      (packet : Packet) (h : Header) (packet_id : ℕ) (rest : List ℕ) (available : ℕ)
      → 4 ≤ h.kind
      → h.kind ≤ 7
      → h.qos < 4
      → packet_id < 256 * 256
      → 4 ≤ available
      → unpack c packet (frame_bytes h (u16_bytes packet_id) ++ rest) available
        ≡ done (
          mqtt_ok,
          record { header = h; pkt_len = 4; pkt = ack (record { packet_id = packet_id }) },
          rest,
        )
  unfolding unpack_ack
  unpack-ack packet h packet_id rest available lo hi hq hp fits =
      let four : length (frame_bytes h (u16_bytes packet_id)) ≡ 4 =
        ap (λ (l : List ℕ). suc (length (l ++ u16_bytes packet_id)))
          (base128_small 4 2 (omega arith)) in
      unpack-frame_body c reads packet h (u16_bytes packet_id) rest available (ack_body c)
        (omega arith) hq (unfold unpack_ack in ack_entry h.kind lo hi) (omega arith)
        (omega (arith, four))
      ∙ rw (
        unpack_u16-bytes c reads packet_id rest hp,
        frame_length h (u16_bytes packet_id) rest,
        four,
      )
