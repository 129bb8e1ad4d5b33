-- ===== src/TestClients/Publisher.antt =====
-- The packets of the test clients as `unpack` of mqtt/src/unpack.cpp reads them.
use culex_mqtt_broker.Common.{
  ℕ, zero, suc, ◌+◌, ◌%◌, ◌^◌, ◌≤◌, ◌<◌, ◌≡◌, refl, sym, ap, ◌∙◌, false, List, [], ◌∷◌, ◌++◌, ltb,
  leb, if◌then◌else◌, if-cases, Outcome, done, done-injective, length, length-append, arith,
}
use mathlib.Core.Path.{ap₂}
use culex_mqtt_broker.Core.{Core, Reads}
use culex_mqtt_broker.Packets.{Packet, Publish, publish, subscribe, mqtt_ok}
use culex_mqtt_broker.Packets.Flags.{Header, pack_header}
use culex_mqtt_broker.Packets.Length.Encode.{base128_small}
use culex_mqtt_broker.Unpack.{unpack}
use culex_mqtt_broker.Unpack.Wire.{
  u16_bytes, string_bytes, bytes_if, frame_bytes, publish_bytes, subscribe_bytes, filters_bytes,
}
use culex_mqtt_broker.Unpack.Wire.Publishing.{unpack-publish, length-bytes_if}
use culex_mqtt_broker.Unpack.Wire.Subscribing.{unpack-subscribe}
use culex_mqtt_broker.Session.Exchange.{subscribe_header, one_filter}
use culex_mqtt_broker.TestClients.{
  fill, put_id, put_topic, publish_qos0, publish_qos1, publish_qos2, send_subscribe,
}

-- What is in the buffer, if it fits.
filled : (l bytes : List ℕ) → fill l ≡ done bytes → (bytes ≡ l) × (length l ≤ 100)
filled l bytes e =
    if-cases (λ (r : Outcome (List ℕ)). r ≡ done bytes → (bytes ≡ l) × (length l ≤ 100))
      (leb (length l) 100) _ _ (λ fits e. (sym (done-injective _ _ e), ground (arith, fits)))
      (λ over e. ground (arith, e)) e

put_topic-string_bytes :
    (topic : List ℕ) → length topic < 256 → put_topic topic ≡ string_bytes topic
put_topic-string_bytes topic short =
    ap (λ b. b ∷ (length topic % 256) ∷ topic) (omega (arith, short))

-- A packet whose remaining length takes one byte.
one_byte_frame :
    (h : Header) (first remaining : ℕ) (body : List ℕ)
    → pack_header h ≡ first
    → remaining ≡ length body
    → remaining < 128
    → first ∷ (remaining % 2 ^ 8) ∷ body ≡ frame_bytes h body
one_byte_frame h first remaining body packed size small =
    let same : remaining % 2 ^ 8 ≡ length body = omega (arith, size, small) in
    rw (sym packed, same, base128_small 4 (length body) (omega (arith, size, small))) refl

abbrev pub news_header : ℕ → Header
news_header qos = record { kind = 3; dup = false; qos = qos; retain = false }

abbrev pub news : List ℕ → List ℕ → ℕ → Publish
news topic payload packet_id = record { topic = topic; packet_id = packet_id; payload = payload }

-- The three publishers.
unfoldable pub publish_packet : ℕ → List ℕ → List ℕ → ℕ → Outcome (List ℕ)
publish_packet zero topic payload packet_id = publish_qos0 topic payload
publish_packet (suc zero) topic payload packet_id = publish_qos1 topic payload packet_id
publish_packet (suc (suc qos)) topic payload packet_id = publish_qos2 topic payload packet_id

-- In the standard's format.
publish_frame :
    (qos first remaining packet_id : ℕ) (topic payload numbered bytes : List ℕ)
    → pack_header (news_header qos) ≡ first
    → numbered ≡ bytes_if (ltb 0 qos) (u16_bytes packet_id)
    → remaining ≡ 2 + length topic + length numbered + length payload
    → fill (first ∷ (remaining % 2 ^ 8) ∷ (put_topic topic ++ (numbered ++ payload))) ≡ done bytes
    → (bytes
        ≡ frame_bytes
            (news_header qos)
            (publish_bytes (news_header qos) (news topic payload packet_id)))
      × (2 + length topic + length numbered + length payload ≤ 98)
publish_frame qos first remaining packet_id topic payload numbered bytes packed same size e =
    let (is, fits) =
      filled (first ∷ (remaining % 2 ^ 8) ∷ (put_topic topic ++ (numbered ++ payload))) bytes e in
    let behind = length-append topic (numbered ++ payload) in
    let last = length-append numbered payload in
    let small : 2 + length topic + length numbered + length payload ≤ 98 =
      omega (arith, fits, behind, last) in
    let short : length topic < 256 = omega (arith, small) in
    let i = bytes_if (ltb 0 qos) (u16_bytes packet_id) in
    let behind' = length-append topic (i ++ payload) in
    let last' = length-append i payload in
    (
      is
          ∙ ap (λ l. first ∷ (remaining % 2 ^ 8) ∷ l)
              (ap₂ (λ a b. a ++ (b ++ payload)) (put_topic-string_bytes topic short) same)
          ∙ one_byte_frame (news_header qos) first remaining _ packed
              (omega (arith, size, behind', last', ap length same)) (omega (arith, small, size)),
      small,
    )

-- The bytes in the buffer of each publisher.
pub publish_packet_frame :
    (qos packet_id : ℕ) (topic payload bytes : List ℕ)
    → qos < 3
    → publish_packet qos topic payload packet_id ≡ done bytes
    → (bytes
        ≡ frame_bytes
            (news_header qos)
            (publish_bytes (news_header qos) (news topic payload packet_id)))
      × (4 + length topic + length payload ≤ 100)
unfolding publish_packet publish_qos0 publish_qos1 publish_qos2 pack_header
publish_packet_frame zero packet_id topic payload bytes small e =
    let f =
      publish_frame 0 0x30 (2 + length topic + length payload) packet_id topic payload [] bytes refl
        refl (omega arith) e in
    (f.0, omega (arith, f.1))
publish_packet_frame (suc zero) packet_id topic payload bytes small e =
    let f =
      publish_frame 1 0x32 (2 + length topic + 2 + length payload) packet_id topic payload
        (put_id packet_id) bytes refl refl (omega arith) e in
    (f.0, omega (arith, f.1))
publish_packet_frame (suc (suc zero)) packet_id topic payload bytes small e =
    let f =
      publish_frame 2 0x34 (2 + length topic + 2 + length payload) packet_id topic payload
        (put_id packet_id) bytes refl refl (omega arith) e in
    (f.0, omega (arith, f.1))
publish_packet_frame (suc (suc (suc qos))) packet_id topic payload bytes small e =
    absurd (omega arith)

pub subscribe_frame :
    (packet_id qos : ℕ) (topic bytes : List ℕ)
    → send_subscribe packet_id qos topic ≡ done bytes
    → (bytes ≡ frame_bytes subscribe_header (subscribe_bytes (one_filter packet_id topic qos)))
      × (7 + length topic ≤ 100)
unfolding send_subscribe filters_bytes pack_header
subscribe_frame packet_id qos topic bytes e =
    let remaining = 2 + 2 + length topic + 1 in
    let (is, fits) =
      filled (0x82 ∷ (remaining % 2 ^ 8) ∷ (put_id packet_id ++ (put_topic topic ++ qos ∷ [])))
        bytes e in
    let behind = length-append topic (qos ∷ []) in
    let small : 7 + length topic ≤ 100 = omega (arith, fits, behind) in
    let short : length topic < 256 = omega (arith, small) in
    (
      is
          ∙ ap (λ l. 0x82 ∷ (remaining % 2 ^ 8) ∷ (put_id packet_id ++ (l ++ qos ∷ [])))
              (put_topic-string_bytes topic short)
          ∙ one_byte_frame subscribe_header 0x82 remaining
              (subscribe_bytes (one_filter packet_id topic qos)) refl (omega (arith, behind))
              (omega (arith, small)),
      small,
    )

pub publish_bytes_small :
    (qos packet_id : ℕ) (topic payload : List ℕ)
    → 4 + length topic + length payload ≤ 100
    → length (publish_bytes (news_header qos) (news topic payload packet_id)) < 128 ^ 3
publish_bytes_small qos packet_id topic payload fits =
    let i = bytes_if (ltb 0 qos) (u16_bytes packet_id) in
    let numbered : length i ≤ 2 = ground (arith, length-bytes_if (ltb 0 qos) packet_id) in
    omega (arith, fits, numbered, length-append topic (i ++ payload), length-append i payload)

module _ (c : Core) (reads : Reads c) where
  -- What the publisher for a QoS of 0, 1 or 2 writes into its buffer for a topic, a payload and a
  -- packet id, if it does not write past the buffer's 100 bytes, is read by `unpack`, when it is all
  -- available and whatever comes behind it, as a PUBLISH packet of that QoS, with the topic, the
  -- payload and, above QoS 0, the packet id, and nothing of what comes behind is used.
  pub unpack-publish_packet :
      (packet : Packet) (qos packet_id available : ℕ) (topic payload bytes rest : List ℕ)
      → qos < 3
      → packet_id < 2 ^ 16
      → publish_packet qos topic payload packet_id ≡ done bytes
      → length bytes ≤ available
      → unpack c packet (bytes ++ rest) available
        ≡ done (
          mqtt_ok,
          record {
            header = news_header qos;
            pkt_len = length bytes;
            pkt = publish (news topic payload (if ltb 0 qos then packet_id else 0));
          },
          rest,
        )
  unpack-publish_packet packet qos packet_id available topic payload bytes rest small id e all =
      let (is, fits) = publish_packet_frame qos packet_id topic payload bytes small e in
      let h = news_header qos in
      let p = news topic payload packet_id in
      let body = publish_bytes_small qos packet_id topic payload fits in
      rw is (
        unpack-publish c reads packet h p rest available refl (omega (arith, small))
          (omega (arith, fits)) (omega (arith, id)) (omega (arith, body))
          (omega (arith, all, ap length is)))

  -- What `send_subscribe` writes into its buffer, if it does not write past the buffer's 100 bytes, is
  -- read by `unpack`, when it is all available and whatever comes behind it, as a SUBSCRIBE packet
  -- with the packet id and the one topic filter with its QoS.
  pub unpack-send_subscribe :
      (packet : Packet) (packet_id qos available : ℕ) (topic bytes rest : List ℕ)
      → packet_id < 2 ^ 16
      → send_subscribe packet_id qos topic ≡ done bytes
      → length bytes ≤ available
      → unpack c packet (bytes ++ rest) available
        ≡ done (
          mqtt_ok,
          record {
            header = subscribe_header;
            pkt_len = length bytes;
            pkt = subscribe (one_filter packet_id topic qos);
          },
          rest,
        )
  unfolding filters_bytes
  unpack-send_subscribe packet packet_id qos available topic bytes rest id e all =
      let (is, fits) = subscribe_frame packet_id qos topic bytes e in
      let s = one_filter packet_id topic qos in
      let behind = length-append topic (qos ∷ []) in
      rw is (
        unpack-subscribe c reads packet subscribe_header s rest available refl (omega arith)
          (omega (arith, id)) (omega (arith, fits), tt) (omega (arith, fits, behind))
          (omega (arith, all, ap length is)))
