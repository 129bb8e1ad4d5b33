-- ===== src/Build/Publishes.antt =====
-- The PUBLISH packets that the broker builds.
use culex_mqtt_broker.Common.{
  ℕ, ◌+◌, ◌%◌, ◌^◌, ◌≤◌, ◌<◌, ◌≡◌, refl, sym, ap, ◌∙◌, Bool, true, false, List, [], ◌++◌, ltb,
  if◌then◌else◌, done, length, length-append, done-injective, arith,
}
use mathlib.Core.List.{append_assoc, append-nil}
use culex_mqtt_broker.Core.{Core, Reads, Writes}
use culex_mqtt_broker.Packets.Flags.{Header, pack_header}
use culex_mqtt_broker.Packets.FlagsRoundTrip.{unpack_header-pack_header}
use culex_mqtt_broker.Packets.{Packet, Publish, publish, mqtt_ok}
use culex_mqtt_broker.Packets.Length.Encode.{encode_length-base128}
use culex_mqtt_broker.Build.{build_publish}
use culex_mqtt_broker.Unpack.{unpack}
use culex_mqtt_broker.Unpack.Wire.{IsShort, u16_bytes, bytes_if, frame_bytes, publish_bytes}
use culex_mqtt_broker.Unpack.Wire.Publishing.{length-bytes_if, unpack-publish}

-- The packet with the id that is written for it.
abbrev pub unnumbered : Publish → Publish
unnumbered p = record p { packet_id = 0 }

sum_if : (b : Bool) (n m : ℕ) → n + (if b then 2 else 0) ≡ m → (if b then n + 2 else n) ≡ m
sum_if true n m h = h
sum_if false n m h = omega arith

same_either : (b : Bool) → ◌≡◌ {A = ℕ} (if b then 0 else 0) 0
same_either true = refl
same_either false = refl

module _ (c : Core) (writes : Writes c) where
  numbered_bytes :
      (b : Bool) (buff : List ℕ)
      → (if b then c.pack_u16 buff 0 else buff) ≡ buff ++ bytes_if b (u16_bytes 0)
  numbered_bytes true buff = writes.u16 buff 0 (omega arith)
  numbered_bytes false buff = sym (append-nil buff)

  -- If the functions of culex-core that write do so as documented, `build_publish` writes a
  -- PUBLISH packet behind what the buffer holds, with the packet id 0 in place of the one that it is
  -- given. The type is below 16, the QoS below 4, the topic shorter than 2 ^ 16, and the remaining
  -- length below 2 ^ 31. From 128 ^ 4 on the length takes five bytes, one more than the standard allows.
  pub build_publish_bytes :
      (h : Header) (pkt_len : ℕ) (p : Publish) (packet_id : ℕ) (buff : List ℕ)
      → h.kind < 16
      → h.qos < 4
      → IsShort p.topic
      → length (publish_bytes h (unnumbered p)) < 2 ^ 31
      → build_publish c (record { header = h; pkt_len = pkt_len; pkt = publish p }) packet_id buff
        ≡ done (buff ++ frame_bytes h (publish_bytes h (unnumbered p)))
  unfolding build_publish
  build_publish_bytes h pkt_len p packet_id buff hk hq ht small =
      let b = ltb 0 h.qos in
      let body = publish_bytes h (unnumbered p) in
      let i = bytes_if b (u16_bytes 0) in
      let size : (if b
            then 2 + length p.topic + length p.payload + 2
            else 2 + length p.topic + length p.payload)
          ≡ length body =
        sum_if b _ _ (
          omega (
            arith,
            length-append p.topic (i ++ p.payload),
            length-append i p.payload,
            length-bytes_if b 0,
          )) in
      let byte : pack_header h % 2 ^ 8 ≡ pack_header h =
        omega (arith, unpack_header-pack_header h hk hq) in
      rw
        (
          numbered_bytes b _,
          size,
          byte,
          encode_length-base128 (length body) [] small,
          writes.u16 _ (length p.topic) ht,
          writes.string16 [] p.topic,
        )
        (simp append_assoc)

  -- If the functions of culex-core read and write as documented, what `build_publish` writes for
  -- a PUBLISH packet with a topic shorter than 2 ^ 16 and a remaining length below 128 ^ 3, and
  -- any bytes behind it, is read back by `unpack`, if it is all available, with its topic and its
  -- payload, but with the packet id 0.
  pub unpack-build_publish :
      (reads : Reads c) (packet : Packet) (h : Header) (pkt_len : ℕ) (p : Publish)
      (packet_id available : ℕ) (bytes rest : List ℕ)
      → h.kind ≡ 3
      → h.qos < 4
      → IsShort p.topic
      → length (publish_bytes h (unnumbered p)) < 128 ^ 3
      → build_publish c (record { header = h; pkt_len = pkt_len; pkt = publish p }) packet_id []
        ≡ done bytes
      → length bytes ≤ available
      → unpack c packet (bytes ++ rest) available
        ≡ done (
          mqtt_ok,
          record { header = h; pkt_len = length bytes; pkt = publish (unnumbered p) },
          rest,
        )
  unpack-build_publish reads packet h pkt_len p packet_id available bytes rest hk hq ht small e
        fits =
      let frame = frame_bytes h (publish_bytes h (unnumbered p)) in
      let e' : frame ≡ bytes = done-injective _ _ (
        sym (build_publish_bytes h pkt_len p packet_id [] (omega arith) hq ht (omega arith)) ∙ e) in
      rw (← e') (
        unpack-publish c reads packet h (unnumbered p) rest available hk hq ht (omega arith) small
          (omega (arith, ap length e'))
        ∙ rw (same_either (ltb 0 h.qos)))
