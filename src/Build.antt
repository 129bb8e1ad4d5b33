-- ===== src/Build.antt =====
-- The utility functions at the end of mqtt/src/packethandlers.cpp, and the `pack` functions of
-- `Connack` and `Ack` in mqtt/include/packets.h: the bytes that the broker sends. A buffer is passed
-- and returned.
pub mod Acks
pub mod Subacks
pub mod Publishes
use culex_mqtt_broker.Common.{
  ℕ, ◌+◌, ◌*◌, ◌/◌, ◌%◌, ◌^◌, bit_and, Bool, true, false, List, [], ◌∷◌, ◌++◌, ltb, nat_beq,
  if◌then◌else◌, Outcome, done, throws, bad_variant_access, ◌>>=◌, length,
}
use culex_mqtt_broker.Core.{Core}
use culex_mqtt_broker.Packets.Kind
use culex_mqtt_broker.Packets.Kind.{PacketType}
use culex_mqtt_broker.Packets.Flags.{Header, or_byte, pack_header}
use culex_mqtt_broker.Packets.{
  Packet, Body, Connack, Ack, Publish, Suback, ack, publish, connack, connect, subscribe,
  unsubscribe, default_header,
}
use culex_mqtt_broker.Packets.Length.{encode_length}

-- The byte order of the host, by which `htons` goes.
pub data Host : Type 0 where
  little_endian big_endian : Host

abbrev pub htons : Host → ℕ → ℕ
htons little_endian v = v % 256 * 256 + v / 256 % 256
htons big_endian v = v

-- `vector<uint8_t>::push_back` of a wider value keeps its low byte.
abbrev pub push_back : List ℕ → ℕ → List ℕ
push_back buff v = buff ++ (v % 2 ^ 8) ∷ []

unfoldable pub pack_connack : Host → Connack → ℕ
pack_connack host p = htons host ((p.ack_flags * 2 ^ 8 + p.return_code) % 2 ^ 16)

unfoldable pub pack_ack_id : Host → Ack → ℕ
pack_ack_id host p = htons host p.packet_id

-- `pack_ack`: the packet that it returns, and the buffer.
unfoldable pub pack_ack : Host → Ack → PacketType → List ℕ → Packet × List ℕ
unfolding pack_ack_id
pack_ack host a kind buff =
    let header : Header = record default_header { kind = kind } in
    let first =
      if nat_beq kind Kind.pubrel
      then push_back buff (bit_and (kind * 2 ^ 4) 0xF2)
      else push_back buff (pack_header header) in
    let bytes = push_back (push_back first 2) (pack_ack_id host a) in
    (record { header = header; pkt_len = 1 * 2 + 2; pkt = ack a }, bytes)

unfoldable pub build_ack : Host → ℕ → PacketType → List ℕ → Packet × List ℕ
unfolding pack_ack
build_ack host packet_id kind buff = pack_ack host (record { packet_id = packet_id }) kind buff

-- `buff.insert(buff.end(), b.begin(), b.end())` behind a call of `encode_length` on an empty `b`.
abbrev pub put_length : ℕ → List ℕ → List ℕ
put_length remaining_len buff = buff ++ (encode_length remaining_len []).1

unfoldable pub pack_suback : Core → Suback → List ℕ → List ℕ
pack_suback c suback buff =
    let header : Header = record default_header { kind = Kind.suback } in
    let typed = push_back buff header.kind in
    let sized = put_length (2 + length suback.return_codes) typed in
    c.pack_u16 sized suback.packet_id ++ suback.return_codes

unfoldable pub build_suback : Core → ℕ → List ℕ → List ℕ → List ℕ
unfolding pack_suback
build_suback c packet_id return_codes buff =
    pack_suback c (record { packet_id = packet_id; return_codes = return_codes }) buff

-- `std::get<Publish>` throws on a packet of another kind.
abbrev pub get_publish : Body → Outcome Publish
get_publish (publish p) = done p
get_publish (connack p) = throws bad_variant_access
get_publish (ack p) = throws bad_variant_access
get_publish (connect p) = throws bad_variant_access
get_publish (subscribe p) = throws bad_variant_access
get_publish (unsubscribe p) = throws bad_variant_access

abbrev pub get_ack : Body → Outcome Ack
get_ack (ack p) = done p
get_ack (publish p) = throws bad_variant_access
get_ack (connack p) = throws bad_variant_access
get_ack (connect p) = throws bad_variant_access
get_ack (subscribe p) = throws bad_variant_access
get_ack (unsubscribe p) = throws bad_variant_access

-- `build_publish` takes a packet id, and writes 0 in its place.
unfoldable pub build_publish : Core → Packet → ℕ → List ℕ → Outcome (List ℕ)
build_publish c publisher packet_id buff = do
  pub_pkt ← get_publish publisher.pkt
  let header = publisher.header
  let typed = push_back buff (pack_header header)
  let plain_len = 2 + length pub_pkt.topic + length pub_pkt.payload
  let remaining_len = if ltb 0 header.qos then plain_len + 2 else plain_len
  let sized = put_length remaining_len typed
  let named = c.pack_u16 sized (length pub_pkt.topic) ++ c.pack_string16 [] pub_pkt.topic
  let numbered = if ltb 0 header.qos then c.pack_u16 named 0 else named
  done (numbered ++ pub_pkt.payload)
