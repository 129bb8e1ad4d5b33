-- ===== src/Unpack/Wire.antt =====
-- The wire format of the MQTT standard, section 2 and 3, written as encoders: the other side of the
-- deserializers. The standard has lengths below 128 ^ 4; a longer one takes a fifth byte here.
pub mod Frames
pub mod Publishing
pub mod Subscribing
pub mod Connecting
use culex_mqtt_broker.Common.{
  ℕ, ◌*◌, ◌/◌, ◌%◌, ◌<◌, Bool, List, [], ◌∷◌, ◌++◌, ltb, if◌then◌else◌, length,
}
use culex_mqtt_broker.Packets.Flags.{Header, pack_header, pack_flags}
use culex_mqtt_broker.Packets.{Publish, Connect, TopicFilter, Subscribe, Unsubscribe}
use culex_mqtt_broker.Packets.Length.Encode.{base128}
use culex_mqtt_broker.Unpack.{mqtt_name}

abbrev pub IsShort : List ℕ → Type 0
IsShort s = length s < 256 * 256

abbrev pub u16_bytes : ℕ → List ℕ
u16_bytes v = (v / 256) ∷ (v % 256) ∷ []

abbrev pub string_bytes : List ℕ → List ℕ
string_bytes s = (length s / 256) ∷ (length s % 256) ∷ s

-- A fixed header, the remaining length, and the rest of the packet.
abbrev pub frame_bytes : Header → List ℕ → List ℕ
frame_bytes h body = pack_header h ∷ (base128 4 (length body) ++ body)

abbrev pub bytes_if : Bool → List ℕ → List ℕ
bytes_if b l = if b then l else []

abbrev pub publish_bytes : Header → Publish → List ℕ
publish_bytes h p =
    string_bytes p.topic ++ (bytes_if (ltb 0 h.qos) (u16_bytes p.packet_id) ++ p.payload)

unfoldable pub filters_bytes : List TopicFilter → List ℕ
filters_bytes [] = []
filters_bytes (f ∷ fs) = string_bytes f.topic ++ (f.qos ∷ filters_bytes fs)

abbrev pub subscribe_bytes : Subscribe → List ℕ
subscribe_bytes s = u16_bytes s.packet_id ++ filters_bytes s.payload

unfoldable pub topics_bytes : List (List ℕ) → List ℕ
topics_bytes [] = []
topics_bytes (t ∷ ts) = string_bytes t ++ topics_bytes ts

abbrev pub unsubscribe_bytes : Unsubscribe → List ℕ
unsubscribe_bytes u = u16_bytes u.packet_id ++ topics_bytes u.topics

abbrev pub connect_bytes : Connect → List ℕ
connect_bytes cn =
    string_bytes mqtt_name
    ++ (cn.level
        ∷ pack_flags cn.cf
        ∷ (u16_bytes cn.keep_alive
            ++ (string_bytes cn.client_id
                ++ (bytes_if cn.cf.will (string_bytes cn.will_topic ++ string_bytes cn.will_msg)
                    ++ (bytes_if cn.cf.username (string_bytes cn.username)
                        ++ bytes_if cn.cf.passwd (string_bytes cn.passwd))))))
