-- ===== src/Examples/Building.antt =====
-- What the broker builds, at concrete packets.
use culex_mqtt_broker.Common.{ℕ, ◌≤◌, ◌≡◌, false, List, [], ◌∷◌, length, arith}
use culex_mqtt_broker.Packets.{Publish, ack, default_header}
use culex_mqtt_broker.Packets.Flags.{Header}
use culex_mqtt_broker.Packets.Length.Encode.{base128}
use culex_mqtt_broker.Build.{little_endian, build_ack}
use culex_mqtt_broker.Build.Acks.{build_ack_bytes}
use culex_mqtt_broker.Build.Publishes.{unnumbered}
use culex_mqtt_broker.Unpack.Wire.{frame_bytes, publish_bytes}

build_ack_bytes_example :
    ((build_ack little_endian 300 4 (9 ∷ [])).1 ≡ 9 ∷ 64 ∷ 2 ∷ 1 ∷ [])
    × ((build_ack little_endian 300 4 (9 ∷ [])).0 ≡ record {
      header = record default_header { kind = 4 };
      pkt_len = 4;
      pkt = ack (record { packet_id = 300 });
    })
build_ack_bytes_example = build_ack_bytes little_endian 300 4 (9 ∷ []) (omega arith)

abbrev sent_header : Header
sent_header = record { kind = 3; dup = false; qos = 1; retain = false }

abbrev sent_publish : Publish
sent_publish = record { topic = b'/' ∷ b'n' ∷ []; packet_id = 300; payload = 1 ∷ 2 ∷ [] }

abbrev sent_frame : List ℕ
sent_frame = frame_bytes sent_header (publish_bytes sent_header (unnumbered sent_publish))

sent_size : length sent_frame ≤ 10
unfolding base128
sent_size = omega arith
