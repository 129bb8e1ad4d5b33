-- ===== src/Examples/Reading.antt =====
-- The deserializers of mqtt/src/unpack.cpp on concrete packets.
use culex_mqtt_broker.Common.{
  ℕ, ◌≤◌, ◌≡◌, ◌≢◌, refl, false, List, [], ◌∷◌, ◌++◌, done, stuck, length, arith,
}
use culex_mqtt_broker.Packets.{
  Packet, Connect, Publish, Subscribe, Unsubscribe, mqtt_ok, connect, publish, ack, subscribe,
  unsubscribe, default_packet, default_connect,
}
use culex_mqtt_broker.Packets.Flags.{Header, pack_header, unpack_header}
use culex_mqtt_broker.Packets.Length.Encode.{base128}
use culex_mqtt_broker.Unpack.{unpack}
use culex_mqtt_broker.Unpack.Sizes.{unpack_ok_fits}
use culex_mqtt_broker.Unpack.Total.{unpack-ne-stuck}
use culex_mqtt_broker.Unpack.Wire.{
  frame_bytes, connect_bytes, publish_bytes, filters_bytes, subscribe_bytes, topics_bytes,
  unsubscribe_bytes,
}
use culex_mqtt_broker.Unpack.Wire.Publishing.{unpack-publish, unpack-ack}
use culex_mqtt_broker.Unpack.Wire.Subscribing.{unpack-subscribe, unpack-unsubscribe}
use culex_mqtt_broker.Unpack.Wire.Connecting.{as_sent, unpack-connect}
use culex_mqtt_broker.Examples.PlainCore.{plain_core, plain_core-Reads, plain_core-Ends}

abbrev header_of : ℕ → ℕ → Header
header_of kind qos = record { kind = kind; dup = false; qos = qos; retain = false }

abbrev news : List ℕ
news = b'/' ∷ b'n' ∷ []

abbrev a_publish : Publish
a_publish = record { topic = news; packet_id = 300; payload = 1 ∷ 2 ∷ [] }

publish_fits : length (frame_bytes (header_of 3 1) (publish_bytes (header_of 3 1) a_publish)) ≤ 10
unfolding base128
publish_fits = omega arith

unpack-publish_example :
    unpack plain_core default_packet
      (frame_bytes (header_of 3 1) (publish_bytes (header_of 3 1) a_publish) ++ 99 ∷ [])
      11
    ≡ done (
      mqtt_ok,
      record {
        header = header_of 3 1;
        pkt_len = length (frame_bytes (header_of 3 1) (publish_bytes (header_of 3 1) a_publish));
        pkt = publish a_publish;
      },
      99 ∷ [],
    )
unpack-publish_example =
    unpack-publish plain_core plain_core-Reads default_packet (header_of 3 1) a_publish (99 ∷ []) 11
      refl (omega arith) (omega arith) (omega arith) (omega arith) (omega (arith, publish_fits))

abbrev a_subscribe : Subscribe
a_subscribe = record {
  packet_id = 7;
  payload = record { topic = news; qos = 1 } ∷ record { topic = news; qos = 2 } ∷ [];
}

subscribe_size :
    (length (subscribe_bytes a_subscribe) ≤ 12)
    × (length (frame_bytes (header_of 8 1) (subscribe_bytes a_subscribe)) ≤ 14)
unfolding base128 filters_bytes
subscribe_size = omega arith

unpack-subscribe_example :
    unpack plain_core default_packet
      (frame_bytes (header_of 8 1) (subscribe_bytes a_subscribe) ++ [])
      14
    ≡ done (
      mqtt_ok,
      record {
        header = header_of 8 1;
        pkt_len = length (frame_bytes (header_of 8 1) (subscribe_bytes a_subscribe));
        pkt = subscribe a_subscribe;
      },
      [],
    )
unpack-subscribe_example =
    unpack-subscribe plain_core plain_core-Reads default_packet (header_of 8 1) a_subscribe [] 14
      refl (omega arith) (omega arith) (omega arith, (omega arith, tt))
      (omega (arith, subscribe_size)) (omega (arith, subscribe_size))

abbrev an_unsubscribe : Unsubscribe
an_unsubscribe = record { packet_id = 8; topics = news ∷ [] }

unsubscribe_size :
    (length (unsubscribe_bytes an_unsubscribe) ≤ 6)
    × (length (frame_bytes (header_of 10 1) (unsubscribe_bytes an_unsubscribe)) ≤ 8)
unfolding base128 topics_bytes
unsubscribe_size = omega arith

unpack-unsubscribe_example :
    unpack plain_core default_packet
      (frame_bytes (header_of 10 1) (unsubscribe_bytes an_unsubscribe) ++ [])
      8
    ≡ done (
      mqtt_ok,
      record {
        header = header_of 10 1;
        pkt_len = length (frame_bytes (header_of 10 1) (unsubscribe_bytes an_unsubscribe));
        pkt = unsubscribe an_unsubscribe;
      },
      [],
    )
unpack-unsubscribe_example =
    unpack-unsubscribe plain_core plain_core-Reads default_packet (header_of 10 1) an_unsubscribe []
      8 refl (omega arith) refl (omega arith) (omega arith, tt) (omega (arith, unsubscribe_size))
      (omega (arith, unsubscribe_size))

abbrev a_connect : Connect
a_connect = record default_connect { keep_alive = 60; client_id = b'a' ∷ [] }

connect_size :
    (length (connect_bytes a_connect) ≤ 13)
    × (length (frame_bytes (header_of 1 0) (connect_bytes a_connect)) ≤ 15)
unfolding base128
connect_size = omega arith

unpack-connect_example :
    unpack plain_core default_packet
      (frame_bytes (header_of 1 0) (connect_bytes a_connect) ++ [])
      15
    ≡ done (
      mqtt_ok,
      record {
        header = header_of 1 0;
        pkt_len = length (frame_bytes (header_of 1 0) (connect_bytes a_connect));
        pkt = connect (as_sent a_connect);
      },
      [],
    )
unpack-connect_example =
    unpack-connect plain_core plain_core-Reads default_packet (header_of 1 0) a_connect [] 15 refl
      (omega arith)
      (record {
        will_qos = omega arith;
        keep_alive = omega arith;
        client_id = omega arith;
        will_topic = omega arith;
        will_msg = omega arith;
        username = omega arith;
        passwd = omega arith;
      })
      (omega (arith, connect_size)) (omega (arith, connect_size))

-- A PUBACK with the packet id 300.
abbrev puback_bytes : List ℕ
puback_bytes = 64 ∷ 2 ∷ 1 ∷ 44 ∷ []

abbrev the_puback : Packet
the_puback = record {
  header = unpack_header 64;
  pkt_len = 4;
  pkt = ack (record { packet_id = 300 });
}

puback_read : unpack plain_core default_packet puback_bytes 4 ≡ done (mqtt_ok, the_puback, [])
unfolding base128 unpack_header pack_header
puback_read =
    unpack-ack plain_core plain_core-Reads default_packet (unpack_header 64) 300 [] 4 (omega arith)
      (omega arith) (omega arith) (omega arith) (omega arith)

unpack_ok_fits_example :
    (the_puback.header ≡ unpack_header 64) × (2 ≤ the_puback.pkt_len) × (the_puback.pkt_len ≤ 4)
unpack_ok_fits_example =
    unpack_ok_fits plain_core default_packet the_puback 64 (2 ∷ 1 ∷ 44 ∷ []) [] 4 refl puback_read

unpack-ne-stuck_example : unpack plain_core default_packet puback_bytes 4 ≢ stuck
unpack-ne-stuck_example =
    unpack-ne-stuck plain_core plain_core-Reads plain_core-Ends default_packet puback_bytes 4
