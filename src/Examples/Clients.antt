-- ===== src/Examples/Clients.antt =====
-- Clients that connect and that are sent packets, at a concrete state.
use culex_mqtt_broker.Common.{
  ℕ, ◌≤◌, ◌≡◌, refl, true, false, List, [], ◌∷◌, ◌++◌, none, some, done, length, find, insert,
  erase, ◌>>=◌, nat_eq, string_beq, string_eq, arith,
}
use culex_mqtt_broker.Packets.{
  Packet, Connect, Publish, connect, publish, ack, mqtt_ok, default_header, default_connect,
}
use culex_mqtt_broker.Packets.Flags.{Header}
use culex_mqtt_broker.Build.{little_endian}
use culex_mqtt_broker.Build.Publishes.{unnumbered, build_publish_bytes}
use culex_mqtt_broker.Unpack.Wire.{frame_bytes, publish_bytes, connect_bytes}
use culex_mqtt_broker.Unpack.Wire.Connecting.{as_sent}
use culex_mqtt_broker.Session.{parse_data}
use culex_mqtt_broker.Session.Connecting.{parse_data_connect}
use culex_mqtt_broker.TopicTree.{Subscription, empty_tree}
use culex_mqtt_broker.ClientSession.{ClientSession, new_client_session}
use culex_mqtt_broker.Manager.{
  Manager, MqttSession, find_ref, find_session, lock_client, lock_session, session_present,
}
use culex_mqtt_broker.Manager.Routing.{
  as_duplicate, route_packet, set_qos, number_packet, send_to_client, deliver, deliver_all,
}
use culex_mqtt_broker.Manager.Routing.Sharing.{deliver_all_connected}
use culex_mqtt_broker.Packets.Kind
use culex_mqtt_broker.Handlers.{publish_handler, pubrel_handler}
use culex_mqtt_broker.Handlers.ExactlyOnce.{
  answer_of, completed, publish_handler_repeated, publish_then_pubrel,
}
use culex_mqtt_broker.Handlers.Registration.{registered, expiring}
use culex_mqtt_broker.Examples.PlainCore.{plain_core, plain_core-Reads, plain_core-Writes}

abbrev pub carol : List ℕ
carol = b'c' ∷ []

abbrev pub dave : List ℕ
dave = b'd' ∷ []

-- Carol is connected, Dave's session is kept.
abbrev pub carol_session : ClientSession
carol_session = record (new_client_session 3) {
  client_id = carol;
  connected = true;
  session = some 1;
}

abbrev pub dave_session : ClientSession
dave_session = record (new_client_session 4) { client_id = dave; keep_alive = 30 }

abbrev pub line : MqttSession
line = record { ref = 1; fd = 8; client_id = carol }

abbrev pub new_line : MqttSession
new_line = record { ref = 2; fd = 9; client_id = [] }

abbrev pub state : Manager
state = record {
  topic_tree = empty_tree;
  registry = (carol, carol_session) ∷ (dave, dave_session) ∷ [];
  expiry_heap = [];
  retransmit_heap = [];
  sessions = (8, line) ∷ (9, new_line) ∷ [];
  held = [];
  sent = [];
  now = 1000;
  next_ref = 5;
}

abbrev pub connect_of : List ℕ → Connect
connect_of client_id = record default_connect { keep_alive = 60; client_id = client_id }

abbrev pub connect_packet : List ℕ → Packet
connect_packet client_id = record {
  header = default_header;
  pkt_len = 15;
  pkt = connect (connect_of client_id);
}

eve_unknown : session_present (b'e' ∷ []) state ≡ none
unfolding session_present find string_beq
eve_unknown = refl

pub dave_kept : session_present dave state ≡ some dave_session
unfolding session_present find string_beq
dave_kept = refl

pub dave_away : lock_session dave_session.session state ≡ none
unfolding lock_session
dave_away = refl

abbrev news_header : Header
news_header = record { kind = 3; dup = false; qos = 2; retain = false }

abbrev news : Publish
news = record { topic = b'/' ∷ b'n' ∷ []; packet_id = 9; payload = 1 ∷ [] }

abbrev news_packet : Packet
news_packet = record { header = news_header; pkt_len = 9; pkt = publish news }

abbrev to_carol : Subscription
to_carol = record { session = 3; qos = 0 }

abbrev low_header : Header
low_header = record { kind = 3; dup = false; qos = 0; retain = false }

abbrev state_after : Manager
state_after = record state {
  sent = (1, [] ++ frame_bytes low_header (publish_bytes low_header (unnumbered news))) ∷ [];
}

pub carol_there : lock_client 3 state ≡ some carol_session
unfolding find_ref
carol_there = refl

news_sent :
    deliver_all plain_core little_endian (to_carol ∷ []) (state, news_packet)
    ≡ done (state_after, set_qos news_packet 0)
unfolding deliver_all deliver send_to_client number_packet find_ref lock_session find_session
news_sent =
    rw
      (build_publish_bytes plain_core plain_core-Writes low_header 9 news 0 [] (omega arith)
        (omega arith) (omega arith) (omega arith))
      refl

deliver_all_connected_example : (set_qos news_packet 0 ≡ set_qos news_packet 0) × (0 ≤ 2) × (0 ≤ 0)
deliver_all_connected_example =
    deliver_all_connected plain_core little_endian to_carol [] carol_session state state_after
      news_packet (set_qos news_packet 0) carol_there refl news_sent

pub carol_registered : session_present carol state ≡ some carol_session
unfolding session_present find string_beq
carol_registered = refl

carol_stores_none : find 9 carol_session.inflight ≡ none
unfolding find
carol_stores_none = refl

abbrev news_release : Packet
news_release = record { header = default_header; pkt_len = 4; pkt = ack (record { packet_id = 9 }) }

-- Carol publishes the news, and again.
publish_handler_repeated_example :
    (m' : Manager) × ((publish_handler plain_core little_endian news_packet [] state line >>= λ h.
    publish_handler plain_core little_endian (as_duplicate news_packet) [] h.2 line)
      ≡ done (mqtt_ok, answer_of little_endian 9 Kind.pubrec [], m'))
    × (session_present carol m'
        ≡ some (record carol_session { last_activity = 1000; inflight = insert 9 news_packet [] }))
    × (m'.sent
        ≡ ([] ++ (1, answer_of little_endian 9 Kind.pubrec []) ∷ [])
          ++ (1, answer_of little_endian 9 Kind.pubrec []) ∷ [])
publish_handler_repeated_example =
    publish_handler_repeated plain_core little_endian news_packet (as_duplicate news_packet) news
      news [] [] state line carol_session refl refl refl (omega arith) (omega arith) (omega arith)
      carol_registered carol_stores_none

-- Carol publishes the news and releases it.
publish_then_pubrel_example :
    (m₂ : Manager) × ((publish_handler plain_core little_endian news_packet [] state line >>= λ h.
    pubrel_handler plain_core little_endian news_release [] h.2 line)
      ≡ (route_packet plain_core little_endian news_packet none m₂ >>= λ r.
          done (completed little_endian (record { packet_id = 9 }) [] line mqtt_ok r.0)))
    × (m₂.sent ≡ [] ++ (1, answer_of little_endian 9 Kind.pubrec []) ∷ [])
    × (session_present carol m₂
        ≡ some (record carol_session {
          last_activity = 1000;
          inflight = erase 9 (insert 9 news_packet []);
        }))
publish_then_pubrel_example =
    publish_then_pubrel plain_core little_endian news_packet news_release news
      (record { packet_id = 9 }) [] [] state line carol_session refl refl refl refl (omega arith)
      carol_registered carol_stores_none

abbrev connect_header : Header
connect_header = record { kind = 1; dup = false; qos = 0; retain = false }

eve_connect_size : length (connect_bytes (connect_of (b'e' ∷ []))) ≤ 13
eve_connect_size = omega arith

parse_data_connect_example :
    (m' : Manager) × (parse_data plain_core little_endian new_line
        (frame_bytes connect_header (connect_bytes (connect_of (b'e' ∷ []))) ++ [])
        state
      ≡ done (
        record new_line { client_id = b'e' ∷ [] },
        plain_core.erase_front
            (length (frame_bytes connect_header (connect_bytes (connect_of (b'e' ∷ [])))))
            (frame_bytes connect_header (connect_bytes (connect_of (b'e' ∷ []))) ++ []),
        m',
      ))
    × (session_present (b'e' ∷ []) m'
        ≡ some (expiring (registered (as_sent (connect_of (b'e' ∷ []))) state new_line)))
parse_data_connect_example =
    parse_data_connect plain_core little_endian plain_core-Reads new_line connect_header
      (connect_of (b'e' ∷ [])) [] state refl (omega arith)
      (record {
        will_qos = omega arith;
        keep_alive = omega arith;
        client_id = omega arith;
        will_topic = omega arith;
        will_msg = omega arith;
        username = omega arith;
        passwd = omega arith;
      })
      (omega (arith, eve_connect_size)) refl eve_unknown
