-- ===== src/Examples/TestClients.antt =====
-- The test clients, at the packets that they send and get.
use culex_mqtt_broker.Common.{
  ℕ, ◌≡◌, refl, true, false, List, [], ◌∷◌, ◌++◌, some, done, throws, length_error, length, find,
  arith, nat_eq,
}
use mathlib.Core.List.{Memᴰ}
use culex_mqtt_broker.Build.Subacks.{suback_bytes}
use culex_mqtt_broker.TestClients.EndToEnd.{test_clients_qos0}
use culex_mqtt_broker.Packets.{
  Connect, Publish, publish, mqtt_ok, default_packet, default_connect, default_header,
  default_flags,
}
use culex_mqtt_broker.Packets.Flags.{pack_header, pack_flags}
use culex_mqtt_broker.Packets.Length.Encode.{base128}
use culex_mqtt_broker.Build.{little_endian}
use culex_mqtt_broker.Build.Publishes.{unnumbered, build_publish_bytes}
use culex_mqtt_broker.Unpack.{unpack}
use culex_mqtt_broker.Unpack.Wire.{frame_bytes, publish_bytes, connect_bytes}
use culex_mqtt_broker.ClientSession.{ClientSession}
use culex_mqtt_broker.Manager.{Manager, session_present}
use culex_mqtt_broker.Session.{parse_data}
use culex_mqtt_broker.TestClients.{
  Reply, read_qos0, read_at, read_u16, rest_from, answer_qos1, answer_qos2, publish_qos0,
  publish_qos2, send_subscribe, publisher_connect, subscriber_connect, next_id, pubrel_after,
  put_topic, put_id,
}
use culex_mqtt_broker.TestClients.Publisher.{
  publish_packet, news_header, news, unpack-publish_packet,
}
use culex_mqtt_broker.TestClients.Exchange.{IsAckOf, answer_qos2-exchange}
use culex_mqtt_broker.TestClients.Acknowledging.{one_header, acknowledgement_lost}
use culex_mqtt_broker.Examples.PlainCore.{plain_core, plain_core-Reads, plain_core-Writes}
use culex_mqtt_broker.Examples.Clients.{
  carol, line, new_line, state, carol_session, carol_registered,
}
use culex_mqtt_broker.Examples.Exchange.{
  waiting, waiting_session, carol_waits, state-IsValid, hello, hello-IsPlain, carol_linked,
}

-- The packet of publisher/qos2.cpp, `test/topic2` and `[QoS2] hello`.
abbrev topic2 : List ℕ
topic2 = b't' ∷ b'e' ∷ b's' ∷ b't' ∷ b'/' ∷ b't' ∷ b'o' ∷ b'p' ∷ b'i' ∷ b'c' ∷ b'2' ∷ []

abbrev hello2 : List ℕ
hello2 = b'[' ∷ b'Q' ∷ b'o' ∷ b'S' ∷ b'2' ∷ b']' ∷ b' ' ∷ b'h' ∷ b'e' ∷ b'l' ∷ b'l' ∷ b'o' ∷ []

abbrev qos2_bytes : List ℕ
qos2_bytes = 0x34 ∷ 27 ∷ (put_topic topic2 ++ (put_id 300 ++ hello2))

qos2_written : publish_packet 2 topic2 hello2 300 ≡ done qos2_bytes
unfolding publish_packet publish_qos2
qos2_written = refl

unpack-publish_packet_example :
    unpack plain_core default_packet (qos2_bytes ++ 9 ∷ []) 30
    ≡ done (
      mqtt_ok,
      record { header = news_header 2; pkt_len = 29; pkt = publish (news topic2 hello2 300) },
      9 ∷ [],
    )
unpack-publish_packet_example =
    unpack-publish_packet plain_core plain_core-Reads default_packet 2 300 30 topic2 hello2
      qos2_bytes (9 ∷ []) (omega arith) (omega arith) qos2_written (omega arith)

abbrev news2 : Publish
news2 = news topic2 hello2 300

abbrev frame2 : List ℕ
frame2 = frame_bytes (news_header 2) (publish_bytes (news_header 2) news2)

answer_qos2-exchange_example :
    (rec comp : Reply) × (rel : List ℕ) × (answer_qos2 (frame2 ++ 0 ∷ 0 ∷ []) (length frame2)
      ≡ done (some rec))
    × (rec.printed ≡ hello2)
    × IsAckOf plain_core 5 0 300 rec.answer default_packet [] 4
    × (pubrel_after 300 (rec.answer ++ []) ≡ some rel)
    × IsAckOf plain_core 6 1 300 rel default_packet [] 4
    × (answer_qos2 (rel ++ 0 ∷ []) 4 ≡ done (some comp))
    × IsAckOf plain_core 7 0 300 comp.answer default_packet [] 4
answer_qos2-exchange_example =
    answer_qos2-exchange plain_core plain_core-Reads (news_header 2) news2 (0 ∷ 0 ∷ []) (0 ∷ []) []
      4 default_packet [] 4 refl (omega arith) (omega arith) (omega arith) (omega arith)
      (omega arith) (omega arith)

abbrev frame1 : List ℕ
frame1 =
    frame_bytes (one_header false false) (publish_bytes (one_header false false) (unnumbered news2))

-- The broker sends the packet to Carol under the packet id 8.
acknowledgement_lost_example :
    (r : Reply) × (m' : Manager) × (cs' : ClientSession) × (answer_qos1
        (([] ++ frame1) ++ 0 ∷ [])
        (length ([] ++ frame1))
      ≡ done (some r))
    × (parse_data plain_core little_endian line (r.answer ++ []) waiting
        ≡ done (line, plain_core.erase_front 4 (r.answer ++ []), m'))
    × (session_present carol m' ≡ some cs')
    × (find 8 cs'.inflight ≡ find 8 waiting_session.inflight)
acknowledgement_lost_example =
    acknowledgement_lost plain_core little_endian plain_core-Reads plain_core-Writes line false
      false 29 8 8 news2 ([] ++ frame1) (0 ∷ []) [] waiting waiting_session (omega arith)
      (omega arith)
      (build_publish_bytes plain_core plain_core-Writes (one_header false false) 29 news2 8 []
        (omega arith) (omega arith) (omega arith) (omega arith))
      carol_waits (omega arith)

-- The packets by which the two clients connect.
abbrev connect_as : ℕ → List ℕ → Connect
connect_as keep_alive client_id = record default_connect {
  keep_alive = keep_alive;
  client_id = client_id;
  cf = record default_flags { cleansession = true };
}

publisher_connects :
    publisher_connect
    ≡ frame_bytes default_header (connect_bytes (connect_as 5 (b't' ∷ b'e' ∷ b's' ∷ b't' ∷ [])))
unfolding pack_header pack_flags base128
publisher_connects = refl

subscriber_connects :
    subscriber_connect
    ≡ frame_bytes default_header
        (connect_bytes (connect_as 60 (b't' ∷ b'e' ∷ b's' ∷ b't' ∷ b'1' ∷ [])))
unfolding pack_header pack_flags base128
subscriber_connects = refl

-- The packet ids of the publishers wrap around to 0.
ids_wrap : next_id 65535 ≡ 0
ids_wrap = refl

-- To the subscriber for QoS 2 a packet of QoS 0 with a payload of less than two bytes is too short.
short_payload : answer_qos2 (0x30 ∷ 4 ∷ 0 ∷ 1 ∷ b'n' ∷ 7 ∷ 0 ∷ 0 ∷ []) 6 ≡ throws length_error
unfolding answer_qos2 read_at read_u16 rest_from
short_payload = refl

abbrev asked_bytes : List ℕ
asked_bytes = 0x82 ∷ 7 ∷ (put_id 300 ++ (put_topic hello.topic ++ 0 ∷ []))

abbrev news_bytes : List ℕ
news_bytes = 0x30 ∷ 6 ∷ (put_topic hello.topic ++ hello.payload)

subscribe_written : send_subscribe 300 0 hello.topic ≡ done asked_bytes
unfolding send_subscribe
subscribe_written = refl

publish_written : publish_qos0 hello.topic hello.payload ≡ done news_bytes
unfolding publish_qos0
publish_written = refl

test_clients_qos0_example :
    (m₁ m₂ : Manager) × (out : List (ℕ × List ℕ)) × (parse_data plain_core little_endian line
        (asked_bytes ++ [])
        state
      ≡ done (line, plain_core.erase_front (length asked_bytes) (asked_bytes ++ []), m₁))
    × (parse_data plain_core little_endian new_line (news_bytes ++ []) m₁
        ≡ done (new_line, plain_core.erase_front (length news_bytes) (news_bytes ++ []), m₂))
    × (m₂.sent ≡ ([] ++ (1, suback_bytes 300 (0 ∷ [])) ∷ []) ++ out)
    × Memᴰ (1, news_bytes) out
    × (read_qos0 (news_bytes ++ 0 ∷ []) (length news_bytes)
        ≡ done (some (hello.topic, hello.payload)))
test_clients_qos0_example =
    test_clients_qos0 plain_core little_endian plain_core-Reads plain_core-Writes line new_line line
      300 0 hello.topic hello.payload asked_bytes news_bytes [] [] (0 ∷ []) state carol_session
      state-IsValid carol_registered refl carol_linked (omega arith) (omega arith) hello-IsPlain
      subscribe_written publish_written
