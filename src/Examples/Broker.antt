-- ===== src/Examples/Broker.antt =====
-- The manager, the handlers and the connections at a concrete state.
use culex_mqtt_broker.Common.{
  ℕ, ◌≤◌, ◌≡◌, refl, true, false, List, [], ◌∷◌, ◌++◌, none, some, done, faults, stuck, length,
  find, string_beq, string_eq, arith,
}
use culex_mqtt_broker.Packets.{Packet, TopicFilter, Unsubscribe, ack, default_header}
use culex_mqtt_broker.Packets.Flags.{Header}
use culex_mqtt_broker.Build.{little_endian}
use culex_mqtt_broker.TopicTree.{empty_tree}
use culex_mqtt_broker.ClientSession.{ClientSession, new_client_session}
use culex_mqtt_broker.Manager.{
  Manager, MqttSession, ExpiryEntry, RetransmitEntry, find_ref, lock_client, session_present,
}
use culex_mqtt_broker.Manager.Timers.{Sweep, schedule_all, disconnect_all, process_expired_sessions}
use culex_mqtt_broker.Manager.Expiry.{
  AllLive, IsSorted, TopWaits, process_expired_ends, process_expired_hangs,
}
use culex_mqtt_broker.Unpack.Wire.{frame_bytes, topics_bytes, unsubscribe_bytes}
use culex_mqtt_broker.Session.{parse_data}
use culex_mqtt_broker.Session.Stream.{parse_data_past_end, parse_data_unsubscribe}
use culex_mqtt_broker.Examples.PlainCore.{plain_core, plain_core-Reads}

abbrev alice : List ℕ
alice = b'a' ∷ []

abbrev alice_session : ClientSession
alice_session = record (new_client_session 7) {
  client_id = alice;
  keep_alive = 10;
  connected = true;
  session = some 1;
}

-- An entry that is due, and one whose session is gone.
abbrev live_entry : ExpiryEntry
live_entry = record { expiry_ms = 15000; session = 7 }

abbrev dead_entry : ExpiryEntry
dead_entry = record { expiry_ms = 15000; session = 8 }

abbrev retry_entry : RetransmitEntry
retry_entry = record { retry_ms = 5000; packet_id = 3; packet_type = 3; session = 8 }

abbrev connection : MqttSession
connection = record { ref = 1; fd = 4; client_id = alice }

abbrev stranger : MqttSession
stranger = record { ref = 2; fd = 5; client_id = [] }

abbrev manager : List ExpiryEntry → Manager
manager heap = record {
  topic_tree = empty_tree;
  registry = (alice, alice_session) ∷ [];
  expiry_heap = heap;
  retransmit_heap = retry_entry ∷ [];
  sessions = (4, connection) ∷ (5, stranger) ∷ [];
  held = [];
  sent = [];
  now = 20000;
  next_ref = 8;
}

entry_gone : (heap : List ExpiryEntry) → lock_client 8 (manager heap) ≡ none
unfolding find_ref
entry_gone heap = refl

live_heap-AllLive : AllLive (manager (live_entry ∷ [])) (live_entry ∷ [])
unfolding AllLive find_ref
live_heap-AllLive = (λ e. cc, tt)

process_expired_ends_example :
    (s : Sweep) × (process_expired_sessions 1 (manager (live_entry ∷ []))
      ≡ done (
          schedule_all s.new_entries (
            disconnect_all s.to_disconnect
              (record (manager (live_entry ∷ [])) { expiry_heap = s.heap }))))
    × IsSorted 20000 s
    × TopWaits 20000 s.heap
process_expired_ends_example = process_expired_ends (manager (live_entry ∷ [])) live_heap-AllLive

process_expired_hangs_example : process_expired_sessions 100 (manager (dead_entry ∷ [])) ≡ stuck
process_expired_hangs_example =
    process_expired_hangs 100 (manager (dead_entry ∷ [])) dead_entry [] refl (omega arith)
      (entry_gone (dead_entry ∷ []))

stranger_unknown : session_present [] (manager []) ≡ none
unfolding session_present find string_beq
stranger_unknown = refl

abbrev the_ack : Packet
the_ack = record { header = default_header; pkt_len = 4; pkt = ack (record { packet_id = 3 }) }

abbrev filters : List TopicFilter
filters = record { topic = alice; qos = 1 } ∷ record { topic = alice; qos = 3 } ∷ []

-- A PINGREQ.
parse_data_past_end_example :
    parse_data plain_core little_endian connection (192 ∷ 0 ∷ []) (manager []) ≡ faults
parse_data_past_end_example =
    parse_data_past_end plain_core little_endian plain_core-Reads connection 192 (0 ∷ [])
      (manager []) (omega arith) (omega arith)

abbrev the_header : Header
the_header = record { kind = 10; dup = false; qos = 1; retain = false }

abbrev the_unsubscribe : Unsubscribe
the_unsubscribe = record { packet_id = 8; topics = alice ∷ [] }

unsubscribe_size : length (unsubscribe_bytes the_unsubscribe) ≤ 5
unfolding topics_bytes
unsubscribe_size = omega arith

parse_data_unsubscribe_example :
    parse_data plain_core little_endian connection
      (frame_bytes the_header (unsubscribe_bytes the_unsubscribe) ++ [])
      (manager [])
    ≡ done (
      connection,
      plain_core.erase_front
          (length (frame_bytes the_header (unsubscribe_bytes the_unsubscribe)))
          (frame_bytes the_header (unsubscribe_bytes the_unsubscribe) ++ []),
      manager [],
    )
parse_data_unsubscribe_example =
    parse_data_unsubscribe plain_core little_endian plain_core-Reads connection the_header
      the_unsubscribe [] (manager []) refl (omega arith) refl (omega arith) (omega arith, tt)
      (omega (arith, unsubscribe_size))
