-- ===== src/Examples/Exchange.antt =====
-- Packets between the clients of Examples/Clients, at concrete bytes.
use culex_mqtt_broker.Common.{
  ℕ, suc, ◌≡◌, ◌≢◌, refl, ap, false, List, [], ◌∷◌, ◌++◌, none, some, done, length, find, map,
  arith, string_beq, string_eq, nat_eq, if◌then◌else◌, ◌==◌,
}
use mathlib.Core.List.{Memᴰ, Perm, filter_map}
use mathlib.Core.List.Perm
use culex_mqtt_broker.Packets.{Packet, Publish, publish, connection_accepted}
use culex_mqtt_broker.Packets.Flags.{Header}
use culex_mqtt_broker.Build.{little_endian}
use culex_mqtt_broker.Build.Publishes.{build_publish_bytes}
use culex_mqtt_broker.Build.Subacks.{suback_bytes}
use culex_mqtt_broker.Unpack.Wire.{frame_bytes, subscribe_bytes, filters_bytes}
use culex_mqtt_broker.Manager.Invariant.Sends.{sends}
use culex_mqtt_broker.Manager.Invariant.Recipients.{route_packet_receivers}
use culex_mqtt_broker.Manager.Invariant.Receivers.{route}
use culex_mqtt_broker.Manager.Invariant.Routing.{dues}
use culex_mqtt_broker.Manager.Invariant.Resending.{duplicate_at, process_retransmissions-sends}
use culex_mqtt_broker.Manager.Heap.{due_count}
use culex_mqtt_broker.Session.Blocking.{acknowledged_blocks}
use culex_mqtt_broker.TopicTree
use culex_mqtt_broker.TopicTree.{empty_tree, Subscription, split, split_loop}
use culex_mqtt_broker.TopicTree.Refinement.{IsPlain}
use culex_mqtt_broker.ClientSession.{ClientSession, get_packet}
use culex_mqtt_broker.Manager.{
  RetransmitEntry, lock_client, find_ref, Manager, lock_session, session_present, update_activity,
  find_session,
}
use culex_mqtt_broker.Manager.Invariant.{IsValid}
use culex_mqtt_broker.Manager.Routing.{deliver, deliver_all, route_packet, process_retransmissions}
use culex_mqtt_broker.Manager.Routing.Delivery.{receiver, copies, deliver_all-Perm}
use culex_mqtt_broker.Handlers.Connecting.{connect_handler}
use culex_mqtt_broker.Handlers.Offline.{message_stays_queued}
use culex_mqtt_broker.Session.{parse_data}
use culex_mqtt_broker.Session.Publishing.{zero_header, zero_bytes, relayed, parse_data_publish}
use culex_mqtt_broker.Session.Subscribing.{subscribed, parse_data_subscribe}
use culex_mqtt_broker.Session.Exchange.{
  subscribe_header, one_filter, now_subscribed, subscribe_then_publish,
}
use culex_mqtt_broker.Session.Acknowledging.{
  ack_bytes, parse_data_puback, parse_data_pubrec-pubcomp,
}
use culex_mqtt_broker.Examples.PlainCore.{plain_core, plain_core-Reads, plain_core-Writes}
use culex_mqtt_broker.Examples.Clients.{
  carol, dave, carol_session, dave_session, line, new_line, state, connect_of, connect_packet,
  carol_registered, dave_kept, dave_away,
}

abbrev first_byte : List ℕ → ℕ
first_byte [] = 0
first_byte (b ∷ l) = b

dave_not_carol : dave ≢ carol
dave_not_carol e = omega (arith, ap first_byte e)

pub state-IsValid : IsValid state
state-IsValid = record {
  clients = (
    refl,
    record {
      numbered = (omega arith, omega arith);
      made = omega arith;
      stored = tt;
      acknowledged = tt;
    },
    ((dave_not_carol, λ e. omega arith), tt),
    (
      refl,
      record {
        numbered = (omega arith, omega arith);
        made = omega arith;
        stored = tt;
        acknowledged = tt;
      },
      tt,
      tt,
    ),
  );
  expiries = tt;
  retries = tt;
  connections = ((refl, omega arith), ((refl, omega arith), tt));
}

abbrev pub hello : Publish
hello = record { topic = b'/' ∷ b'n' ∷ []; packet_id = 0; payload = 7 ∷ 8 ∷ [] }

pub hello-IsPlain : IsPlain hello.topic
unfolding split split_loop string_beq
hello-IsPlain = ((refl, refl), ((refl, refl), tt))

pub carol_linked : lock_session carol_session.session state ≡ some line
unfolding lock_session find_session
carol_linked = refl

abbrev hello_bytes : List ℕ
hello_bytes = zero_bytes false false hello

abbrev asked_bytes : List ℕ
asked_bytes = frame_bytes subscribe_header (subscribe_bytes (one_filter 300 hello.topic 1))

parse_data_publish_example :
    parse_data plain_core little_endian line (hello_bytes ++ 1 ∷ []) state
    ≡ done (
      line,
      plain_core.erase_front (length hello_bytes) (hello_bytes ++ 1 ∷ []),
      relayed hello.topic hello_bytes (update_activity carol state),
    )
parse_data_publish_example =
    parse_data_publish plain_core little_endian plain_core-Reads plain_core-Writes line false false
      hello (1 ∷ []) state (omega arith) hello-IsPlain (omega arith)

parse_data_subscribe_example :
    parse_data plain_core little_endian line (asked_bytes ++ []) state
    ≡ done (
      line,
      plain_core.erase_front (length asked_bytes) (asked_bytes ++ []),
      subscribed carol_session (one_filter 300 hello.topic 1) state line,
    )
parse_data_subscribe_example =
    parse_data_subscribe plain_core little_endian plain_core-Reads plain_core-Writes line
      subscribe_header (one_filter 300 hello.topic 1) [] state carol_session refl (omega arith)
      (omega arith) (omega arith, tt) (unfold filters_bytes in omega arith) carol_registered

-- Carol subscribes, and a connection without a name publishes.
subscribe_then_publish_example :
    (m₁ m₂ : Manager) × (parse_data plain_core little_endian line (asked_bytes ++ []) state
      ≡ done (line, plain_core.erase_front (length asked_bytes) (asked_bytes ++ []), m₁))
    × (parse_data plain_core little_endian new_line (hello_bytes ++ []) m₁
        ≡ done (new_line, plain_core.erase_front (length hello_bytes) (hello_bytes ++ []), m₂))
    × (m₂.sent
        ≡ ([] ++ (1, suback_bytes 300 (1 ∷ [])) ∷ [])
          ++ copies state (now_subscribed carol_session hello.topic 1 state) hello_bytes)
    × Memᴰ
        (1, hello_bytes)
        (copies state (now_subscribed carol_session hello.topic 1 state) hello_bytes)
subscribe_then_publish_example =
    subscribe_then_publish plain_core little_endian plain_core-Reads plain_core-Writes line new_line
      line 300 1 false false hello [] [] state carol_session state-IsValid carol_registered refl
      carol_linked (omega arith) (omega arith) (omega arith) hello-IsPlain (omega arith)

abbrev carol_zero : Subscription
carol_zero = record { session = 3; qos = 0 }

abbrev dave_two : Subscription
dave_two = record { session = 4; qos = 2 }

abbrev hello_packet : Packet
hello_packet = record {
  header = zero_header false false;
  pkt_len = length hello_bytes;
  pkt = publish hello;
}

deliver_all-Perm_example :
    (l l' : List (ℕ × List ℕ)) × (deliver_all plain_core little_endian
        (carol_zero ∷ dave_two ∷ [])
        (state, hello_packet)
      ≡ done (record state { sent = [] ++ l }, hello_packet))
    × (deliver_all plain_core little_endian (dave_two ∷ carol_zero ∷ []) (state, hello_packet)
        ≡ done (record state { sent = [] ++ l' }, hello_packet))
    × Perm l l'
deliver_all-Perm_example =
    deliver_all-Perm plain_core little_endian (carol_zero ∷ dave_two ∷ [])
      (dave_two ∷ carol_zero ∷ []) hello_packet hello_bytes state (Perm.swap _ _ _) refl refl
      (build_publish_bytes plain_core plain_core-Writes (zero_header false false)
        (length hello_bytes) hello 0 [] (omega arith) (omega arith) (omega arith) (omega arith))

-- Dave's session is kept; he is sent two packets, and comes back in between.
abbrev stored_packet : Packet
stored_packet = record {
  header = record { kind = 3; dup = false; qos = 1; retain = false };
  pkt_len = 8;
  pkt = publish hello;
}

message_stays_queued_example :
    (m₁ m₂ m₃ : Manager) × (bytes : List ℕ) × (cs' : ClientSession) × (deliver plain_core
        little_endian dave_two
        (state, stored_packet)
      ≡ done (m₁, stored_packet))
    × (connect_handler plain_core little_endian (connect_packet dave) [] m₁ new_line
        ≡ done (connection_accepted, bytes, m₂))
    × (deliver plain_core little_endian dave_two (m₂, stored_packet) ≡ done (m₃, stored_packet))
    × (session_present dave m₃ ≡ some cs')
    × (cs'.message_queue ≡ ([] ++ stored_packet ∷ []) ++ stored_packet ∷ [])
    × (cs'.connected ≡ false)
    × (m₃.sent ≡ [])
message_stays_queued_example =
    message_stays_queued plain_core little_endian dave_two dave_session stored_packet stored_packet
      (connect_packet dave) (connect_of dave) [] state new_line state-IsValid dave_kept refl
      dave_away refl (omega arith) (omega arith) refl refl refl

-- Carol has been sent two packets that she has not acknowledged.
abbrev pub waiting_session : ClientSession
waiting_session = record carol_session { inflight = (7, stored_packet) ∷ (8, stored_packet) ∷ [] }

abbrev pub waiting : Manager
waiting = record state { registry = (carol, waiting_session) ∷ (dave, dave_session) ∷ [] }

pub carol_waits : session_present carol waiting ≡ some waiting_session
unfolding session_present find string_beq
carol_waits = refl

abbrev of_kind : ℕ → Header
of_kind kind = record { kind = kind; dup = false; qos = 0; retain = false }

parse_data_puback_example :
    (m' : Manager) × (cs' : ClientSession) × (parse_data plain_core little_endian line
        (ack_bytes (of_kind 4) 7 ++ [])
        waiting
      ≡ done (line, plain_core.erase_front 4 (ack_bytes (of_kind 4) 7 ++ []), m'))
    × (session_present carol m' ≡ some cs')
    × ((k : ℕ) → find k cs'.inflight ≡ (if 7 == k then none else find k waiting_session.inflight))
parse_data_puback_example =
    parse_data_puback plain_core little_endian plain_core-Reads line (of_kind 4) 7 [] waiting
      waiting_session refl (omega arith) (omega arith) carol_waits

parse_data_pubrec-pubcomp_example :
    (m₁ m₂ : Manager) × (cs' : ClientSession) × (parse_data plain_core little_endian line
        (ack_bytes (of_kind 5) 7 ++ [])
        waiting
      ≡ done (line, plain_core.erase_front 4 (ack_bytes (of_kind 5) 7 ++ []), m₁))
    × (parse_data plain_core little_endian line (ack_bytes (of_kind 7) 7 ++ []) m₁
        ≡ done (line, plain_core.erase_front 4 (ack_bytes (of_kind 7) 7 ++ []), m₂))
    × (session_present carol m₂ ≡ some cs')
    × (find 7 cs'.inflight_ack ≡ none)
    × (cs'.inflight ≡ (7, stored_packet) ∷ (8, stored_packet) ∷ [])
parse_data_pubrec-pubcomp_example =
    parse_data_pubrec-pubcomp plain_core little_endian plain_core-Reads line (of_kind 5) (of_kind 7)
      7 [] [] waiting waiting_session refl (omega arith) refl (omega arith) (omega arith)
      carol_waits

-- Carol has subscribed, and a packet that she has been sent is due again.
abbrev hello_seven : Publish
hello_seven = record hello { packet_id = 7 }

abbrev packet_seven : Packet
packet_seven = record {
  header = record { kind = 3; dup = false; qos = 1; retain = false };
  pkt_len = 8;
  pkt = publish hello_seven;
}

abbrev resending_session : ClientSession
resending_session = record carol_session { inflight = (7, packet_seven) ∷ [] }

abbrev due_entry : RetransmitEntry
due_entry = record { retry_ms = 900; packet_id = 7; packet_type = 3; session = 3 }

abbrev resending : Manager
resending = record state {
  topic_tree = TopicTree.subscribe hello.topic carol 3 1 empty_tree;
  registry = (carol, resending_session) ∷ [];
  retransmit_heap = due_entry ∷ [];
}

resending-IsValid : IsValid resending
resending-IsValid = record {
  clients = (
    refl,
    record {
      numbered = (omega arith, omega arith);
      made = omega arith;
      stored = ((hello_seven, refl, refl), tt);
      acknowledged = tt;
    },
    tt,
    tt,
  );
  expiries = tt;
  retries = (tt, tt);
  connections = ((refl, omega arith), ((refl, omega arith), tt));
}

route_packet_receivers_example :
    (m' : Manager) × (packet' : Packet) × (l : List (ℕ × List ℕ)) × (route_packet plain_core
        little_endian packet_seven none resending
      ≡ done (m', packet'))
    × (m'.sent ≡ [] ++ l)
    × (map (λ e. e.0) l
        ≡ filter_map (receiver resending) (TopicTree.match hello.topic resending.topic_tree).1)
route_packet_receivers_example =
    route_packet_receivers plain_core little_endian packet_seven hello_seven resending
      resending-IsValid refl refl

carol_at_three : lock_client 3 resending ≡ some resending_session
unfolding find_ref
carol_at_three = refl

packet_held : get_packet 7 3 resending_session ≡ packet_seven
unfolding get_packet find
packet_held = refl

one_is_due : dues 1000 resending ≡ 1
unfolding due_count
one_is_due = refl

process_retransmissions-sends_example :
    (m' : Manager) × (process_retransmissions plain_core little_endian 2 resending ≡ done m')
    × (dues m'.now m' ≡ 0)
    × (m'.sent
        ≡ []
          ++ sends
              (route resending)
              (duplicate_at packet_seven hello_seven)
              1
              (TopicTree.match hello.topic resending.topic_tree).1)
process_retransmissions-sends_example =
    process_retransmissions-sends plain_core little_endian 0 due_entry [] resending_session
      packet_seven hello_seven resending plain_core-Writes resending-IsValid refl (omega arith)
      one_is_due carol_at_three refl packet_held (omega arith) refl refl (omega arith) (omega arith)
      (omega arith)

-- Carol acknowledges it instead.
carol_resends : session_present carol resending ≡ some resending_session
unfolding session_present find string_beq
carol_resends = refl

acknowledged_blocks_example :
    (m' : Manager) × (parse_data plain_core little_endian line
        (ack_bytes (of_kind 4) 7 ++ [])
        resending
      ≡ done (line, plain_core.erase_front 4 (ack_bytes (of_kind 4) 7 ++ []), m'))
    × (m'.retransmit_heap ≡ due_entry ∷ [])
    × ((later fuel : ℕ)
        → process_retransmissions plain_core little_endian (suc fuel) (record m' { now = later })
          ≡ done (record m' { now = later }))
acknowledged_blocks_example =
    acknowledged_blocks plain_core little_endian plain_core-Reads line (of_kind 4) [] resending
      resending_session due_entry [] resending-IsValid carol_resends refl refl refl (omega arith)
      refl (omega arith)
