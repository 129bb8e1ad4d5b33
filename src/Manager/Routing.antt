-- ===== src/Manager/Routing.antt =====
-- Delivery in `ManageSessions`: `routePacket`, `sendToClient`, `scheduleRetransmission` and
-- `processRetransmissions` of mqtt/src/managesession.cpp.
pub mod Retransmission
pub mod Sharing
pub mod Ends
pub mod Delivery
use culex_mqtt_broker.Common.{
  ℕ, zero, suc, ◌+◌, ◌*◌, Bool, true, false, not, List, [], ◌∷◌, ◌++◌, Option, none, some, ltb, leb,
  nat_beq, if◌then◌else◌, Outcome, done, faults, stuck, ◌>>=◌,
}
use culex_mqtt_broker.Core.{Core}
use culex_mqtt_broker.Packets.Kind
use culex_mqtt_broker.Packets.Kind.{PacketType}
use culex_mqtt_broker.Packets.Flags.{Header}
use culex_mqtt_broker.Packets.{Packet}
use culex_mqtt_broker.TopicTree
use culex_mqtt_broker.TopicTree.{Subscription}
use culex_mqtt_broker.ClientSession.{
  ClientSession, allocate_packet_id, store_inflight, store_message, get_packet,
}
use culex_mqtt_broker.Build.{Host, build_ack, build_publish, get_publish, get_ack}
use culex_mqtt_broker.Manager.Heap.{push}
use culex_mqtt_broker.Manager.{
  Manager, MqttSession, RetransmitEntry, lock_client, write_client, lock_session, push_data,
}

-- `RETRY_INTERVAL_S`
abbrev pub retry_interval_s : ℕ
retry_interval_s = 5

-- `m_retransmitHeap.push`
abbrev pub push_retransmit : RetransmitEntry → List RetransmitEntry → List RetransmitEntry
push_retransmit = push (λ e. e.retry_ms)

unfoldable pub schedule_retransmission : ℕ → PacketType → ℕ → Manager → Manager
schedule_retransmission packet_id kind session m =
    let entry : RetransmitEntry = record {
      retry_ms = m.now + retry_interval_s * 1000;
      packet_id = packet_id;
      packet_type = kind;
      session = session;
    } in
    record m { retransmit_heap = push_retransmit entry m.retransmit_heap }

-- `if (auto transport = session->session.lock()) transport->pushDataToSend(buff);`
abbrev pub push_if : Option MqttSession → List ℕ → Manager → Manager
push_if none bytes m = m
push_if (some s) bytes m = push_data s bytes m

-- `std::min` of two `uint8_t`
abbrev pub min_qos : ℕ → ℕ → ℕ
min_qos a b = if ltb b a then b else a

abbrev pub set_qos : Packet → ℕ → Packet
set_qos packet qos = record packet {
  header = record {
    kind = packet.header.kind;
    dup = packet.header.dup;
    qos = qos;
    retain = packet.header.retain;
  };
}

-- `m_retransmitHeap.pop()`
abbrev pub pop_retransmit : Manager → Manager
pop_retransmit m = elim m.retransmit_heap [ [] ↦ m | e ∷ h ↦ record m { retransmit_heap = h } ]

-- `dup` set.
abbrev pub as_duplicate : Packet → Packet
as_duplicate packet = record packet {
  header = record {
    kind = packet.header.kind;
    dup = true;
    qos = packet.header.qos;
    retain = packet.header.retain;
  };
}

module _ (c : Core) (host : Host) where
  -- The packet is stored under the id that it came with; the id that the session allocates goes to the
  -- retransmission heap and to `build_publish`.
  unfoldable pub number_packet : ClientSession → Packet → Manager → Outcome (Manager × ℕ)
  unfolding allocate_packet_id store_inflight schedule_retransmission
  number_packet cs packet m =
      if ltb 0 packet.header.qos
      then (do
        pub_pkt ← get_publish packet.pkt
        let (numbered, packet_id) = allocate_packet_id cs
        stored ← store_inflight packet numbered
        done (
          schedule_retransmission packet_id packet.header.kind cs.ref (write_client stored m),
          packet_id,
        ))
      else done (m, 0)

  unfoldable pub send_to_client : ClientSession → Packet → Manager → Outcome Manager
  unfolding number_packet
  send_to_client cs packet m =
      if nat_beq packet.header.kind Kind.publish
      then (do
        (m', packet_id) ← number_packet cs packet m
        bytes ← build_publish c packet packet_id []
        done (push_if (lock_session cs.session m') bytes m'))
      else do
        ack_pkt ← get_ack packet.pkt
        done (
            push_if (lock_session cs.session m)
              (build_ack host ack_pkt.packet_id packet.header.kind []).1 m)

  -- One round of the loop over the matching subscriptions. The QoS that it lowers for one subscriber
  -- stays lowered in the packet.
  unfoldable pub deliver : Subscription → Manager × Packet → Outcome (Manager × Packet)
  unfolding send_to_client
  deliver sub (m, packet) = elim (lock_client sub.session m) [
    | none ↦ done (m, packet)
    | some session ↦
        if not session.connected
        then if ltb 0 packet.header.qos
          then done (write_client (store_message packet session) m, packet)
          else done (m, packet)
        else do
          let lowered = set_qos packet (min_qos packet.header.qos sub.qos)
          m' ← send_to_client session lowered m
          done (m', lowered)
  ]

  unfoldable pub deliver_all : List Subscription → Manager × Packet → Outcome (Manager × Packet)
  deliver_all [] s = done s
  deliver_all (sub ∷ subs) s = do s' ← deliver sub s; deliver_all subs s'

  -- `routePacket`; the session is a null pointer by default.
  unfoldable pub route_packet : Packet → Option ClientSession → Manager → Outcome (Manager × Packet)
  unfolding deliver_all
  route_packet packet cs m =
      if nat_beq packet.header.kind Kind.publish
      then (do
        pub_pkt ← get_publish packet.pkt
        let (tree, subs) = TopicTree.match pub_pkt.topic m.topic_tree
        deliver_all subs (record m { topic_tree = tree }, packet))
      else elim cs [
        | none ↦ faults
        | some session ↦ do m' ← send_to_client session packet m; done (m', packet)
      ]

  -- One packet that is due; the entry is popped behind it, from a heap that may have grown.
  unfoldable pub retransmit : RetransmitEntry → Packet → ClientSession → Manager → Outcome Manager
  unfolding route_packet
  retransmit entry pkt cs m =
      if nat_beq entry.packet_type Kind.publish
      then (do (m', _) ← route_packet (as_duplicate pkt) none m; done m')
      else done (
          push_if (lock_session cs.session m) (build_ack host entry.packet_id pkt.header.kind []).1
            m)

  -- What the loop of `processRetransmissions` does with the entry on top: `none` is a `break`.
  unfoldable pub retransmit_top : RetransmitEntry → Manager → Outcome (Option Manager)
  unfolding retransmit
  retransmit_top entry m =
      if leb entry.retry_ms m.now
      then elim (lock_client entry.session m) [
        | none ↦ done none
        | some cs ↦
            let pkt = get_packet entry.packet_id entry.packet_type cs in
            if nat_beq pkt.pkt_len 0
            then done none
            else do m' ← retransmit entry pkt cs m; done (some (pop_retransmit m'))
      ]
      else done none

  unfoldable pub process_retransmissions : ℕ → Manager → Outcome Manager
  unfolding retransmit_top
  process_retransmissions zero m = stuck
  process_retransmissions (suc fuel) m = elim m.retransmit_heap [
    | [] ↦ done m
    | entry ∷ h ↦ do
      next ← retransmit_top entry m
      elim next [ none ↦ done m | some m' ↦ process_retransmissions fuel m' ]
  ]
