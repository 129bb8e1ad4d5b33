-- ===== src/Handlers.antt =====
-- mqtt/src/packethandlers.cpp: the handlers of the control packets, but `connectHandler`, which is in
-- Handlers/Connecting.antt. A handler gets the packet, the empty buffer `send_buff`, the manager and
-- the connection that the packet came from; it returns its code, the buffer and the manager. A call
-- through a null `ClientSession` is the outcome `faults`.
pub mod Connecting
pub mod Acknowledging
pub mod Acknowledged
pub mod Offline
pub mod Registration
pub mod Bodies
pub mod Preservation
pub mod Sessions
pub mod ExactlyOnce
pub mod Reconnecting
use culex_mqtt_broker.Common.{
  ℕ, Bool, List, [], ◌∷◌, ◌++◌, Option, none, some, ltb, nat_beq, if◌then◌else◌, Outcome, done,
  throws, faults, bad_variant_access, ◌>>=◌,
}
use culex_mqtt_broker.Core.{Core}
use culex_mqtt_broker.Packets.Kind
use culex_mqtt_broker.Packets.Kind.{PacketType}
use culex_mqtt_broker.Packets.Flags.{pack_header}
use culex_mqtt_broker.Packets.{
  Packet, Body, Connack, Ack, Connect, Publish, Subscribe, Unsubscribe, TopicFilter, ReturnCode,
  mqtt_ok, mqtt_err, connack, ack, connect, publish, subscribe, unsubscribe, default_header,
}
use culex_mqtt_broker.ClientSession.{
  ClientSession, get_packet, store_inflight, store_inflight_ack, remove_from_inflight,
  remove_from_inflight_ack,
}
use culex_mqtt_broker.Build.{Host, push_back, build_ack, build_suback}
use culex_mqtt_broker.Manager.{
  Manager, MqttSession, write_client, push_data, session_present, update_activity,
  create_subscription, remove_subscription,
}
use culex_mqtt_broker.Manager.Routing.{route_packet}

abbrev pub Handled : Type 0
Handled = ReturnCode × List ℕ × Manager

-- `auto cs = session_manager.sessionPresent(...)`, of which a member is used next.
abbrev pub present : List ℕ → Manager → Outcome ClientSession
present client_id m = elim (session_present client_id m) [ none ↦ faults | some cs ↦ done cs ]

-- `build_ack(packet_id, type, buff); mqtt_session->pushDataToSend(buff);`
abbrev pub send_ack : Host → ℕ → PacketType → List ℕ → MqttSession → Manager → List ℕ × Manager
send_ack host packet_id kind buff self m =
    let bytes = (build_ack host packet_id kind buff).1 in (bytes, push_data self bytes m)

module _ (c : Core) (host : Host) where
  -- The part for QoS 2: the packet is kept unless one with its id is there.
  unfoldable pub keep_inflight : Packet → Publish → ClientSession → Outcome ClientSession
  unfolding get_packet store_inflight
  keep_inflight pkt p cs =
      if nat_beq (get_packet p.packet_id Kind.publish cs).pkt_len 0
      then store_inflight pkt cs
      else done cs

  unfoldable pub publish_received :
      Packet → Publish → List ℕ → Manager → MqttSession → Outcome Handled
  unfolding keep_inflight
  publish_received pkt p buff m self =
      if nat_beq pkt.header.qos 0
      then (do (m₁, _) ← route_packet c host pkt none m; done (mqtt_ok, buff, m₁))
      else if nat_beq pkt.header.qos 1
      then (do
        (m₁, _) ← route_packet c host pkt none m
        let (bytes, m₂) = send_ack host p.packet_id Kind.puback buff self m₁
        done (mqtt_ok, bytes, m₂))
      else do
        cs ← present self.client_id m
        cs' ← keep_inflight pkt p cs
        let (bytes, m₂) = send_ack host p.packet_id Kind.pubrec buff self (write_client cs' m)
        done (mqtt_ok, bytes, m₂)

  -- `publishHandler`
  unfoldable pub publish_handler : Packet → List ℕ → Manager → MqttSession → Outcome Handled
  unfolding publish_received
  publish_handler pkt buff m self = elim pkt.pkt [
    | publish p ↦ publish_received pkt p buff (update_activity self.client_id m) self
    | _ ↦ done (mqtt_err, buff, m)
  ]

  -- The loop of `subscribeHandler`: the manager and the return codes.
  unfoldable pub subscribe_all :
      List TopicFilter → List ℕ → Manager → MqttSession → Manager × List ℕ
  subscribe_all [] codes m self = (m, codes)
  subscribe_all (f ∷ fs) codes m self =
      let granted = ltb f.qos 3 in
      subscribe_all fs (codes ++ (if granted then f.qos else 0x80) ∷ [])
        (if granted then create_subscription f.topic f.qos self.client_id m else m) self

  -- `subscribeHandler`
  unfoldable pub subscribe_handler : Packet → List ℕ → Manager → MqttSession → Outcome Handled
  unfolding subscribe_all
  subscribe_handler pkt buff m self = elim pkt.pkt [
    | subscribe s ↦
        let (m', codes) = subscribe_all s.payload [] (update_activity self.client_id m) self in
        let bytes = build_suback c s.packet_id codes buff in
        done (mqtt_ok, bytes, push_data self bytes m')
    | _ ↦ done (mqtt_err, buff, m)
  ]

  -- `pubackHandler`
  unfoldable pub puback_handler : Packet → List ℕ → Manager → MqttSession → Outcome Handled
  puback_handler pkt buff m self = elim pkt.pkt [
    | ack a ↦ (do
      let m₁ = update_activity self.client_id m
      cs ← present self.client_id m₁
      done (mqtt_ok, buff, write_client (remove_from_inflight a.packet_id cs).0 m₁))
    | _ ↦ done (mqtt_err, buff, m)
  ]

  -- `pubrecHandler`
  unfoldable pub pubrec_handler : Packet → List ℕ → Manager → MqttSession → Outcome Handled
  pubrec_handler pkt buff m self = elim pkt.pkt [
    | ack a ↦ (do
      let m₁ = update_activity self.client_id m
      let (pkt_pubrel, bytes) = build_ack host a.packet_id Kind.pubrel buff
      cs ← present self.client_id m₁
      cs' ← store_inflight_ack pkt_pubrel cs
      done (mqtt_ok, bytes, push_data self bytes (write_client cs' m₁)))
    | _ ↦ done (mqtt_err, buff, m)
  ]

  -- The packet that `pubrelHandler` releases is routed if there is one.
  unfoldable pub release : Packet → Manager → Outcome (ReturnCode × Manager)
  release pub_pkt m =
      if nat_beq pub_pkt.header.kind Kind.publish
      then (do (m', _) ← route_packet c host pub_pkt none m; done (mqtt_ok, m'))
      else done (mqtt_err, m)

  -- `pubrelHandler`
  unfoldable pub pubrel_handler : Packet → List ℕ → Manager → MqttSession → Outcome Handled
  unfolding release
  pubrel_handler pkt buff m self = elim pkt.pkt [
    | ack a ↦ (do
      let m₁ = update_activity self.client_id m
      cs ← present self.client_id m₁
      let (cs', pub_pkt) = remove_from_inflight a.packet_id cs
      (code, m₂) ← release pub_pkt (write_client cs' m₁)
      let (bytes, m₃) = send_ack host a.packet_id Kind.pubcomp buff self m₂
      done (code, bytes, m₃))
    | _ ↦ done (mqtt_err, buff, m)
  ]

  -- `pubcompHandler`
  unfoldable pub pubcomp_handler : Packet → List ℕ → Manager → MqttSession → Outcome Handled
  pubcomp_handler pkt buff m self = elim pkt.pkt [
    | ack a ↦ (do
      let m₁ = update_activity self.client_id m
      cs ← present self.client_id m₁
      done (mqtt_ok, buff, write_client (remove_from_inflight_ack a.packet_id cs).0 m₁))
    | _ ↦ done (mqtt_err, buff, m)
  ]

  -- `std::get<Unsubscribe>`
  abbrev pub get_unsubscribe : Body → Outcome Unsubscribe
  get_unsubscribe (unsubscribe u) = done u
  get_unsubscribe (publish p) = throws bad_variant_access
  get_unsubscribe (connack p) = throws bad_variant_access
  get_unsubscribe (ack p) = throws bad_variant_access
  get_unsubscribe (connect p) = throws bad_variant_access
  get_unsubscribe (subscribe p) = throws bad_variant_access

  unfoldable pub unsubscribe_all : List (List ℕ) → Manager → MqttSession → Manager
  unsubscribe_all [] m self = m
  unsubscribe_all (t ∷ ts) m self = unsubscribe_all ts (remove_subscription t self.client_id m) self

  -- `unsubscribeHandler`. The test is for an `Ack`, and the packet is read as an `Unsubscribe` then.
  unfoldable pub unsubscribe_handler : Packet → List ℕ → Manager → MqttSession → Outcome Handled
  unfolding unsubscribe_all
  unsubscribe_handler pkt buff m self = elim pkt.pkt [
    | ack a ↦ (do
      let m₁ = update_activity self.client_id m
      unsub ← get_unsubscribe pkt.pkt
      let m₂ = unsubscribe_all unsub.topics m₁ self
      let (bytes, m₃) = send_ack host unsub.packet_id Kind.unsuback buff self m₂
      done (mqtt_ok, bytes, m₃))
    | _ ↦ done (mqtt_err, buff, m)
  ]

  -- `pingreqHandler`
  unfoldable pub pingreq_handler : Packet → List ℕ → Manager → MqttSession → Outcome Handled
  pingreq_handler pkt buff m self =
      let m₁ = update_activity self.client_id m in
      let bytes = push_back buff (pack_header (record default_header { kind = Kind.pingreq })) in
      done (mqtt_err, bytes, push_data self bytes m₁)

  -- `disconnectHandler`
  unfoldable pub disconnect_handler : Packet → List ℕ → Manager → MqttSession → Outcome Handled
  disconnect_handler pkt buff m self = done (mqtt_ok, buff, m)
