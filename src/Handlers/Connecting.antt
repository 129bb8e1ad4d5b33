-- ===== src/Handlers/Connecting.antt =====
-- `connectHandler` and `resendMessages` of mqtt/src/packethandlers.cpp.
use culex_mqtt_broker.Common.{
  ℕ, ◌+◌, Bool, true, false, List, [], ◌∷◌, none, some, nat_beq, if◌then◌else◌, Outcome, done,
  ◌>>=◌,
}
use culex_mqtt_broker.Core.{Core}
use culex_mqtt_broker.Packets.Kind
use culex_mqtt_broker.Packets.Flags.{pack_header}
use culex_mqtt_broker.Packets.{
  Packet, Connect, Connack, mqtt_err, connection_accepted, unacceptable_protocol_version, connect,
  default_header,
}
use culex_mqtt_broker.ClientSession.{ClientSession, new_client_session}
use culex_mqtt_broker.Build.{Host, push_back, put_length, pack_connack, build_publish, build_ack}
use culex_mqtt_broker.Manager.{
  Manager, MqttSession, write_client, lock_session, push_data, force_disconnect, session_present,
  remove_from_registry, add_to_registry,
}
use culex_mqtt_broker.Manager.Timers.{schedule_expiry}
use culex_mqtt_broker.Manager.Routing.{as_duplicate}
use culex_mqtt_broker.Handlers.{Handled}

-- The session that a CONNECT goes on with, and whether it is to be registered and was there before.
pub record Chosen : Type 0 where
  pub client : ClientSession
  pub add_to_registry : Bool
  pub session_present : Bool
  pub manager : Manager

-- A client that is connected is disconnected first.
unfoldable pub take_over : ClientSession → Manager → ClientSession × Manager
take_over cs m =
    if cs.connected
    then (let cs' : ClientSession = record cs { connected = false } in
        let m₁ : Manager = elim (lock_session cs.session m) [
          | none ↦ m
          | some old ↦ force_disconnect old m
        ] in
        (cs', write_client cs' m₁))
    else (cs, m)

-- `std::make_shared<ClientSession>()`
unfoldable pub fresh_session : Manager → Chosen
fresh_session m = record {
  client = new_client_session m.next_ref;
  add_to_registry = true;
  session_present = false;
  manager = record m { next_ref = m.next_ref + 1 };
}

-- The fields that every CONNECT sets, and the answer to the protocol level.
unfoldable pub set_fields : Connect → ClientSession → ClientSession
set_fields cn cs = record cs {
  client_id = cn.client_id;
  keep_alive = cn.keep_alive;
  cleansession = cn.cf.cleansession;
  connected = if nat_beq cn.level 0x04 then cs.connected else false;
}

-- A new session is attached to its connection, registered, and its expiry scheduled.
unfoldable pub register : ClientSession → Manager → MqttSession → Manager
register cs m self =
    let attached = record cs { connected = true; session = some self.ref; last_activity = m.now } in
    schedule_expiry attached (add_to_registry attached m)

-- From the fields on: the session is changed where it is, and registered if it is new.
unfoldable pub finish_connect : Host → Connect → Chosen → List ℕ → MqttSession → Handled
unfolding set_fields register
finish_connect host cn chosen buff self =
    let good = nat_beq cn.level 0x04 in
    let cs = set_fields cn chosen.client in
    let m = write_client cs chosen.manager in
    let registered =
      if good then (if chosen.add_to_registry then register cs m self else m) else m in
    let answer : Connack = record {
      ack_flags = if chosen.session_present then 1 else 0;
      return_code = if good then 0 else 1;
    } in
    let typed = push_back buff (pack_header (record default_header { kind = Kind.connack })) in
    let bytes = push_back (put_length 2 typed) (pack_connack host answer) in
    (if good then connection_accepted else unacceptable_protocol_version, bytes, registered)

module _ (c : Core) (host : Host) where
  unfoldable pub resend_messages : Packet → ℕ → MqttSession → Manager → Outcome Manager
  resend_messages packet packet_id session m =
      if nat_beq packet.header.kind Kind.publish
      then (do
        bytes ← build_publish c (as_duplicate packet) packet_id []
        done (push_data session bytes m))
      else if nat_beq packet.header.kind Kind.pubrel
      then done (push_data session (build_ack host packet_id Kind.pubrel []).1 m)
      else done m

  unfoldable pub resend_all : List (ℕ × Packet) → MqttSession → Manager → Outcome Manager
  unfolding resend_messages
  resend_all [] session m = done m
  resend_all ((packet_id, packet) ∷ l) session m = do
    m' ← resend_messages packet packet_id session m
    resend_all l session m'

  -- `CleanSession` is false: the old session goes on.
  unfoldable pub resume : ClientSession → Manager → Outcome Chosen
  unfolding resend_all
  resume cs m = do
    m' ← elim (lock_session cs.session m) [
      | none ↦ done m
      | some old ↦ do m₁ ← resend_all cs.inflight old m; resend_all cs.inflight_ack old m₁
    ]
    done (record { client = cs; add_to_registry = false; session_present = true; manager = m' })

  unfoldable pub choose_session : Connect → Manager → Outcome Chosen
  unfolding take_over fresh_session resume
  choose_session cn m = elim (session_present cn.client_id m) [
    | none ↦ done (fresh_session m)
    | some cs ↦
        let (cs₁, m₁) = take_over cs m in
        if cn.cf.cleansession
        then done (fresh_session (remove_from_registry cn.client_id m₁))
        else resume cs₁ m₁
  ]

  -- `connectHandler`
  unfoldable pub connect_handler : Packet → List ℕ → Manager → MqttSession → Outcome Handled
  unfolding choose_session finish_connect
  connect_handler pkt buff m self = elim pkt.pkt [
    | connect cn ↦ (do chosen ← choose_session cn m; done (finish_connect host cn chosen buff self))
    | _ ↦ done (mqtt_err, buff, m)
  ]
