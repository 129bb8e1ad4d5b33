-- ===== src/Session.antt =====
-- mqtt/src/mqttsession.cpp: what a connection does with the bytes that have come. `forceDisconnect`
-- is in Manager.antt.
pub mod Stream
pub mod Preservation
pub mod Connecting
pub mod Publishing
pub mod Subscribing
pub mod Exchange
pub mod Acknowledging
pub mod Blocking
use culex_mqtt_broker.Common.{
  ℕ, Bool, true, false, List, [], ◌∷◌, Option, none, some, if◌then◌else◌, Outcome, done, throws,
  faults, bad_variant_access, ◌>>=◌, length, get_elem?,
}
use culex_mqtt_broker.Core.{Core}
use culex_mqtt_broker.Packets.{
  Packet, Body, Connect, ReturnCode, mqtt_ok, mqtt_err, partial_packet, connection_accepted,
  unacceptable_protocol_version, connack, ack, connect, publish, subscribe, unsubscribe,
  default_packet,
}
use culex_mqtt_broker.Build.{Host}
use culex_mqtt_broker.Unpack.{unpack}
use culex_mqtt_broker.Manager.{
  Manager, MqttSession, set_client_id, push_data, session_present, remove_from_registry,
  force_disconnect,
}
use culex_mqtt_broker.Handlers.{
  Handled, present, publish_handler, subscribe_handler, puback_handler, pubrec_handler,
  pubrel_handler, pubcomp_handler, unsubscribe_handler, pingreq_handler, disconnect_handler,
}
use culex_mqtt_broker.Handlers.Connecting.{connect_handler}

abbrev pub Handler : Type 0
Handler = Packet → List ℕ → Manager → MqttSession → Outcome Handled

-- The connection, its receive buffer, and the manager.
abbrev pub Parsed : Type 0
Parsed = MqttSession × List ℕ × Manager

-- `std::get<Connect>`
abbrev pub get_connect : Body → Outcome Connect
get_connect (connect cn) = done cn
get_connect (publish p) = throws bad_variant_access
get_connect (connack p) = throws bad_variant_access
get_connect (ack p) = throws bad_variant_access
get_connect (subscribe p) = throws bad_variant_access
get_connect (unsubscribe p) = throws bad_variant_access

-- What the handler's code leads to.
unfoldable pub answer : MqttSession → Packet → List ℕ → Handled → Outcome Parsed
unfolding set_client_id
answer self pkt recv (connection_accepted, bytes, m) = do
  cn ← get_connect pkt.pkt
  let self' : MqttSession = record self { client_id = cn.client_id }
  let m' = set_client_id self.ref cn.client_id m
  done (self', recv, push_data self bytes m')
answer self pkt recv (unacceptable_protocol_version, bytes, m) =
    done (self, recv, force_disconnect self (push_data self bytes m))
answer self pkt recv (mqtt_ok, bytes, m) = done (self, recv, m)
answer self pkt recv (mqtt_err, bytes, m) = done (self, recv, m)
answer self pkt recv (partial_packet, bytes, m) = done (self, recv, m)

module _ (c : Core) (host : Host) where
  -- The array of 15 handlers; `none` is a null one.
  unfoldable pub handlers : List (Option Handler)
  handlers =
      none
      ∷ some (connect_handler c host)
      ∷ none
      ∷ some (publish_handler c host)
      ∷ some (puback_handler c host)
      ∷ some (pubrec_handler c host)
      ∷ some (pubrel_handler c host)
      ∷ some (pubcomp_handler c host)
      ∷ some (subscribe_handler c host)
      ∷ none
      ∷ some (unsubscribe_handler c host)
      ∷ none
      ∷ some (pingreq_handler c host)
      ∷ none
      ∷ some (disconnect_handler c host)
      ∷ []

  abbrev pub call_handler :
      Option (Option Handler) → Packet → Manager → MqttSession → Outcome Handled
  call_handler none pkt m self = faults
  call_handler (some none) pkt m self = done (mqtt_ok, [], m)
  call_handler (some (some handle)) pkt m self = handle pkt [] m self

  -- The part of `parseData` behind `unpack`.
  unfoldable pub parsed : ReturnCode → Packet → List ℕ → Manager → MqttSession → Outcome Parsed
  unfolding handlers answer session_present
  parsed mqtt_ok pkt recv m self = do
    let rest = c.erase_front pkt.pkt_len recv
    handled ← call_handler (get_elem? handlers pkt.header.kind) pkt m self
    answer self pkt rest handled
  parsed partial_packet pkt recv m self = done (self, recv, m)
  parsed _ pkt recv m self = do
    cs ← present self.client_id m
    let m₁ = if cs.cleansession then remove_from_registry self.client_id m else m
    done (self, recv, force_disconnect self m₁)

  -- `parseData`
  unfoldable pub parse_data : MqttSession → List ℕ → Manager → Outcome Parsed
  unfolding parsed
  parse_data self recv m = do
    (code, pkt, _) ← unpack c default_packet recv (length recv)
    parsed code pkt recv m self
