-- ===== src/Handlers/Acknowledging.antt =====
-- The handlers of mqtt/src/packethandlers.cpp for acknowledgements: what they leave in the session,
-- and what they do where a session or a packet is missing.
use culex_mqtt_broker.Common.{
  ℕ, ◌≡◌, sym, ◌∙◌, List, [], ◌∷◌, ◌++◌, none, faults, nat_eq, string_eq, map, ltb, if◌then◌else◌,
  arith,
}
use mathlib.Core.List.{append_assoc, append-nil}
use culex_mqtt_broker.Core.{Core}
use culex_mqtt_broker.Packets.{Packet, Ack, TopicFilter, ack}
use culex_mqtt_broker.Build.{Host}
use culex_mqtt_broker.Manager.{Manager, MqttSession, session_present, update_activity}
use culex_mqtt_broker.Handlers.{
  present, puback_handler, pubrec_handler, pubrel_handler, pubcomp_handler, subscribe_all,
}

pub update_activity_unknown :
    (client_id : List ℕ) (m : Manager)
    → session_present client_id m ≡ none
    → update_activity client_id m ≡ m
unfolding update_activity
update_activity_unknown client_id m gone = ground arith

pub present_unknown :
    (client_id : List ℕ) (m : Manager)
    → session_present client_id m ≡ none
    → present client_id m ≡ faults
present_unknown client_id m gone = ground arith

-- The code that `subscribeHandler` answers to a topic filter.
unfoldable pub code_of : TopicFilter → ℕ
code_of f = if ltb f.qos 3 then f.qos else 0x80

module _ (c : Core) (host : Host) where
  -- An acknowledgement from a connection whose client is not in the registry, as before a CONNECT,
  -- makes each of the four handlers go through a null pointer.
  pub acknowledgement_without_session :
      (pkt : Packet) (a : Ack) (buff : List ℕ) (m : Manager) (self : MqttSession)
      → pkt.pkt ≡ ack a
      → session_present self.client_id m ≡ none
      → (puback_handler c host pkt buff m self ≡ faults)
        × (pubrec_handler c host pkt buff m self ≡ faults)
        × (pubrel_handler c host pkt buff m self ≡ faults)
        × (pubcomp_handler c host pkt buff m self ≡ faults)
  unfolding puback_handler pubrec_handler pubrel_handler pubcomp_handler
  acknowledgement_without_session pkt a buff m self body gone =
      let same = update_activity_unknown self.client_id m gone in
      let fault = present_unknown self.client_id m gone in
      (
        rw (body, same, fault),
        rw (body, same, fault),
        rw (body, same, fault),
        rw (body, same, fault),
      )

  -- `subscribeHandler` answers every filter, in order: with the QoS asked for where it is at most 2,
  -- with 0x80 otherwise.
  pub subscribe_all_codes :
      (fs : List TopicFilter) (codes : List ℕ) (m : Manager) (self : MqttSession)
      → (subscribe_all c host fs codes m self).1 ≡ codes ++ map code_of fs
  unfolding subscribe_all code_of
  subscribe_all_codes [] codes m self = sym (append-nil codes)
  subscribe_all_codes (f ∷ fs) codes m self =
      subscribe_all_codes fs _ _ self ∙ append_assoc codes (code_of f ∷ []) (map code_of fs)
