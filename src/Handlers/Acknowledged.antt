-- ===== src/Handlers/Acknowledged.antt =====
-- What `pubackHandler`, `pubrecHandler` and `pubcompHandler` of mqtt/src/packethandlers.cpp make of
-- the session of a client that is in the registry.
use culex_mqtt_broker.Common.{
  ℕ, ◌≡◌, ap, ◌∙◌, [], none, some, if◌then◌else◌, Outcome, done, ◌>>=◌, ◌==◌, find, insert,
  find-erase, nat_eq, arith,
}
use culex_mqtt_broker.Core.{Core}
use culex_mqtt_broker.Packets.Kind
use culex_mqtt_broker.Packets.{Packet, Ack, ack, mqtt_ok, mqtt_err}
use culex_mqtt_broker.Build.{Host, build_ack, pack_ack}
use culex_mqtt_broker.ClientSession.{
  ClientSession, remove_from_inflight, remove_from_inflight_ack, store_inflight_ack,
}
use culex_mqtt_broker.Manager.{
  Manager, MqttSession, session_present, update_activity, write_client, push_data,
}
use culex_mqtt_broker.Handlers.{Handled, present, puback_handler, pubrec_handler, pubcomp_handler}
use culex_mqtt_broker.Handlers.Sessions.{active_session, present_found}

-- What is left of the stored packets.
pub inflight_left :
    (packet_id k : ℕ) (cs : ClientSession)
    → find k (remove_from_inflight packet_id cs).0.inflight
      ≡ (if packet_id == k then none else find k cs.inflight)
unfolding remove_from_inflight
inflight_left packet_id k cs =
    ground (arith, find-erase k packet_id cs.inflight, nat_eq.same_iff packet_id k)

pub remove_from_inflight_ref :
    (packet_id : ℕ) (cs : ClientSession) → (remove_from_inflight packet_id cs).0.ref ≡ cs.ref
unfolding remove_from_inflight
remove_from_inflight_ref packet_id cs = ground arith

-- The session behind an acknowledgement of a part of a delivery at QoS 2.
abbrev pub with_pubrel : Host → ℕ → ClientSession → ClientSession
with_pubrel host packet_id cs = record cs {
  inflight_ack = insert packet_id (build_ack host packet_id Kind.pubrel []).0 cs.inflight_ack;
}

pub ack_left :
    (packet_id k : ℕ) (cs : ClientSession)
    → find k (remove_from_inflight_ack packet_id cs).0.inflight_ack
      ≡ (if packet_id == k then none else find k cs.inflight_ack)
unfolding remove_from_inflight_ack
ack_left packet_id k cs =
    ground (arith, find-erase k packet_id cs.inflight_ack, nat_eq.same_iff packet_id k)

pub remove_from_inflight_ack_rest :
    (packet_id : ℕ) (cs : ClientSession)
    → ((remove_from_inflight_ack packet_id cs).0.ref ≡ cs.ref)
      × ((remove_from_inflight_ack packet_id cs).0.inflight ≡ cs.inflight)
unfolding remove_from_inflight_ack
remove_from_inflight_ack_rest packet_id cs = ground arith

module _ (c : Core) (host : Host) where
  pub puback_handler_found :
      (pkt : Packet) (a : Ack) (m : Manager) (self : MqttSession) (cs : ClientSession)
      → pkt.pkt ≡ ack a
      → session_present self.client_id m ≡ some cs
      → puback_handler c host pkt [] m self
        ≡ done (
          mqtt_ok,
          [],
          write_client
              (remove_from_inflight a.packet_id (record cs { last_activity = m.now })).0
              (update_activity self.client_id m),
        )
  unfolding puback_handler
  puback_handler_found pkt a m self cs body there =
      let active = update_activity self.client_id m in
      let reply : ℕ → ClientSession → Outcome Handled = λ packet_id cs.
        done (mqtt_ok, [], write_client (remove_from_inflight packet_id cs).0 active) in
      ap
        (λ b. elim b as (λ _. Outcome Handled) [
          | ack a ↦ present self.client_id active >>= reply a.packet_id
          | _ ↦ done (mqtt_err, [], m)
        ])
        body
      ∙ ap (λ r. r >>= reply a.packet_id)
          (present_found self.client_id active _ (active_session self.client_id cs m there))

  pub pubrec_handler_found :
      (pkt : Packet) (a : Ack) (m : Manager) (self : MqttSession) (cs : ClientSession)
      → pkt.pkt ≡ ack a
      → session_present self.client_id m ≡ some cs
      → let bytes = (build_ack host a.packet_id Kind.pubrel []).1 in
        pubrec_handler c host pkt [] m self
        ≡ done (
          mqtt_ok,
          bytes,
          push_data self bytes (
              write_client
                (with_pubrel host a.packet_id (record cs { last_activity = m.now }))
                (update_activity self.client_id m)),
        )
  unfolding pubrec_handler store_inflight_ack build_ack pack_ack
  pubrec_handler_found pkt a m self cs body there =
      let active = update_activity self.client_id m in
      let reply : ℕ → ClientSession → Outcome Handled = λ packet_id cs. (do
        cs' ← store_inflight_ack (build_ack host packet_id Kind.pubrel []).0 cs
        done (
          mqtt_ok,
          (build_ack host packet_id Kind.pubrel []).1,
          push_data self (build_ack host packet_id Kind.pubrel []).1 (write_client cs' active),
        )) in
      ap
        (λ b. elim b as (λ _. Outcome Handled) [
          | ack a ↦ present self.client_id active >>= reply a.packet_id
          | _ ↦ done (mqtt_err, [], m)
        ])
        body
      ∙ ap (λ r. r >>= reply a.packet_id)
          (present_found self.client_id active _ (active_session self.client_id cs m there))

  pub pubcomp_handler_found :
      (pkt : Packet) (a : Ack) (m : Manager) (self : MqttSession) (cs : ClientSession)
      → pkt.pkt ≡ ack a
      → session_present self.client_id m ≡ some cs
      → pubcomp_handler c host pkt [] m self
        ≡ done (
          mqtt_ok,
          [],
          write_client
              (remove_from_inflight_ack a.packet_id (record cs { last_activity = m.now })).0
              (update_activity self.client_id m),
        )
  unfolding pubcomp_handler
  pubcomp_handler_found pkt a m self cs body there =
      let active = update_activity self.client_id m in
      let reply : ℕ → ClientSession → Outcome Handled = λ packet_id cs.
        done (mqtt_ok, [], write_client (remove_from_inflight_ack packet_id cs).0 active) in
      ap
        (λ b. elim b as (λ _. Outcome Handled) [
          | ack a ↦ present self.client_id active >>= reply a.packet_id
          | _ ↦ done (mqtt_err, [], m)
        ])
        body
      ∙ ap (λ r. r >>= reply a.packet_id)
          (present_found self.client_id active _ (active_session self.client_id cs m there))
