-- ===== src/Session/Blocking.antt =====
-- A PUBACK packet and the retransmission heap: `parseData` of mqtt/src/mqttsession.cpp, `pubackHandler`
-- of mqtt/src/packethandlers.cpp and `processRetransmissions` of mqtt/src/managesession.cpp.
use culex_mqtt_broker.Common.{
  ℕ, suc, ◌*◌, ◌<◌, ◌≡◌, true, refl, sym, ap, ◌∙◌, List, [], ◌∷◌, ◌++◌, none, some, inr, done, find,
  get_elem?, nat_beq, nat_eq, arith,
}
use mathlib.Core.Path.{subst}
use culex_mqtt_broker.Core.{Core, Reads}
use culex_mqtt_broker.Packets.Kind
use culex_mqtt_broker.Packets.{default_packet}
use culex_mqtt_broker.Packets.Flags.{Header}
use culex_mqtt_broker.Build.{Host}
use culex_mqtt_broker.ClientSession.{ClientSession, remove_from_inflight, get_packet}
use culex_mqtt_broker.Manager.{
  Manager, MqttSession, RetransmitEntry, lock_client, session_present, update_activity,
  write_client,
}
use culex_mqtt_broker.Manager.Routing.{process_retransmissions}
use culex_mqtt_broker.Manager.Routing.Retransmission.{process_retransmissions_blocked}
use culex_mqtt_broker.Manager.Invariant.{IsValid}
use culex_mqtt_broker.Handlers.{puback_handler}
use culex_mqtt_broker.Handlers.Acknowledged.{
  inflight_left, remove_from_inflight_ref, puback_handler_found,
}
use culex_mqtt_broker.Handlers.Sessions.{update_activity_found}
use culex_mqtt_broker.Handlers.Offline.{IsKept, IsKept-valid, IsKept-written}
use culex_mqtt_broker.Session.{parse_data, handlers}
use culex_mqtt_broker.Session.Acknowledging.{ack_bytes, ack_packet, parse_data_ack}

-- The packet that a PUBACK acknowledges is not found any more.
get_packet-remove_from_inflight :
    (packet_id kind : ℕ) (cs : ClientSession)
    → kind ≡ Kind.publish
    → get_packet packet_id kind (remove_from_inflight packet_id cs).0 ≡ default_packet
unfolding get_packet
get_packet-remove_from_inflight packet_id kind cs publishes =
    let is_publish : nat_beq kind Kind.publish ≡ true = ground (arith, publishes) in
    let left : find packet_id (remove_from_inflight packet_id cs).0.inflight ≡ none =
      inflight_left packet_id packet_id cs ∙ ground (arith, nat_eq.same_iff packet_id packet_id) in
    rw (is_publish, left) refl

module _ (c : Core) (host : Host) (reads : Reads c) where
  -- In a valid state, let the entry on top of the retransmission heap be for a PUBLISH packet to a client
  -- that is in the registry. The PUBACK packet with which the client acknowledges it, when it has come
  -- whole, is taken from the receive buffer, and the heap stays as it is, with the entry on top. In the
  -- state behind it, `processRetransmissions` changes nothing, at whatever time it is called and
  -- whatever entries that are due stand below: the entry is not taken off, and no packet is sent again.
  pub acknowledged_blocks :
      (self : MqttSession) (h : Header) (rest : List ℕ) (m : Manager) (cs : ClientSession)
      (e : RetransmitEntry) (heap : List RetransmitEntry)
      → IsValid m
      → session_present self.client_id m ≡ some cs
      → m.retransmit_heap ≡ e ∷ heap
      → e.session ≡ cs.ref
      → e.packet_type ≡ Kind.publish
      → e.packet_id < 256 * 256
      → h.kind ≡ 4
      → h.qos < 4
      → (m' : Manager) × (parse_data c host self (ack_bytes h e.packet_id ++ rest) m
          ≡ done (self, c.erase_front 4 (ack_bytes h e.packet_id ++ rest), m'))
        × (m'.retransmit_heap ≡ e ∷ heap)
        × ((later fuel : ℕ)
            → process_retransmissions c host (suc fuel) (record m' { now = later })
              ≡ done (record m' { now = later }))
  acknowledged_blocks self h rest m cs e heap v there top of_cs publishes hp hk hq =
      let active : ClientSession = record cs { last_activity = m.now } in
      let cs' = (remove_from_inflight e.packet_id active).0 in
      let seen = update_activity self.client_id m in
      let m' = write_client cs' seen in
      let is_seen = update_activity_found self.client_id cs m there in
      let kept : IsKept self.client_id active seen =
        subst (IsKept self.client_id active) (sym is_seen) (
          IsKept-written self.client_id cs active m refl
            (IsKept-valid self.client_id cs m v there)) in
      let kept' =
        IsKept-written self.client_id active cs' seen (remove_from_inflight_ref e.packet_id active)
          kept in
      let top' : m'.retransmit_heap ≡ e ∷ heap =
        ap (λ (x : Manager). x.retransmit_heap) is_seen ∙ top in
      let found : lock_client e.session m' ≡ some cs' =
        ap (λ r. lock_client r m') (of_cs ∙ sym (remove_from_inflight_ref e.packet_id active))
        ∙ kept'.1 in
      let gone : (get_packet e.packet_id e.packet_type cs').pkt_len ≡ 0 =
        ap (λ x. x.pkt_len)
          (get_packet-remove_from_inflight e.packet_id e.packet_type active publishes) in
      (
        m',
        parse_data_ack c host reads self h e.packet_id rest [] m m' (puback_handler c host)
            (omega (arith, hk)) (omega (arith, hk)) hq hp
            (ap (get_elem? (handlers c host)) hk ∙ (unfold handlers in refl))
            (puback_handler_found c host (ack_packet h e.packet_id)
              (record { packet_id = e.packet_id }) m self cs refl there),
        top',
        λ later fuel.
            process_retransmissions_blocked c host fuel (record m' { now = later }) e heap top'
              (inr (inr (cs', found, gone))),
      )
