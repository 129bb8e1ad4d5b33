-- ===== src/Manager/Routing/Ends.antt =====
-- The routing functions come to an end.
use culex_mqtt_broker.Common.{
  ℕ, ◌≢◌, not, List, [], ◌∷◌, none, ltb, leb, nat_beq, if-cases, Option-cases, stuck, >>=-ne-stuck,
  done-ne-stuck,
}
use culex_mqtt_broker.Core.{Core}
use culex_mqtt_broker.Packets.Kind
use culex_mqtt_broker.Packets.{Packet, Body, publish, ack, connack, connect, subscribe, unsubscribe}
use culex_mqtt_broker.TopicTree
use culex_mqtt_broker.TopicTree.{Subscription}
use culex_mqtt_broker.ClientSession.{ClientSession, allocate_packet_id, store_inflight, get_packet}
use culex_mqtt_broker.Build.{Host, build_publish, get_publish, get_ack}
use culex_mqtt_broker.Manager.{Manager, RetransmitEntry, lock_client}
use culex_mqtt_broker.Manager.Routing.{
  as_duplicate, set_qos, min_qos, number_packet, send_to_client, deliver, deliver_all, route_packet,
  retransmit, retransmit_top,
}

get_publish-ne-stuck : (b : Body) → get_publish b ≢ stuck
get_publish-ne-stuck (publish q) e = cc
get_publish-ne-stuck (ack q) e = cc
get_publish-ne-stuck (connack q) e = cc
get_publish-ne-stuck (connect q) e = cc
get_publish-ne-stuck (subscribe q) e = cc
get_publish-ne-stuck (unsubscribe q) e = cc

get_ack-ne-stuck : (b : Body) → get_ack b ≢ stuck
get_ack-ne-stuck (publish q) e = cc
get_ack-ne-stuck (ack q) e = cc
get_ack-ne-stuck (connack q) e = cc
get_ack-ne-stuck (connect q) e = cc
get_ack-ne-stuck (subscribe q) e = cc
get_ack-ne-stuck (unsubscribe q) e = cc

store_inflight-ne-stuck : (packet : Packet) (cs : ClientSession) → store_inflight packet cs ≢ stuck
unfolding store_inflight
store_inflight-ne-stuck packet cs =
    >>=-ne-stuck (get_publish packet.pkt) _ (get_publish-ne-stuck packet.pkt)
      (λ p got. done-ne-stuck _)

module _ (c : Core) (host : Host) where
  build_publish-ne-stuck :
      (packet : Packet) (packet_id : ℕ) (buff : List ℕ)
      → build_publish c packet packet_id buff ≢ stuck
  unfolding build_publish
  build_publish-ne-stuck packet packet_id buff =
      >>=-ne-stuck (get_publish packet.pkt) _ (get_publish-ne-stuck packet.pkt)
        (λ p got. done-ne-stuck _)

  number_packet-ne-stuck :
      (cs : ClientSession) (packet : Packet) (m : Manager)
      → number_packet c host cs packet m ≢ stuck
  unfolding number_packet
  number_packet-ne-stuck cs packet m =
      if-cases (λ x. x ≢ stuck) (ltb 0 packet.header.qos) _ _
        (λ kept. >>=-ne-stuck (get_publish packet.pkt) _ (get_publish-ne-stuck packet.pkt) (λ p got.
          >>=-ne-stuck (store_inflight packet (allocate_packet_id cs).0) _
            (store_inflight-ne-stuck packet (allocate_packet_id cs).0) (λ s put. done-ne-stuck _)))
        (λ plain. done-ne-stuck _)

  send_to_client-ne-stuck :
      (cs : ClientSession) (packet : Packet) (m : Manager)
      → send_to_client c host cs packet m ≢ stuck
  unfolding send_to_client
  send_to_client-ne-stuck cs packet m =
      if-cases (λ x. x ≢ stuck) (nat_beq packet.header.kind Kind.publish) _ _
        (λ publishes.
          >>=-ne-stuck (number_packet c host cs packet m) _ (number_packet-ne-stuck cs packet m)
            (λ n numbered.
              >>=-ne-stuck (build_publish c packet n.1 []) _ (build_publish-ne-stuck packet n.1 [])
                (λ bytes built. done-ne-stuck _)))
        (λ acks.
          >>=-ne-stuck (get_ack packet.pkt) _ (get_ack-ne-stuck packet.pkt)
            (λ a got. done-ne-stuck _))

  deliver-ne-stuck : (sub : Subscription) (s : Manager × Packet) → deliver c host sub s ≢ stuck
  unfolding deliver
  deliver-ne-stuck sub (m, packet) =
      Option-cases (λ x. x ≢ stuck) (lock_client sub.session m) _ _ (λ gone. done-ne-stuck _)
        (λ cs there.
          if-cases (λ x. x ≢ stuck) (not cs.connected) _ _
            (λ away.
              if-cases (λ x. x ≢ stuck) (ltb 0 packet.header.qos) _ _ (λ queued. done-ne-stuck _)
                (λ dropped. done-ne-stuck _))
            (λ here.
              let lowered = set_qos packet (min_qos packet.header.qos sub.qos) in
              >>=-ne-stuck (send_to_client c host cs lowered m) _
                (send_to_client-ne-stuck cs lowered m) (λ m₁ sent. done-ne-stuck _)))

  deliver_all-ne-stuck :
      (subs : List Subscription) (s : Manager × Packet) → deliver_all c host subs s ≢ stuck
  unfolding deliver_all
  deliver_all-ne-stuck [] s = done-ne-stuck _
  deliver_all-ne-stuck (sub ∷ subs) s =
      >>=-ne-stuck (deliver c host sub s) _ (deliver-ne-stuck sub s)
        (λ s₁ first. deliver_all-ne-stuck subs s₁)

  pub route_packet-ne-stuck :
      (packet : Packet) (m : Manager) → route_packet c host packet none m ≢ stuck
  unfolding route_packet
  route_packet-ne-stuck packet m =
      if-cases (λ x. x ≢ stuck) (nat_beq packet.header.kind Kind.publish) _ _
        (λ publishes.
          >>=-ne-stuck (get_publish packet.pkt) _ (get_publish-ne-stuck packet.pkt)
            (λ p got. deliver_all-ne-stuck (TopicTree.match p.topic m.topic_tree).1 _))
        (λ acks e. cc)

  retransmit-ne-stuck :
      (entry : RetransmitEntry) (packet : Packet) (cs : ClientSession) (m : Manager)
      → retransmit c host entry packet cs m ≢ stuck
  unfolding retransmit
  retransmit-ne-stuck entry packet cs m =
      if-cases (λ x. x ≢ stuck) (nat_beq entry.packet_type Kind.publish) _ _
        (λ publishes.
          >>=-ne-stuck (route_packet c host (as_duplicate packet) none m) _
            (route_packet-ne-stuck (as_duplicate packet) m) (λ r routed. done-ne-stuck _))
        (λ acks. done-ne-stuck _)

  pub retransmit_top-ne-stuck :
      (entry : RetransmitEntry) (m : Manager) → retransmit_top c host entry m ≢ stuck
  unfolding retransmit_top
  retransmit_top-ne-stuck entry m =
      if-cases (λ x. x ≢ stuck) (leb entry.retry_ms m.now) _ _
        (λ due.
          Option-cases (λ x. x ≢ stuck) (lock_client entry.session m) _ _ (λ gone. done-ne-stuck _)
            (λ cs there.
              let pkt = get_packet entry.packet_id entry.packet_type cs in
              if-cases (λ x. x ≢ stuck) (nat_beq pkt.pkt_len 0) _ _ (λ missing. done-ne-stuck _)
                (λ found.
                  >>=-ne-stuck (retransmit c host entry pkt cs m) _
                    (retransmit-ne-stuck entry pkt cs m) (λ m₁ sent. done-ne-stuck _))))
        (λ early. done-ne-stuck _)
