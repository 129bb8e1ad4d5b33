-- ===== src/Manager/Invariant/Routing.antt =====
-- Delivery keeps the invariant, the time, and the number of packets that are due for retransmission.
use culex_mqtt_broker.Common.{
  ℕ, ◌≡◌, refl, ◌∙◌, not, List, [], ◌∷◌, Option, none, some, ltb, nat_beq, if-cases, Option-cases,
  done, >>=-eq-done, done-injective, arith,
}
use mathlib.Core.Path.{subst}
use culex_mqtt_broker.Core.{Core}
use culex_mqtt_broker.Packets.Kind
use culex_mqtt_broker.Packets.Kind.{PacketType}
use culex_mqtt_broker.Packets.{Packet}
use culex_mqtt_broker.TopicTree
use culex_mqtt_broker.TopicTree.{Subscription}
use culex_mqtt_broker.ClientSession.{
  ClientSession, allocate_packet_id, store_inflight, store_message,
}
use culex_mqtt_broker.Build.{Host, build_ack, build_publish, get_publish, get_ack}
use culex_mqtt_broker.Manager.{Manager, MqttSession, lock_client, lock_session, write_client}
use culex_mqtt_broker.Manager.Heap.{push-IsSorted, due_count, due_count-push}
use culex_mqtt_broker.Manager.Routing.{
  push_if, set_qos, min_qos, schedule_retransmission, number_packet, send_to_client, deliver,
  deliver_all, route_packet,
}
use culex_mqtt_broker.Manager.Invariant.Clients.{
  IsUpdate, IsUpdate-trans, allocate_packet_id-IsUpdate, store_inflight-IsUpdate,
  store_message-IsUpdate,
}
use culex_mqtt_broker.Manager.Invariant.Registry.{Has, find_ref-Has}
use culex_mqtt_broker.Manager.Invariant.Kept.{
  Kept, Kept-refl, Kept-trans, write_client-Kept, push_if-Kept, free-Kept, retransmit_heap-Kept,
}

abbrev pub dues : ℕ → Manager → ℕ
dues now m = due_count (λ e. e.retry_ms) now m.retransmit_heap

pub record Routed (m m' : Manager) : Type 0 where
  pub kept : Kept m m'
  pub clock : m'.now ≡ m.now
  pub due : dues m.now m' ≡ dues m.now m
  pub timers : m'.expiry_heap ≡ m.expiry_heap

pub Routed-refl : (m : Manager) → Routed m m
Routed-refl m = record { kept = Kept-refl m; clock = refl; due = refl; timers = refl }

pub Routed-trans : {a b c : Manager} → Routed a b → Routed b c → Routed a c
Routed-trans {a} {b} {c} h k = record {
  kept = Kept-trans h.kept k.kept;
  clock = k.clock ∙ h.clock;
  due = subst (λ t. dues t c ≡ dues t b) h.clock k.due ∙ h.due;
  timers = k.timers ∙ h.timers;
}

write_client-Routed :
    (m : Manager) (old cs : ClientSession)
    → Has old m.registry
    → IsUpdate old cs
    → Routed m (write_client cs m)
write_client-Routed m old cs there u = record {
  kept = write_client-Kept m old cs there u;
  clock = refl;
  due = refl;
  timers = refl;
}

pub push_if-Routed :
    (o : Option MqttSession) (bytes : List ℕ) (m : Manager) → Routed m (push_if o bytes m)
push_if-Routed none bytes m = Routed-refl m
push_if-Routed (some s) bytes m = record {
  kept = push_if-Kept (some s) bytes m;
  clock = refl;
  due = refl;
  timers = refl;
}

schedule_retransmission-Routed :
    (packet_id : ℕ) (kind : PacketType) (session : ℕ) (m : Manager)
    → Routed m (schedule_retransmission packet_id kind session m)
unfolding schedule_retransmission
schedule_retransmission-Routed packet_id kind session m = record {
  kept = retransmit_heap-Kept m _ (λ v. push-IsSorted _ _ _ v.retries);
  clock = refl;
  due = due_count-push _ m.now _ m.retransmit_heap (omega arith);
  timers = refl;
}

module _ (c : Core) (host : Host) where
  number_packet-Routed :
      (cs : ClientSession) (packet : Packet) (m : Manager) (r : Manager × ℕ)
      → Has cs m.registry
      → number_packet c host cs packet m ≡ done r
      → Routed m r.0
  unfolding number_packet
  number_packet-Routed cs packet m r there e =
      if-cases (λ x. x ≡ done r → Routed m r.0) (ltb 0 packet.header.qos) _ _
        (λ kept e.
          let (p, got, e₁) = >>=-eq-done (get_publish packet.pkt) _ e in
          let (stored, put, e₂) =
            >>=-eq-done (store_inflight packet (allocate_packet_id cs).0) _ e₁ in
          let u =
            IsUpdate-trans (allocate_packet_id-IsUpdate cs)
              (store_inflight-IsUpdate packet (allocate_packet_id cs).0 stored put) in
          subst (λ (x : Manager × ℕ). Routed m x.0) (done-injective _ _ e₂)
            (Routed-trans (write_client-Routed m cs stored there u) (
              schedule_retransmission-Routed (allocate_packet_id cs).1 packet.header.kind cs.ref
                (write_client stored m))))
        (λ plain e.
          subst (λ (x : Manager × ℕ). Routed m x.0) (done-injective _ _ e) (Routed-refl m))
        e

  pub send_to_client-Routed :
      (cs : ClientSession) (packet : Packet) (m m' : Manager)
      → Has cs m.registry
      → send_to_client c host cs packet m ≡ done m'
      → Routed m m'
  unfolding send_to_client
  send_to_client-Routed cs packet m m' there e =
      if-cases (λ x. x ≡ done m' → Routed m m') (nat_beq packet.header.kind Kind.publish) _ _
        (λ publishes e.
          let ((m₁, packet_id), numbered, e₁) =
            >>=-eq-done (number_packet c host cs packet m) _ e in
          let (bytes, built, e₂) = >>=-eq-done (build_publish c packet packet_id []) _ e₁ in
          subst (Routed m) (done-injective _ _ e₂) (
            Routed-trans (number_packet-Routed cs packet m (m₁, packet_id) there numbered)
              (push_if-Routed (lock_session cs.session m₁) bytes m₁)))
        (λ acks e.
          let (a, got, e₁) = >>=-eq-done (get_ack packet.pkt) _ e in
          subst (Routed m) (done-injective _ _ e₁) (
            push_if-Routed (lock_session cs.session m)
              (build_ack host a.packet_id packet.header.kind []).1 m))
        e

  pub deliver-Routed :
      (sub : Subscription) (m : Manager) (packet : Packet) (r : Manager × Packet)
      → deliver c host sub (m, packet) ≡ done r
      → Routed m r.0
  unfolding deliver
  deliver-Routed sub m packet r e =
      Option-cases (λ x. x ≡ done r → Routed m r.0) (lock_client sub.session m) _ _
        (λ gone e.
          subst (λ (x : Manager × Packet). Routed m x.0) (done-injective _ _ e) (Routed-refl m))
        (λ cs there.
          let has = find_ref-Has sub.session cs m.registry there in
          if-cases (λ x. x ≡ done r → Routed m r.0) (not cs.connected) _ _
            (λ away.
              if-cases (λ x. x ≡ done r → Routed m r.0) (ltb 0 packet.header.qos) _ _
                (λ queued e.
                  subst (λ (x : Manager × Packet). Routed m x.0) (done-injective _ _ e)
                    (write_client-Routed m cs (store_message packet cs) has
                      (store_message-IsUpdate packet cs)))
                (λ dropped e.
                  subst (λ (x : Manager × Packet). Routed m x.0) (done-injective _ _ e)
                    (Routed-refl m)))
            (λ here e.
              let (m₁, sent, e₁) =
                >>=-eq-done
                  (send_to_client c host cs (set_qos packet (min_qos packet.header.qos sub.qos)) m)
                  _ e in
              subst (λ (x : Manager × Packet). Routed m x.0) (done-injective _ _ e₁)
                (send_to_client-Routed cs (set_qos packet (min_qos packet.header.qos sub.qos)) m m₁
                  has sent)))
        e

  deliver_all-Routed :
      (subs : List Subscription) (m : Manager) (packet : Packet) (r : Manager × Packet)
      → deliver_all c host subs (m, packet) ≡ done r
      → Routed m r.0
  unfolding deliver_all
  deliver_all-Routed [] m packet r e =
      subst (λ (x : Manager × Packet). Routed m x.0) (done-injective _ _ e) (Routed-refl m)
  deliver_all-Routed (sub ∷ subs) m packet r e =
      let ((m₁, packet₁), first, rest) = >>=-eq-done (deliver c host sub (m, packet)) _ e in
      Routed-trans (deliver-Routed sub m packet (m₁, packet₁) first)
        (deliver_all-Routed subs m₁ packet₁ r rest)

  pub route_packet-Routed :
      (packet : Packet) (m : Manager) (r : Manager × Packet)
      → route_packet c host packet none m ≡ done r
      → Routed m r.0
  unfolding route_packet
  route_packet-Routed packet m r e =
      if-cases (λ x. x ≡ done r → Routed m r.0) (nat_beq packet.header.kind Kind.publish) _ _
        (λ publishes e.
          let (p, got, e₁) = >>=-eq-done (get_publish packet.pkt) _ e in
          let found : Routed m
              (record m { topic_tree = (TopicTree.match p.topic m.topic_tree).0 }) =
            record { kept = free-Kept m m.sent _; clock = refl; due = refl; timers = refl } in
          Routed-trans found
            (deliver_all-Routed (TopicTree.match p.topic m.topic_tree).1 _ packet r e₁))
        (λ acks e. cc) e
