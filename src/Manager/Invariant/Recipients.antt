-- ===== src/Manager/Invariant/Recipients.antt =====
-- Whom `routePacket` of mqtt/src/managesession.cpp sends a PUBLISH packet, at any QoS.
use culex_mqtt_broker.Common.{
  ℕ, ◌≡◌, refl, sym, ap, ◌∙◌, true, List, [], ◌∷◌, ◌++◌, map, none, inl, inr, Outcome, throws,
  faults, stuck, Bool-cases, none-or-some, ltb, nil-or-cons, nat_beq, done, ◌>>=◌, nat_eq, arith,
}
use mathlib.Core.Path.{subst, fun_ext}
use mathlib.Core.List.{filter_map}
use culex_mqtt_broker.Core.{Core}
use culex_mqtt_broker.Packets.Kind
use culex_mqtt_broker.Packets.{Packet, Publish, publish}
use culex_mqtt_broker.Build.{Host, build_publish, get_publish}
use culex_mqtt_broker.TopicTree
use culex_mqtt_broker.Manager.Invariant.Kept.{free-Kept}
use culex_mqtt_broker.TopicTree.{Subscription}
use culex_mqtt_broker.ClientSession.{
  ClientSession, allocate_packet_id, store_inflight, store_message,
}
use culex_mqtt_broker.Manager.{Manager, lock_client, lock_session, write_client}
use culex_mqtt_broker.Manager.Routing.{
  set_qos, min_qos, push_if, schedule_retransmission, number_packet, send_to_client, deliver,
  deliver_all, route_packet, pop_retransmit,
}
use culex_mqtt_broker.Manager.Routing.Sharing.{deliver_step}
use culex_mqtt_broker.Manager.Routing.Delivery.{
  route_publish, ref_of, copy_to, receiver, lock_session_same,
}
use culex_mqtt_broker.Manager.Invariant.{IsValid}
use culex_mqtt_broker.Manager.Invariant.Registry.{Has, find_ref-Has}
use culex_mqtt_broker.Manager.Invariant.Routing.{deliver-Routed}
use culex_mqtt_broker.Manager.Invariant.Sends.{
  sends, sends_gone, sends_there, joined-route, sends-receivers,
}
use culex_mqtt_broker.Manager.Invariant.Receivers.{
  route_after, route, route_gone, route_there, route-write_client, route-heap, after_done,
  allocated_alike, pushed-IsSent, unchanged, queued-IsSent, IsSent-trans, IsSent, IsNumbered,
  stored_in,
}

-- The bytes that `build_publish` makes of a packet, whatever packet id it is given.
abbrev pub value : Outcome (List ℕ) → List ℕ
value (done bytes) = bytes
value (throws x) = []
value faults = []
value stuck = []

abbrev pub built : Core → Packet → List ℕ
built c packet = value (build_publish c packet 0 [])

pub pop_retransmit_sent : (m : Manager) → (pop_retransmit m).sent ≡ m.sent
pop_retransmit_sent m = elim (nil-or-cons m.retransmit_heap) [
  | inl empty ↦ rw (empty) refl
  | inr (e, h, is) ↦ rw (is) refl
]

module _ (c : Core) (host : Host) where
  build_publish_done :
      (packet : Packet) (p : Publish) (packet_id : ℕ)
      → packet.pkt ≡ publish p
      → build_publish c packet packet_id [] ≡ done (built c packet)
  unfolding build_publish
  build_publish_done packet p packet_id body =
      let e = after_done (get_publish packet.pkt) p _ (ap get_publish body) in
      e ∙ ap done (sym (ap value e))

  number_packet-IsNumbered :
      (cs : ClientSession) (packet : Packet) (p : Publish) (m : Manager)
      → IsValid m
      → Has cs m.registry
      → packet.pkt ≡ publish p
      → (m' : Manager) × (packet_id : ℕ) × (number_packet c host cs packet m ≡ done (m', packet_id))
        × IsNumbered m m'
  unfolding number_packet store_inflight schedule_retransmission
  number_packet-IsNumbered cs packet p m v there body =
      elim (Bool-cases (ltb 0 packet.header.qos)) [
        | inr zero_qos ↦ (
          m,
          0,
          rw (number_packet, zero_qos) refl,
          record { unsent = refl; alike = λ sub. refl; lines = λ o. refl },
        )
        | inl above ↦
            let found : get_publish packet.pkt ≡ done p = ap get_publish body in
            let stored = stored_in cs packet p in
            let a = allocated_alike cs in
            let written = write_client stored m in
            let packet_id = (allocate_packet_id cs).1 in
            let m' = schedule_retransmission packet_id packet.header.kind cs.ref written in
            (
              m',
              packet_id,
              rw (number_packet, above, store_inflight, found) refl,
              record {
                unsent = refl;
                alike = λ sub.
                    route-heap written m.sent m'.retransmit_heap sub
                    ∙ route-write_client m cs stored sub v there a.0 (a.1, a.2);
                lines = λ o. lock_session_same o m' m refl refl;
              },
            )
      ]

  send_to_client-IsSent :
      (cs : ClientSession) (packet : Packet) (p : Publish) (m : Manager)
      → IsValid m
      → Has cs m.registry
      → packet.pkt ≡ publish p
      → packet.header.kind ≡ Kind.publish
      → (m' : Manager) × (send_to_client c host cs packet m ≡ done m')
        × IsSent m m' (copy_to (ref_of (lock_session cs.session m)) (built c packet))
  unfolding send_to_client
  send_to_client-IsSent cs packet p m v there body kind =
      let (m₁, packet_id, numbered, n) = number_packet-IsNumbered cs packet p m v there body in
      let bytes = built c packet in
      let made = build_publish_done packet p packet_id body in
      let is_publish : nat_beq packet.header.kind Kind.publish ≡ true = ground (arith, kind) in
      (
        push_if (lock_session cs.session m₁) bytes m₁,
        rw (send_to_client, is_publish, numbered, made) refl,
        pushed-IsSent m m₁ cs.session bytes n,
      )

  -- One round of the loop, and the bytes at each QoS.
  abbrev pub bytes_at : Packet → ℕ → List ℕ
  bytes_at packet qos = built c (set_qos packet qos)

  deliver-IsSent :
      (sub : Subscription) (subs : List Subscription) (packet : Packet) (p : Publish) (m : Manager)
      → IsValid m
      → packet.pkt ≡ publish p
      → packet.header.kind ≡ Kind.publish
      → (m' : Manager) × (qos : ℕ) × (l : List (ℕ × List ℕ)) × (deliver c host sub (m, packet)
          ≡ done (m', set_qos packet qos))
        × IsSent m m' l
        × (sends (route m) (bytes_at packet) packet.header.qos (sub ∷ subs)
            ≡ l ++ sends (route m) (bytes_at packet) qos subs)
  unfolding deliver
  deliver-IsSent sub subs packet p m v body kind =
      let f = route m in
      let bytes = bytes_at packet in
      let q = packet.header.qos in
      elim (none-or-some (lock_client sub.session m)) [
        | inl gone ↦ (
          m,
          q,
          [],
          rw (deliver, gone) refl,
          unchanged m,
          sends_gone f bytes q sub subs (route_gone m sub gone),
        )
        | inr (cs, there) ↦
            let has = find_ref-Has sub.session cs m.registry there in
            elim (Bool-cases cs.connected) [
              | inl up ↦
                  let lowered = set_qos packet (min_qos q sub.qos) in
                  let (m', returned, s) = send_to_client-IsSent cs lowered p m v has body kind in
                  (
                    m',
                    min_qos q sub.qos,
                    _,
                    deliver_step c host sub cs m packet there up
                        ∙ ap (λ r. r >>= λ m'. done (m', lowered)) returned,
                    s,
                    sends_there f bytes q sub subs (ref_of (lock_session cs.session m))
                        (route_there m sub cs there ∙ rw (up) refl),
                  )
              | inr down ↦
                  let skipped =
                    sends_gone f bytes q sub subs (route_there m sub cs there ∙ rw (down) refl) in
                  elim (Bool-cases (ltb 0 q)) [
                    | inl above ↦ (
                      write_client (store_message packet cs) m,
                      q,
                      [],
                      rw (deliver, there, down, above) refl,
                      queued-IsSent m cs packet v has,
                      skipped,
                    )
                    | inr zero_qos ↦
                        (m, q, [], rw (deliver, there, down, zero_qos) refl, unchanged m, skipped)
                  ]
            ]
      ]

  deliver_all-IsSent :
      (subs : List Subscription) (packet : Packet) (p : Publish) (m : Manager)
      → IsValid m
      → packet.pkt ≡ publish p
      → packet.header.kind ≡ Kind.publish
      → (m' : Manager) × (packet' : Packet) × (deliver_all c host subs (m, packet)
          ≡ done (m', packet'))
        × IsSent m m' (sends (route m) (bytes_at packet) packet.header.qos subs)
  unfolding deliver_all sends
  deliver_all-IsSent [] packet p m v body kind = (m, packet, refl, unchanged m)
  deliver_all-IsSent (sub ∷ subs) packet p m v body kind =
      let (m₁, qos, l, first, s, split) = deliver-IsSent sub subs packet p m v body kind in
      let packet₁ = set_qos packet qos in
      let v₁ = (deliver-Routed c host sub m packet (m₁, packet₁) first).kept.valid v in
      let (m', packet', rest, s') = deliver_all-IsSent subs packet₁ p m₁ v₁ body kind in
      (
        m',
        packet',
        ap (λ r. r >>= deliver_all c host subs) first ∙ rest,
        subst (IsSent m m')
            (ap (λ f. l ++ sends f (bytes_at packet) qos subs) (fun_ext s.alike) ∙ sym split)
            (IsSent-trans s s'),
      )

  -- `routePacket` with the bytes of what it sends.
  pub route_packet-sends :
      (packet : Packet) (p : Publish) (m : Manager)
      → IsValid m
      → packet.pkt ≡ publish p
      → packet.header.kind ≡ Kind.publish
      → (m' : Manager) × (packet' : Packet) × (route_packet c host packet none m
          ≡ done (m', packet'))
        × (m'.sent
            ≡ m.sent
              ++ sends
                  (route m)
                  (bytes_at packet)
                  packet.header.qos
                  (TopicTree.match p.topic m.topic_tree).1)
  route_packet-sends packet p m v body kind =
      let (tree, subs) = TopicTree.match p.topic m.topic_tree in
      let found : Manager = record m { topic_tree = tree } in
      let (m', packet', returned, s) =
        deliver_all-IsSent subs packet p found ((free-Kept m m.sent tree).valid v) body kind in
      (
        m',
        packet',
        route_publish c host packet p m kind body ∙ returned,
        s.sent
            ∙ ap (λ f. m.sent ++ sends f (bytes_at packet) packet.header.qos subs)
                (fun_ext (route_after m m.sent tree)),
      )

  -- In a valid state, `routePacket` for a PUBLISH packet of any QoS comes to an end, and what it sends
  -- are packets to the connections of the clients that are connected, one for each of the
  -- subscriptions that the topic tree finds for the topic, in their order, and nothing else.
  pub route_packet_receivers :
      (packet : Packet) (p : Publish) (m : Manager)
      → IsValid m
      → packet.pkt ≡ publish p
      → packet.header.kind ≡ Kind.publish
      → (m' : Manager) × (packet' : Packet) × (l : List (ℕ × List ℕ)) × (route_packet c host packet
            none m
          ≡ done (m', packet'))
        × (m'.sent ≡ m.sent ++ l)
        × (map (λ e. e.0) l ≡ filter_map (receiver m) (TopicTree.match p.topic m.topic_tree).1)
  route_packet_receivers packet p m v body kind =
      let (m', packet', returned, sent) = route_packet-sends packet p m v body kind in
      let subs = (TopicTree.match p.topic m.topic_tree).1 in
      (
        m',
        packet',
        sends (route m) (bytes_at packet) packet.header.qos subs,
        returned,
        sent,
        sends-receivers (route m) (bytes_at packet) packet.header.qos subs
            ∙ ap (λ f. filter_map f subs) (fun_ext (joined-route m)),
      )
