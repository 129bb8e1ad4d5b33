-- ===== src/Manager/Routing/Delivery.antt =====
-- What `routePacket` of mqtt/src/managesession.cpp sends for a packet of QoS 0: a copy of the same
-- bytes to each subscriber that is connected, in whatever order the subscribers are found.
use culex_mqtt_broker.Common.{
  ℕ, ltb, nat_beq, ◌≡◌, refl, sym, ap, ◌∙◌, true, false, List, [], ◌∷◌, ◌++◌, map, Option, none,
  some, Bool-cases, none-or-some, inl, inr, if◌then◌else◌, Outcome, done, ◌>>=◌, arith,
}
use mathlib.Core.Path.{fun_ext}
use mathlib.Core.List.{append_assoc, append-nil, Perm, filter_map}
use mathlib.Core.List.Perm
use culex_mqtt_broker.Core.{Core}
use culex_mqtt_broker.Packets.Kind
use culex_mqtt_broker.Packets.{Packet, Publish, publish}
use culex_mqtt_broker.Build.{Host, build_publish, get_publish}
use culex_mqtt_broker.TopicTree
use culex_mqtt_broker.TopicTree.{Node, Subscription}
use culex_mqtt_broker.ClientSession.{ClientSession}
use culex_mqtt_broker.Manager.{
  Manager, MqttSession, find_session, find_held, lock_client, lock_session,
}
use culex_mqtt_broker.Manager.Routing.Sharing.{deliver_step}
use culex_mqtt_broker.Manager.Routing.{
  set_qos, min_qos, push_if, number_packet, send_to_client, deliver, deliver_all, route_packet,
}

abbrev pub ref_of : Option MqttSession → Option ℕ
ref_of none = none
ref_of (some s) = some s.ref

-- The connection of a subscriber that is connected.
unfoldable pub receiver : Manager → Subscription → Option ℕ
receiver m sub = elim (lock_client sub.session m) [
  | none ↦ none
  | some cs ↦ if cs.connected then ref_of (lock_session cs.session m) else none
]

-- One entry of `sent` for each subscriber that is connected.
abbrev pub copies : Manager → List Subscription → List ℕ → List (ℕ × List ℕ)
copies m subs bytes = map (λ r. (r, bytes)) (filter_map (receiver m) subs)

abbrev pub copy_to : Option ℕ → List ℕ → List (ℕ × List ℕ)
copy_to none bytes = []
copy_to (some r) bytes = (r, bytes) ∷ []

copies-cons :
    (m : Manager) (sub : Subscription) (subs : List Subscription) (bytes : List ℕ)
    → copies m (sub ∷ subs) bytes ≡ copy_to (receiver m sub) bytes ++ copies m subs bytes
unfolding filter_map
copies-cons m sub subs bytes = elim (none-or-some (receiver m sub)) [
  | inl missing ↦ rw (missing) refl
  | inr (r, there) ↦ rw (there) refl
]

copies-nil : (m : Manager) (bytes : List ℕ) → copies m [] bytes ≡ []
unfolding filter_map
copies-nil m bytes = refl

-- What has been sent before, and the topic tree, do not matter.
pub lock_session_same :
    (o : Option ℕ) (m m' : Manager)
    → m.sessions ≡ m'.sessions
    → m.held ≡ m'.held
    → lock_session o m ≡ lock_session o m'
unfolding lock_session
lock_session_same none m m' sessions held = refl
lock_session_same (some ref) m m' sessions held = λ i.
    elim (find_session ref (sessions i)) as (λ _. Option MqttSession) [
      | some s ↦ some s
      | none ↦ find_held ref (held i)
    ]

pub receiver_after :
    (m : Manager) (l : List (ℕ × List ℕ)) (tree : Node) (sub : Subscription)
    → receiver (record m { sent = l; topic_tree = tree }) sub ≡ receiver m sub
unfolding receiver
receiver_after m l tree sub =
    ap
      (λ (f : Option ℕ → Option MqttSession). elim (lock_client sub.session m) as (λ _. Option ℕ) [
        | none ↦ none
        | some cs ↦ if cs.connected then ref_of (f cs.session) else none
      ])
      (fun_ext (λ o. lock_session_same o (record m { sent = l; topic_tree = tree }) m refl refl))

pub copies_after :
    (m : Manager) (l : List (ℕ × List ℕ)) (tree : Node) (subs : List Subscription) (bytes : List ℕ)
    → copies (record m { sent = l; topic_tree = tree }) subs bytes ≡ copies m subs bytes
copies_after m l tree subs bytes =
    ap (λ f. map (λ r. (r, bytes)) (filter_map f subs)) (fun_ext (receiver_after m l tree))

push_if_sent :
    (o : Option MqttSession) (bytes : List ℕ) (m : Manager)
    → push_if o bytes m ≡ record m { sent = m.sent ++ copy_to (ref_of o) bytes }
push_if_sent none bytes m = ap (λ s. record m { sent = s }) (sym (append-nil m.sent))
push_if_sent (some s) bytes m = refl

-- The least of 0 and the subscription's QoS is 0, so the packet stays what it is.
zero_qos_stays :
    (packet : Packet) (qos : ℕ)
    → packet.header.qos ≡ 0
    → set_qos packet (min_qos packet.header.qos qos) ≡ packet
zero_qos_stays packet qos zero =
    let least : min_qos packet.header.qos qos ≡ packet.header.qos = ground (arith, zero) in
    ap (set_qos packet) least

nothing_sent :
    (packet : Packet) (bytes : List ℕ) (m : Manager) (o : Option ℕ)
    → o ≡ none
    → ◌≡◌ {A = Outcome (Manager × Packet)}
        (done (m, packet))
        (done (record m { sent = m.sent ++ copy_to o bytes }, packet))
nothing_sent packet bytes m o e =
    ap (λ s. done (record m { sent = s }, packet))
      (sym (append-nil m.sent) ∙ ap (λ o. m.sent ++ copy_to o bytes) (sym e))

pub receiver_gone :
    (m : Manager) (sub : Subscription) → lock_client sub.session m ≡ none → receiver m sub ≡ none
unfolding receiver
receiver_gone m sub gone = rw (receiver, gone) refl

pub receiver_up :
    (m : Manager) (sub : Subscription) (cs : ClientSession)
    → lock_client sub.session m ≡ some cs
    → cs.connected ≡ true
    → receiver m sub ≡ ref_of (lock_session cs.session m)
unfolding receiver
receiver_up m sub cs there up = rw (receiver, there, up) refl

pub receiver_down :
    (m : Manager) (sub : Subscription) (cs : ClientSession)
    → lock_client sub.session m ≡ some cs
    → cs.connected ≡ false
    → receiver m sub ≡ none
unfolding receiver
receiver_down m sub cs there down = rw (receiver, there, down) refl

module _ (c : Core) (host : Host) where
  pub route_publish :
      (pkt : Packet) (p : Publish) (m : Manager)
      → pkt.header.kind ≡ Kind.publish
      → pkt.pkt ≡ publish p
      → route_packet c host pkt none m
        ≡ deliver_all c host
            (TopicTree.match p.topic m.topic_tree).1
            (record m { topic_tree = (TopicTree.match p.topic m.topic_tree).0 }, pkt)
  unfolding route_packet
  route_publish pkt p m kind body =
      let is_publish : nat_beq pkt.header.kind Kind.publish ≡ true = ground (arith, kind) in
      rw (is_publish) (
        ap
          (λ b. get_publish b >>= λ q.
            deliver_all c host (TopicTree.match q.topic m.topic_tree).1
              (record m { topic_tree = (TopicTree.match q.topic m.topic_tree).0 }, pkt))
          body)

  send_to_client_zero :
      (cs : ClientSession) (packet : Packet) (bytes : List ℕ) (m : Manager)
      → packet.header.kind ≡ Kind.publish
      → packet.header.qos ≡ 0
      → build_publish c packet 0 [] ≡ done bytes
      → send_to_client c host cs packet m
        ≡ done (record m { sent = m.sent ++ copy_to (ref_of (lock_session cs.session m)) bytes })
  unfolding send_to_client number_packet
  send_to_client_zero cs packet bytes m kind zero built =
      let is_publish : nat_beq packet.header.kind Kind.publish ≡ true = ground (arith, kind) in
      let unnumbered : ltb 0 packet.header.qos ≡ false = ground (arith, zero) in
      rw (is_publish, unnumbered, built)
        (ap done (push_if_sent (lock_session cs.session m) bytes m))

  deliver_up :
      (sub : Subscription) (cs : ClientSession) (packet : Packet) (bytes : List ℕ) (m : Manager)
      → lock_client sub.session m ≡ some cs
      → cs.connected ≡ true
      → packet.header.kind ≡ Kind.publish
      → packet.header.qos ≡ 0
      → build_publish c packet 0 [] ≡ done bytes
      → deliver c host sub (m, packet)
        ≡ done (
          record m { sent = m.sent ++ copy_to (ref_of (lock_session cs.session m)) bytes },
          packet,
        )
  deliver_up sub cs packet bytes m there up kind zero built =
      deliver_step c host sub cs m packet there up
      ∙ ap (λ p. send_to_client c host cs p m >>= λ m'. done (m', p))
          (zero_qos_stays packet sub.qos zero)
      ∙ ap (λ r. r >>= λ m'. done (m', packet))
          (send_to_client_zero cs packet bytes m kind zero built)

  deliver_down :
      (sub : Subscription) (packet : Packet) (m : Manager)
      → packet.header.qos ≡ 0
      → (cs : ClientSession) → lock_client sub.session m ≡ some cs
      → cs.connected ≡ false
      → deliver c host sub (m, packet) ≡ done (m, packet)
  unfolding deliver
  deliver_down sub packet m zero cs there down = ground arith

  deliver_gone :
      (sub : Subscription) (packet : Packet) (m : Manager)
      → lock_client sub.session m ≡ none
      → deliver c host sub (m, packet) ≡ done (m, packet)
  unfolding deliver
  deliver_gone sub packet m gone = ground arith

  deliver_zero :
      (sub : Subscription) (packet : Packet) (bytes : List ℕ) (m : Manager)
      → packet.header.kind ≡ Kind.publish
      → packet.header.qos ≡ 0
      → build_publish c packet 0 [] ≡ done bytes
      → deliver c host sub (m, packet)
        ≡ done (record m { sent = m.sent ++ copy_to (receiver m sub) bytes }, packet)
  deliver_zero sub packet bytes m kind zero built =
      elim (none-or-some (lock_client sub.session m)) [
        | inl gone ↦
            deliver_gone sub packet m gone
            ∙ nothing_sent packet bytes m (receiver m sub) (receiver_gone m sub gone)
        | inr (cs, there) ↦ elim (Bool-cases cs.connected) [
          | inl up ↦
              deliver_up sub cs packet bytes m there up kind zero built
              ∙ ap (λ o. done (record m { sent = m.sent ++ copy_to o bytes }, packet))
                  (sym (receiver_up m sub cs there up))
          | inr down ↦
              deliver_down sub packet m zero cs there down
              ∙ nothing_sent packet bytes m (receiver m sub) (receiver_down m sub cs there down)
        ]
      ]

  -- Delivering a PUBLISH packet of QoS 0 sends one copy of the same bytes to the connection of each
  -- subscriber that is connected, in the order of the subscriptions, and changes nothing else.
  pub deliver_all_zero :
      (subs : List Subscription) (packet : Packet) (bytes : List ℕ) (m : Manager)
      → packet.header.kind ≡ Kind.publish
      → packet.header.qos ≡ 0
      → build_publish c packet 0 [] ≡ done bytes
      → deliver_all c host subs (m, packet)
        ≡ done (record m { sent = m.sent ++ copies m subs bytes }, packet)
  unfolding deliver_all
  deliver_all_zero [] packet bytes m kind zero built =
      nothing_sent packet bytes m none refl
      ∙ ap (λ l. done (record m { sent = m.sent ++ l }, packet)) (sym (copies-nil m bytes))
  deliver_all_zero (sub ∷ subs) packet bytes m kind zero built =
      let m₁ : Manager = record m { sent = m.sent ++ copy_to (receiver m sub) bytes } in
      ap (λ r. r >>= deliver_all c host subs) (deliver_zero sub packet bytes m kind zero built)
      ∙ deliver_all_zero subs packet bytes m₁ kind zero built
      ∙ ap (λ l. done (record m { sent = m₁.sent ++ l }, packet))
          (copies_after m m₁.sent m.topic_tree subs bytes)
      ∙ ap (λ l. done (record m { sent = l }, packet))
          (append_assoc m.sent (copy_to (receiver m sub) bytes) (copies m subs bytes)
            ∙ ap (λ l. m.sent ++ l) (sym (copies-cons m sub subs bytes)))

  -- The order in which the subscriptions are found, which is that of an `unordered_map`, does not
  -- matter for a PUBLISH packet of QoS 0: with the same subscriptions in another order the same is sent
  -- up to its order, and nothing else differs.
  pub deliver_all-Perm :
      (subs subs' : List Subscription) (packet : Packet) (bytes : List ℕ) (m : Manager)
      → Perm subs subs'
      → packet.header.kind ≡ Kind.publish
      → packet.header.qos ≡ 0
      → build_publish c packet 0 [] ≡ done bytes
      → (l l' : List (ℕ × List ℕ)) × (deliver_all c host subs (m, packet)
          ≡ done (record m { sent = m.sent ++ l }, packet))
        × (deliver_all c host subs' (m, packet) ≡ done (record m { sent = m.sent ++ l' }, packet))
        × Perm l l'
  deliver_all-Perm subs subs' packet bytes m same kind zero built = (
    copies m subs bytes,
    copies m subs' bytes,
    deliver_all_zero subs packet bytes m kind zero built,
    deliver_all_zero subs' packet bytes m kind zero built,
    Perm.map (λ r. (r, bytes)) (Perm.filter_map (receiver m) same),
  )
