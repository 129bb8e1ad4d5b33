-- ===== src/Handlers/Preservation.antt =====
-- The handlers of mqtt/src/packethandlers.cpp, but `connectHandler`, keep the invariant of the manager.
use culex_mqtt_broker.Common.{
  ℕ, ◌≡◌, refl, ap, ◌∙◌, List, [], ◌∷◌, none, some, ltb, nat_beq, if◌then◌else◌, if-cases,
  Option-cases, Outcome, done, ◌>>=◌, >>=-eq-done, done-injective, string_eq,
}
use mathlib.Core.Path.{subst}
use culex_mqtt_broker.Core.{Core}
use culex_mqtt_broker.Packets.Kind
use culex_mqtt_broker.Packets.Kind.{PacketType}
use culex_mqtt_broker.Packets.{Packet, ReturnCode, Publish, TopicFilter}
use culex_mqtt_broker.Build.{Host, build_ack}
use culex_mqtt_broker.ClientSession.{
  ClientSession, get_packet, store_inflight_ack, remove_from_inflight,
}
use culex_mqtt_broker.Manager.{
  Manager, MqttSession, write_client, session_present, update_activity, create_subscription,
  remove_subscription,
}
use culex_mqtt_broker.Manager.Routing.{route_packet}
use culex_mqtt_broker.Manager.Invariant.Registry.{Has, find-Has}
use culex_mqtt_broker.Manager.Invariant.Clients.{
  IsUpdate, plain-IsUpdate, store_inflight-IsUpdate, store_inflight_ack-IsUpdate,
  remove_from_inflight-IsUpdate, remove_from_inflight_ack-IsUpdate,
}
use culex_mqtt_broker.Manager.Invariant.Kept.{
  Kept, Kept-refl, Kept-trans, write_client-Kept, push_data-Kept, update_activity-Kept,
  create_subscription-Kept, remove_subscription-Kept,
}
use culex_mqtt_broker.Manager.Invariant.Routing.{route_packet-Routed}
use culex_mqtt_broker.Handlers.Bodies.{publish-cases, subscribe-cases, ack-cases}
use culex_mqtt_broker.Handlers.{
  Handled, present, keep_inflight, publish_received, publish_handler, subscribe_all,
  subscribe_handler, puback_handler, pubrec_handler, release, pubrel_handler, pubcomp_handler,
  get_unsubscribe, unsubscribe_all, unsubscribe_handler, pingreq_handler, disconnect_handler,
}

-- A handler that returns has kept the invariant.
abbrev pub Keeps : Manager → Outcome Handled → Type 0
Keeps m r = (h : Handled) → r ≡ done h → Kept m h.2

pub done-Keeps : (m : Manager) (h : Handled) → Kept m h.2 → Keeps m (done h)
done-Keeps m h k h' e = subst (λ (x : Handled). Kept m x.2) (done-injective _ _ e) k

pub >>=-Keeps {ℓ} :
    {A : Type ℓ} (m : Manager) (r : Outcome A) (f : A → Outcome Handled)
    → ((a : A) → r ≡ done a → Keeps m (f a))
    → Keeps m (r >>= f)
>>=-Keeps m r f k h e = let (a, got, rest) = >>=-eq-done r f e in k a got h rest

Keeps-after : (m m₁ : Manager) (r : Outcome Handled) → Kept m m₁ → Keeps m₁ r → Keeps m r
Keeps-after m m₁ r first k h e = Kept-trans first (k h e)

pub present-Has :
    (k : List ℕ) (m : Manager) (cs : ClientSession) → present k m ≡ done cs → Has cs m.registry
unfolding session_present
present-Has k m cs e =
    Option-cases (λ r. r ≡ done cs → Has cs m.registry) (session_present k m) _ _ (λ unknown e. cc)
      (λ old there e. find-Has k cs m.registry (there ∙ ap some (done-injective old cs e))) e

module _ (c : Core) (host : Host) where
  keep_inflight-IsUpdate :
      (pkt : Packet) (p : Publish) (cs cs' : ClientSession)
      → keep_inflight c host pkt p cs ≡ done cs'
      → IsUpdate cs cs'
  unfolding keep_inflight
  keep_inflight-IsUpdate pkt p cs cs' e =
      if-cases (λ r. r ≡ done cs' → IsUpdate cs cs')
        (nat_beq (get_packet p.packet_id Kind.publish cs).pkt_len 0) _ _
        (λ new e. store_inflight-IsUpdate pkt cs cs' e)
        (λ old e.
          subst (IsUpdate cs) (done-injective cs cs' e) (plain-IsUpdate refl refl refl refl refl))
        e

  publish_received-Keeps :
      (pkt : Packet) (p : Publish) (buff : List ℕ) (m : Manager) (self : MqttSession)
      → Keeps m (publish_received c host pkt p buff m self)
  unfolding publish_received
  publish_received-Keeps pkt p buff m self =
      if-cases (Keeps m) (nat_beq pkt.header.qos 0) _ _
        (λ zero_qos.
          >>=-Keeps m (route_packet c host pkt none m) _
            (λ r routed. done-Keeps m _ (route_packet-Routed c host pkt m r routed).kept))
        (λ more.
          if-cases (Keeps m) (nat_beq pkt.header.qos 1) _ _
            (λ one_qos. >>=-Keeps m (route_packet c host pkt none m) _ (λ r routed. done-Keeps m _ (
              Kept-trans (route_packet-Routed c host pkt m r routed).kept
                (push_data-Kept self _ r.0))))
            (λ two_qos. >>=-Keeps m (present self.client_id m) _ (λ cs there.
              >>=-Keeps m (keep_inflight c host pkt p cs) _ (λ cs' put. done-Keeps m _ (
                Kept-trans
                  (write_client-Kept m cs cs' (present-Has self.client_id m cs there)
                    (keep_inflight-IsUpdate pkt p cs cs' put))
                  (push_data-Kept self _ (write_client cs' m)))))))

  pub publish_handler-Keeps :
      (pkt : Packet) (buff : List ℕ) (m : Manager) (self : MqttSession)
      → Keeps m (publish_handler c host pkt buff m self)
  unfolding publish_handler
  publish_handler-Keeps pkt buff m self =
      publish-cases (Keeps m) pkt.pkt _ _
        (λ p body.
          Keeps-after m (update_activity self.client_id m) _ (update_activity-Kept self.client_id m)
            (publish_received-Keeps pkt p buff (update_activity self.client_id m) self))
        (done-Keeps m _ (Kept-refl m))

  subscribe_all-Kept :
      (fs : List TopicFilter) (codes : List ℕ) (m : Manager) (self : MqttSession)
      → Kept m (subscribe_all c host fs codes m self).0
  unfolding subscribe_all
  subscribe_all-Kept [] codes m self = Kept-refl m
  subscribe_all-Kept (f ∷ fs) codes m self =
      let one : Kept m
          (if ltb f.qos 3 then create_subscription f.topic f.qos self.client_id m else m) =
        if-cases (Kept m) (ltb f.qos 3) _ _
          (λ granted. create_subscription-Kept f.topic f.qos self.client_id m)
          (λ refused. Kept-refl m) in
      Kept-trans one (
        subscribe_all-Kept fs _
          (if ltb f.qos 3 then create_subscription f.topic f.qos self.client_id m else m) self)

  unsubscribe_all-Kept :
      (ts : List (List ℕ)) (m : Manager) (self : MqttSession)
      → Kept m (unsubscribe_all c host ts m self)
  unfolding unsubscribe_all
  unsubscribe_all-Kept [] m self = Kept-refl m
  unsubscribe_all-Kept (t ∷ ts) m self =
      Kept-trans (remove_subscription-Kept t self.client_id m)
        (unsubscribe_all-Kept ts (remove_subscription t self.client_id m) self)

  pub subscribe_handler-Keeps :
      (pkt : Packet) (buff : List ℕ) (m : Manager) (self : MqttSession)
      → Keeps m (subscribe_handler c host pkt buff m self)
  unfolding subscribe_handler
  subscribe_handler-Keeps pkt buff m self =
      subscribe-cases (Keeps m) pkt.pkt _ _
        (λ s body.
          let active = update_activity self.client_id m in
          let all = subscribe_all c host s.payload [] active self in
          done-Keeps m _ (
            Kept-trans (update_activity-Kept self.client_id m) (
              Kept-trans (subscribe_all-Kept s.payload [] active self)
                (push_data-Kept self _ all.0))))
        (done-Keeps m _ (Kept-refl m))

  -- What a handler of acknowledgements starts with.
  with_session-Keeps :
      (m : Manager) (k : List ℕ) (f : ClientSession → Outcome Handled)
      → ((cs : ClientSession)
          → Has cs (update_activity k m).registry
          → Keeps (update_activity k m) (f cs))
      → Keeps m (present k (update_activity k m) >>= f)
  with_session-Keeps m k f h = Keeps-after m (update_activity k m) _ (update_activity-Kept k m) (
      >>=-Keeps (update_activity k m) (present k (update_activity k m)) f
        (λ cs there. h cs (present-Has k (update_activity k m) cs there)))

  pub puback_handler-Keeps :
      (pkt : Packet) (buff : List ℕ) (m : Manager) (self : MqttSession)
      → Keeps m (puback_handler c host pkt buff m self)
  unfolding puback_handler
  puback_handler-Keeps pkt buff m self =
      ack-cases (Keeps m) pkt.pkt _ _
        (λ a body. with_session-Keeps m self.client_id _ (λ cs has.
          done-Keeps (update_activity self.client_id m) _ (
            write_client-Kept (update_activity self.client_id m) cs _ has
              (remove_from_inflight-IsUpdate a.packet_id cs))))
        (done-Keeps m _ (Kept-refl m))

  pub pubcomp_handler-Keeps :
      (pkt : Packet) (buff : List ℕ) (m : Manager) (self : MqttSession)
      → Keeps m (pubcomp_handler c host pkt buff m self)
  unfolding pubcomp_handler
  pubcomp_handler-Keeps pkt buff m self =
      ack-cases (Keeps m) pkt.pkt _ _
        (λ a body. with_session-Keeps m self.client_id _ (λ cs has.
          done-Keeps (update_activity self.client_id m) _ (
            write_client-Kept (update_activity self.client_id m) cs _ has
              (remove_from_inflight_ack-IsUpdate a.packet_id cs))))
        (done-Keeps m _ (Kept-refl m))

  pub pubrec_handler-Keeps :
      (pkt : Packet) (buff : List ℕ) (m : Manager) (self : MqttSession)
      → Keeps m (pubrec_handler c host pkt buff m self)
  unfolding pubrec_handler
  pubrec_handler-Keeps pkt buff m self =
      ack-cases (Keeps m) pkt.pkt _ _
        (λ a body. with_session-Keeps m self.client_id _ (λ cs has.
          let active = update_activity self.client_id m in
          let built = build_ack host a.packet_id Kind.pubrel buff in
          >>=-Keeps active (store_inflight_ack built.0 cs) _ (λ cs' put. done-Keeps active _ (
            Kept-trans
              (write_client-Kept active cs cs' has (store_inflight_ack-IsUpdate built.0 cs cs' put))
              (push_data-Kept self built.1 (write_client cs' active))))))
        (done-Keeps m _ (Kept-refl m))

  release-Kept :
      (pkt : Packet) (m : Manager) (r : ReturnCode × Manager)
      → release c host pkt m ≡ done r
      → Kept m r.1
  unfolding release
  release-Kept pkt m r e =
      if-cases (λ x. x ≡ done r → Kept m r.1) (nat_beq pkt.header.kind Kind.publish) _ _
        (λ publishes e.
          let (s, routed, e₁) = >>=-eq-done (route_packet c host pkt none m) _ e in
          subst (λ (x : ReturnCode × Manager). Kept m x.1) (done-injective _ _ e₁)
            (route_packet-Routed c host pkt m s routed).kept)
        (λ missing e.
          subst (λ (x : ReturnCode × Manager). Kept m x.1) (done-injective _ _ e) (Kept-refl m))
        e

  pub pubrel_handler-Keeps :
      (pkt : Packet) (buff : List ℕ) (m : Manager) (self : MqttSession)
      → Keeps m (pubrel_handler c host pkt buff m self)
  unfolding pubrel_handler
  pubrel_handler-Keeps pkt buff m self =
      ack-cases (Keeps m) pkt.pkt _ _
        (λ a body. with_session-Keeps m self.client_id _ (λ cs has.
          let active = update_activity self.client_id m in
          let taken = remove_from_inflight a.packet_id cs in
          >>=-Keeps active (release c host taken.1 (write_client taken.0 active)) _ (λ r released.
            done-Keeps active _ (
              Kept-trans
                (Kept-trans
                  (write_client-Kept active cs taken.0 has
                    (remove_from_inflight-IsUpdate a.packet_id cs))
                  (release-Kept taken.1 (write_client taken.0 active) r released))
                (push_data-Kept self _ r.1)))))
        (done-Keeps m _ (Kept-refl m))

  pub unsubscribe_handler-Keeps :
      (pkt : Packet) (buff : List ℕ) (m : Manager) (self : MqttSession)
      → Keeps m (unsubscribe_handler c host pkt buff m self)
  unfolding unsubscribe_handler
  unsubscribe_handler-Keeps pkt buff m self =
      ack-cases (Keeps m) pkt.pkt _ _
        (λ a body.
          let active = update_activity self.client_id m in
          >>=-Keeps m (get_unsubscribe c host pkt.pkt) _ (λ u got. done-Keeps m _ (
            Kept-trans (update_activity-Kept self.client_id m) (
              Kept-trans (unsubscribe_all-Kept u.topics active self)
                (push_data-Kept self _ (unsubscribe_all c host u.topics active self))))))
        (done-Keeps m _ (Kept-refl m))

  pub pingreq_handler-Keeps :
      (pkt : Packet) (buff : List ℕ) (m : Manager) (self : MqttSession)
      → Keeps m (pingreq_handler c host pkt buff m self)
  unfolding pingreq_handler
  pingreq_handler-Keeps pkt buff m self = done-Keeps m _ (
      Kept-trans (update_activity-Kept self.client_id m)
        (push_data-Kept self _ (update_activity self.client_id m)))

  pub disconnect_handler-Keeps :
      (pkt : Packet) (buff : List ℕ) (m : Manager) (self : MqttSession)
      → Keeps m (disconnect_handler c host pkt buff m self)
  unfolding disconnect_handler
  disconnect_handler-Keeps pkt buff m self = done-Keeps m _ (Kept-refl m)
