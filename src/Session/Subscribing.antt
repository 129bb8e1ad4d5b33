-- ===== src/Session/Subscribing.antt =====
-- A SUBSCRIBE packet from the bytes that have come to the topic tree: `parseData` of
-- mqtt/src/mqttsession.cpp with `unpack` and `subscribeHandler`.
use culex_mqtt_broker.Common.{
  ℕ, ◌+◌, ◌*◌, ◌^◌, ◌≤◌, ◌<◌, ◌≡◌, refl, ap, ◌∙◌, Bool, true, false, List, [], ◌∷◌, ◌++◌, map, some,
  ltb, if◌then◌else◌, Outcome, done, ◌>>=◌, All, get_elem?, length, length-append, arith,
}
use culex_mqtt_broker.Core.{Core, Reads, Writes}
use culex_mqtt_broker.Packets.{
  Packet, TopicFilter, Subscribe, subscribe, mqtt_ok, mqtt_err, default_packet,
}
use culex_mqtt_broker.Packets.Flags.{Header}
use culex_mqtt_broker.Build.{Host, build_suback}
use culex_mqtt_broker.Build.Subacks.{suback_bytes, build_suback_bytes}
use culex_mqtt_broker.Unpack.Wire.{filters_bytes, subscribe_bytes, frame_bytes}
use culex_mqtt_broker.Unpack.Wire.Subscribing.{FilterFits, unpack-subscribe}
use culex_mqtt_broker.TopicTree
use culex_mqtt_broker.TopicTree.{Node}
use culex_mqtt_broker.ClientSession.{ClientSession}
use culex_mqtt_broker.Manager.{
  Manager, MqttSession, session_present, update_activity, push_data, create_subscription,
}
use culex_mqtt_broker.Handlers.{Handled, subscribe_all, subscribe_handler}
use culex_mqtt_broker.Handlers.Acknowledging.{code_of, subscribe_all_codes}
use culex_mqtt_broker.Handlers.Sessions.{active_session}
use culex_mqtt_broker.Session.{parsed, parse_data, handlers}
use culex_mqtt_broker.Session.Publishing.{parsed_ok}

-- The tree after the subscriptions that are granted, in order.
unfoldable pub subscribe_each : ClientSession → List TopicFilter → Node → Node
subscribe_each cs [] tree = tree
subscribe_each cs (f ∷ fs) tree =
    subscribe_each cs fs
      (if ltb f.qos 3 then TopicTree.subscribe f.topic cs.client_id cs.ref f.qos tree else tree)

create_subscription_found :
    (topic : List ℕ) (qos : ℕ) (k : List ℕ) (m : Manager) (cs : ClientSession)
    → session_present k m ≡ some cs
    → create_subscription topic qos k m
      ≡ record m { topic_tree = TopicTree.subscribe topic cs.client_id cs.ref qos m.topic_tree }
unfolding create_subscription
create_subscription_found topic qos k m cs there = rw (create_subscription, there) refl

grant_one :
    (b : Bool) (f : TopicFilter) (k : List ℕ) (m : Manager) (cs : ClientSession)
    → session_present k m ≡ some cs
    → (if b then create_subscription f.topic f.qos k m else m) ≡ record m {
      topic_tree =
          if b
          then TopicTree.subscribe f.topic cs.client_id cs.ref f.qos m.topic_tree
          else m.topic_tree;
    }
grant_one true f k m cs there = create_subscription_found f.topic f.qos k m cs there
grant_one false f k m cs there = refl

length-map {ℓ κ} : {A : Type ℓ} {B : Type κ} (f : A → B) (l : List A) → length (map f l) ≡ length l
length-map f [] = refl
length-map f (x ∷ l) = omega (arith, length-map f l)

length-filters_bytes : (fs : List TopicFilter) → length fs ≤ length (filters_bytes fs)
unfolding filters_bytes
length-filters_bytes [] = omega arith
length-filters_bytes (f ∷ fs) =
    omega (arith, length-filters_bytes fs, length-append f.topic (f.qos ∷ filters_bytes fs))

-- The manager after a SUBSCRIBE of a client that is in the registry.
abbrev pub subscribed : ClientSession → Subscribe → Manager → MqttSession → Manager
subscribed cs s m self =
    let active = update_activity self.client_id m in
    record active {
      topic_tree = subscribe_each cs s.payload active.topic_tree;
      sent = active.sent ++ (self.ref, suback_bytes s.packet_id (map code_of s.payload)) ∷ [];
    }

module _ (c : Core) (host : Host) where
  subscribe_all_tree :
      (fs : List TopicFilter) (codes : List ℕ) (m : Manager) (self : MqttSession)
      (cs : ClientSession)
      → session_present self.client_id m ≡ some cs
      → (subscribe_all c host fs codes m self).0
        ≡ record m { topic_tree = subscribe_each cs fs m.topic_tree }
  unfolding subscribe_all subscribe_each
  subscribe_all_tree [] codes m self cs there = refl
  subscribe_all_tree (f ∷ fs) codes m self cs there =
      let tree =
        if ltb f.qos 3
        then TopicTree.subscribe f.topic cs.client_id cs.ref f.qos m.topic_tree
        else m.topic_tree in
      let rest = λ (x : Manager).
        (subscribe_all c host fs (codes ++ (if ltb f.qos 3 then f.qos else 0x80) ∷ []) x self).0 in
      ap rest (grant_one (ltb f.qos 3) f self.client_id m cs there)
      ∙ subscribe_all_tree fs _ (record m { topic_tree = tree }) self cs
          (unfold session_present in there)

  subscribe_handler_found :
      (pkt : Packet) (s : Subscribe) (m : Manager) (self : MqttSession) (cs : ClientSession)
      → Writes c
      → pkt.pkt ≡ subscribe s
      → session_present self.client_id m ≡ some cs
      → s.packet_id < 256 * 256
      → 2 + length s.payload < 2 ^ 31
      → subscribe_handler c host pkt [] m self
        ≡ done (mqtt_ok, suback_bytes s.packet_id (map code_of s.payload), subscribed cs s m self)
  unfolding subscribe_handler subscribe_each
  subscribe_handler_found pkt s m self cs writes body there hp small =
      let active = update_activity self.client_id m in
      let reply : Subscribe → Outcome Handled = λ s.
        let done_all = subscribe_all c host s.payload [] active self in
        let bytes = build_suback c s.packet_id done_all.1 [] in
        done (mqtt_ok, bytes, push_data self bytes done_all.0) in
      ap
        (λ b. elim b as (λ _. Outcome Handled) [
          | subscribe s ↦ reply s
          | _ ↦ done (mqtt_err, [], m)
        ])
        body
      ∙ rw
          (
            subscribe_all_codes c host s.payload [] active self,
            build_suback_bytes c s.packet_id (map code_of s.payload) [] writes hp
                (omega (arith, small, length-map code_of s.payload)),
            subscribe_all_tree s.payload [] active self (record cs { last_activity = m.now })
                (active_session self.client_id cs m there),
          )
          refl

module _ (c : Core) (host : Host) (reads : Reads c) (writes : Writes c) where
  -- A SUBSCRIBE packet that a connection sends whole, with topics and a packet id in their ranges,
  -- from a client that is in the registry: the packet is taken from the receive buffer, each filter
  -- with a QoS below 3 is subscribed to in order, a SUBACK with one code for each filter is sent, and
  -- nothing else of the manager changes but the client's time of activity.
  pub parse_data_subscribe :
      (self : MqttSession) (h : Header) (s : Subscribe) (rest : List ℕ) (m : Manager)
      (cs : ClientSession)
      → h.kind ≡ 8
      → h.qos < 4
      → s.packet_id < 256 * 256
      → All FilterFits s.payload
      → length (subscribe_bytes s) < 128 ^ 3
      → session_present self.client_id m ≡ some cs
      → parse_data c host self (frame_bytes h (subscribe_bytes s) ++ rest) m
        ≡ done (
          self,
          c.erase_front
              (length (frame_bytes h (subscribe_bytes s)))
              (frame_bytes h (subscribe_bytes s) ++ rest),
          subscribed cs s m self,
        )
  unfolding parse_data
  parse_data_subscribe self h s rest m cs hk hq hp fit small there =
      let bytes = frame_bytes h (subscribe_bytes s) in
      let pkt : Packet = record { header = h; pkt_len = length bytes; pkt = subscribe s } in
      let read =
        unpack-subscribe c reads default_packet h s rest (length (bytes ++ rest)) hk hq hp fit small
          (omega (arith, length-append bytes rest)) in
      ap (λ r. r >>= λ u. parsed c host u.0 u.1 (bytes ++ rest) m self) read
      ∙ parsed_ok c host self pkt (bytes ++ rest) (suback_bytes s.packet_id (map code_of s.payload))
          m (subscribed cs s m self) (subscribe_handler c host)
          (ap (get_elem? (handlers c host)) hk ∙ (unfold handlers in refl))
          (subscribe_handler_found c host pkt s m self cs writes refl there hp
            (omega (arith, small, length-filters_bytes s.payload)))
