-- ===== src/Session/Exchange.antt =====
-- Two connections in turn: one subscribes, the other publishes.
use culex_mqtt_broker.Common.{
  ℕ, ◌*◌, ◌^◌, ◌<◌, ◌≡◌, refl, sym, ap, ◌∙◌, Bool, true, false, List, [], ◌∷◌, ◌++◌, map, Option,
  some, ltb, if-cases, string_eq, none-or-some, inl, inr, Eq, ◌==◌, done, assign, length,
  length-append, arith,
}
use mathlib.Core.Path.{ap₂}
use mathlib.Core.List.{Memᴰ, filter_map}
use mathlib.Core.List.Memᴰ
use culex_mqtt_broker.Core.{Core, Reads, Writes}
use culex_mqtt_broker.Packets.{Subscribe, Publish}
use culex_mqtt_broker.Packets.Flags.{Header}
use culex_mqtt_broker.Build.{Host}
use culex_mqtt_broker.Build.Subacks.{suback_bytes}
use culex_mqtt_broker.Unpack.Wire.{
  IsShort, publish_bytes, subscribe_bytes, frame_bytes, filters_bytes,
}
use culex_mqtt_broker.TopicTree.{Subscription, split, subscribers_at}
use culex_mqtt_broker.TopicTree.Filters.{path_beq_refl}
use culex_mqtt_broker.TopicTree.Refinement.{IsPlain, subscribers_at-subscribe}
use culex_mqtt_broker.ClientSession.{ClientSession}
use culex_mqtt_broker.Manager.{Manager, MqttSession, lock_session, session_present, update_activity}
use culex_mqtt_broker.Handlers.Sessions.{update_activity_found}
use culex_mqtt_broker.Handlers.Acknowledging.{code_of, update_activity_unknown}
use culex_mqtt_broker.Manager.Invariant.{IsValid}
use culex_mqtt_broker.Manager.Invariant.Registry.{find-Has}
use culex_mqtt_broker.Manager.Invariant.Lookup.{Has-find_ref, copies-update_activity}
use culex_mqtt_broker.Manager.Routing.Delivery.{receiver, copies, copies_after, receiver_up, ref_of}
use culex_mqtt_broker.Session.{parse_data}
use culex_mqtt_broker.Session.Preservation.{parse_data-IsValid}
use culex_mqtt_broker.Session.Publishing.{zero_header, zero_bytes, relayed, parse_data_publish}
use culex_mqtt_broker.Session.Subscribing.{subscribed, subscribe_each, parse_data_subscribe}

-- A SUBSCRIBE packet with one filter; its flags are those that the standard asks for.
abbrev pub subscribe_header : Header
subscribe_header = record { kind = 8; dup = false; qos = 1; retain = false }

abbrev pub one_filter : ℕ → List ℕ → ℕ → Subscribe
one_filter packet_id topic qos = record {
  packet_id = packet_id;
  payload = record { topic = topic; qos = qos } ∷ [];
}

-- The subscriptions at a topic once the client has subscribed to it.
abbrev pub now_subscribed : ClientSession → List ℕ → ℕ → Manager → List Subscription
now_subscribed cs topic qos m =
    map (λ s. s.1)
      (assign cs.client_id (record { session = cs.ref; qos = qos })
        (subscribers_at (split topic) m.topic_tree))

assign_mem {ℓ κ} :
    {K : Type ℓ} {V : Type κ} ⦃e : Eq K⦄ (k : K) (v : V) (l : List (K × V))
    → Memᴰ v (map (λ x. x.1) (assign k v l))
unfolding assign
assign_mem k v [] = Memᴰ.head refl
assign_mem k v ((j, w) ∷ l) =
    if-cases (λ (x : List _). Memᴰ v (map (λ y. y.1) x)) (j == k) _ _ (λ same. Memᴰ.head refl)
      (λ other. Memᴰ.tail (assign_mem k v l))

filter_map_mem {ℓ κ} :
    {A : Type ℓ} {B : Type κ} (f : A → Option B) (a : A) (b : B) (l : List A)
    → Memᴰ a l
    → f a ≡ some b
    → Memᴰ b (filter_map f l)
unfolding filter_map
filter_map_mem f a b [] m e = absurd (Memᴰ.not-nil m)
filter_map_mem f a b (x ∷ l) m e = elim (Memᴰ.cases_cons m) [
  | inl here ↦ rw (sym here, e) (Memᴰ.head refl)
  | inr later ↦ elim (none-or-some (f x)) [
    | inl skipped ↦ rw (skipped) (filter_map_mem f a b l later e)
    | inr (y, kept) ↦ rw (kept) (Memᴰ.tail (filter_map_mem f a b l later e))
  ]
]

update_activity_tree : (k : List ℕ) (m : Manager) → (update_activity k m).topic_tree ≡ m.topic_tree
update_activity_tree k m = elim (none-or-some (session_present k m)) [
  | inl gone ↦ ap (λ (x : Manager). x.topic_tree) (update_activity_unknown k m gone)
  | inr (cs, there) ↦ ap (λ (x : Manager). x.topic_tree) (update_activity_found k cs m there)
]

-- The subscriptions at the topic once the SUBSCRIBE packet has been dealt with.
tree_subscribed :
    (self : MqttSession) (packet_id qos : ℕ) (topic : List ℕ) (m : Manager) (cs : ClientSession)
    → qos < 3
    → IsPlain topic
    → subscribers_at
        (split topic)
        (subscribed cs (one_filter packet_id topic qos) m self).topic_tree
      ≡ assign cs.client_id
          (record { session = cs.ref; qos = qos })
          (subscribers_at (split topic) m.topic_tree)
unfolding subscribe_each
tree_subscribed self packet_id qos topic m cs small plain =
    let active = update_activity self.client_id m in
    let granted : ltb qos 3 ≡ true = ground (arith, small) in
    rw (granted) (
      subscribers_at-subscribe topic cs.client_id cs.ref qos active.topic_tree (split topic) plain
      ∙ rw (path_beq_refl (split topic)) (
          ap
            (λ t.
              assign cs.client_id (record { session = cs.ref; qos = qos })
                (subscribers_at (split topic) t))
            (update_activity_tree self.client_id m)))

-- What a publication after the subscription sends.
subscribed-copies :
    (self : MqttSession) (packet_id qos : ℕ) (topic bytes k : List ℕ) (m : Manager)
    (cs : ClientSession)
    → IsValid m
    → IsValid (subscribed cs (one_filter packet_id topic qos) m self)
    → qos < 3
    → IsPlain topic
    → let m₁ = update_activity k (subscribed cs (one_filter packet_id topic qos) m self) in
      copies m₁ (map (λ s. s.1) (subscribers_at (split topic) m₁.topic_tree)) bytes
      ≡ copies m (now_subscribed cs topic qos m) bytes
subscribed-copies self packet_id qos topic bytes k m cs v v₁ small plain =
    let m₁ = subscribed cs (one_filter packet_id topic qos) m self in
    let active = update_activity self.client_id m in
    let subs = map (λ s. s.1) (subscribers_at (split topic) (update_activity k m₁).topic_tree) in
    copies-update_activity k m₁ subs bytes v₁
    ∙ copies_after active m₁.sent m₁.topic_tree subs bytes
    ∙ copies-update_activity self.client_id m subs bytes v
    ∙ ap (λ l. copies m (map (λ s. s.1) l) bytes)
        (ap (subscribers_at (split topic)) (update_activity_tree k m₁)
          ∙ tree_subscribed self packet_id qos topic m cs small plain)

-- The new subscriber is among those that are sent a copy.
subscriber_served :
    (line : MqttSession) (topic bytes k : List ℕ) (qos : ℕ) (m : Manager) (cs : ClientSession)
    → IsValid m
    → session_present k m ≡ some cs
    → cs.connected ≡ true
    → lock_session cs.session m ≡ some line
    → Memᴰ (line.ref, bytes) (copies m (now_subscribed cs topic qos m) bytes)
subscriber_served line topic bytes k qos m cs v there up linked =
    let sub : Subscription = record { session = cs.ref; qos = qos } in
    let found =
      Has-find_ref m.next_ref cs m.registry v.clients
        (find-Has k cs m.registry (unfold session_present in there)) in
    Memᴰ.map (λ r. (r, bytes))
      (filter_map_mem (receiver m) sub line.ref (now_subscribed cs topic qos m)
        (assign_mem cs.client_id sub (subscribers_at (split topic) m.topic_tree))
        (receiver_up m sub cs found up ∙ ap ref_of linked))

update_activity_sent : (k : List ℕ) (m : Manager) → (update_activity k m).sent ≡ m.sent
update_activity_sent k m = elim (none-or-some (session_present k m)) [
  | inl gone ↦ ap (λ (x : Manager). x.sent) (update_activity_unknown k m gone)
  | inr (cs, there) ↦ ap (λ (x : Manager). x.sent) (update_activity_found k cs m there)
]

sent_subscribed :
    (self : MqttSession) (packet_id qos : ℕ) (topic : List ℕ) (m : Manager) (cs : ClientSession)
    → qos < 3
    → (subscribed cs (one_filter packet_id topic qos) m self).sent
      ≡ m.sent ++ (self.ref, suback_bytes packet_id (qos ∷ [])) ∷ []
unfolding code_of
sent_subscribed self packet_id qos topic m cs small =
    let granted : ltb qos 3 ≡ true = ground (arith, small) in
    rw (granted) (
      ap (λ l. l ++ (self.ref, suback_bytes packet_id (qos ∷ [])) ∷ [])
        (update_activity_sent self.client_id m))

module _ (c : Core) (host : Host) (reads : Reads c) (writes : Writes c) where
  -- In a valid state, when the connection of a registered client, which is connected, sends a SUBSCRIBE
  -- packet for a topic without wildcards with a QoS below 3, and then any connection sends a PUBLISH
  -- packet of QoS 0 to that topic, both packets are taken from the buffers. What is sent is first the
  -- SUBACK packet that grants the QoS, and then the bytes of the publication, once for each subscription
  -- at the topic whose client is connected; the subscribing client's connection is among them.
  pub subscribe_then_publish :
      (self other line : MqttSession) (packet_id qos : ℕ) (dup retain : Bool) (p : Publish)
      (rest rest' : List ℕ) (m : Manager) (cs : ClientSession)
      → IsValid m
      → session_present self.client_id m ≡ some cs
      → cs.connected ≡ true
      → lock_session cs.session m ≡ some line
      → packet_id < 256 * 256
      → qos < 3
      → IsShort p.topic
      → IsPlain p.topic
      → length (publish_bytes (zero_header dup retain) p) < 128 ^ 3
      → let asked =
          frame_bytes subscribe_header (subscribe_bytes (one_filter packet_id p.topic qos)) in
        let news = zero_bytes dup retain p in
        (m₁ m₂ : Manager) × (parse_data c host self (asked ++ rest) m
          ≡ done (self, c.erase_front (length asked) (asked ++ rest), m₁))
        × (parse_data c host other (news ++ rest') m₁
            ≡ done (other, c.erase_front (length news) (news ++ rest'), m₂))
        × (m₂.sent
            ≡ (m.sent ++ (self.ref, suback_bytes packet_id (qos ∷ [])) ∷ [])
              ++ copies m (now_subscribed cs p.topic qos m) news)
        × Memᴰ (line.ref, news) (copies m (now_subscribed cs p.topic qos m) news)
  subscribe_then_publish self other line packet_id qos dup retain p rest rest' m cs v there up
        linked hp small short plain fits =
      let s = one_filter packet_id p.topic qos in
      let asked = frame_bytes subscribe_header (subscribe_bytes s) in
      let news = zero_bytes dup retain p in
      let m₁ = subscribed cs s m self in
      let first =
        parse_data_subscribe c host reads writes self subscribe_header s rest m cs refl
          (omega arith) hp (short, tt)
          (unfold filters_bytes in (omega (arith, short, length-append p.topic (qos ∷ []))))
          there in
      let v₁ = parse_data-IsValid c host self (asked ++ rest) m _ first v in
      let second =
        parse_data_publish c host reads writes other dup retain p rest' m₁ short plain fits in
      (
        m₁,
        relayed p.topic news (update_activity other.client_id m₁),
        first,
        second,
        ap₂ (λ a b. a ++ b)
            (update_activity_sent other.client_id m₁
              ∙ sent_subscribed self packet_id qos p.topic m cs small)
            (subscribed-copies self packet_id qos p.topic news other.client_id m cs v v₁ small
              plain),
        subscriber_served line p.topic news self.client_id qos m cs v there up linked,
      )
