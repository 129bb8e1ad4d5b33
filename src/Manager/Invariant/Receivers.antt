-- ===== src/Manager/Invariant/Receivers.antt =====
-- What the steps of `routePacket` of mqtt/src/managesession.cpp change of whom a packet is sent to.
use culex_mqtt_broker.Common.{
  ℕ, ◌≡◌, refl, sym, ap, ◌∙◌, List, [], ◌∷◌, ◌++◌, Option, none, some, inl, inr, Bool-cases,
  none-or-some, nat_beq, nat_beq_iff, if◌then◌else◌, Outcome, done, ◌>>=◌, insert, nat_eq, arith,
}
use mathlib.Core.Path.{fun_ext, ap₂}
use mathlib.Core.List.{append_assoc, append-nil}
use culex_mqtt_broker.Packets.{Packet, Publish}
use culex_mqtt_broker.TopicTree.{Node, Subscription}
use culex_mqtt_broker.ClientSession.{ClientSession, allocate_packet_id, store_message}
use culex_mqtt_broker.Manager.{
  Manager, MqttSession, RetransmitEntry, lock_client, lock_session, write_client,
}
use culex_mqtt_broker.Manager.Routing.{push_if}
use culex_mqtt_broker.Manager.Routing.Delivery.{ref_of, copy_to, lock_session_same}
use culex_mqtt_broker.Manager.Invariant.{IsValid}
use culex_mqtt_broker.Manager.Invariant.Registry.{Has, find_ref-Has}
use culex_mqtt_broker.Manager.Invariant.Lookup.{find_ref-replace_ref, one_object, written}

-- The connection of a subscriber, if the client is connected, and none within if the connection is gone.
unfoldable pub route : Manager → Subscription → Option (Option ℕ)
route m sub = elim (lock_client sub.session m) [
  | none ↦ none
  | some cs ↦ if cs.connected then some (ref_of (lock_session cs.session m)) else none
]

pub route_gone :
    (m : Manager) (sub : Subscription) → lock_client sub.session m ≡ none → route m sub ≡ none
unfolding route
route_gone m sub gone = rw (route, gone) refl

pub route_there :
    (m : Manager) (sub : Subscription) (cs : ClientSession)
    → lock_client sub.session m ≡ some cs
    → route m sub ≡ (if cs.connected then some (ref_of (lock_session cs.session m)) else none)
unfolding route
route_there m sub cs there = rw (route, there) refl

same_route :
    (m m' : Manager) (cs cs' : ClientSession) (sub : Subscription)
    → lock_client sub.session m ≡ some cs
    → lock_client sub.session m' ≡ some cs'
    → (cs'.connected ≡ cs.connected) × (cs'.session ≡ cs.session)
    → ((o : Option ℕ) → lock_session o m' ≡ lock_session o m)
    → route m' sub ≡ route m sub
same_route m m' cs cs' sub there there' alike line =
    route_there m' sub cs' there'
    ∙ ap₂ (λ b (r : Option ℕ). if b then some r else none) alike.0
        (ap ref_of (ap (λ o. lock_session o m') alike.1 ∙ line cs.session))
    ∙ sym (route_there m sub cs there)

-- A write that leaves the client connected as it was does not change who is sent a packet.
pub route-write_client :
    (m : Manager) (cs cs' : ClientSession) (sub : Subscription)
    → IsValid m
    → Has cs m.registry
    → cs'.ref ≡ cs.ref
    → (cs'.connected ≡ cs.connected) × (cs'.session ≡ cs.session)
    → route (write_client cs' m) sub ≡ route m sub
route-write_client m cs cs' sub v there same alike =
    let m' = write_client cs' m in
    let after = find_ref-replace_ref sub.session cs' m.registry in
    let line = λ (o : Option ℕ). lock_session_same o m' m refl refl in
    elim (none-or-some (lock_client sub.session m)) [
      | inl gone ↦ route_gone m' sub (after ∙ ap (written cs') gone) ∙ sym (route_gone m sub gone)
      | inr (old, found) ↦ elim (Bool-cases (nat_beq old.ref cs'.ref)) [
        | inl hit ↦
            let is_cs : old ≡ cs =
              one_object m old cs v (find_ref-Has sub.session old m.registry found) there
                ((nat_beq_iff old.ref cs'.ref).0 hit ∙ same) in
            same_route m m' cs cs' sub (found ∙ ap some is_cs)
              (after ∙ ap (written cs') found ∙ rw (hit) refl) alike line
        | inr other ↦
            same_route m m' old old sub found (after ∙ ap (written cs') found ∙ rw (other) refl)
              (refl, refl) line
      ]
    ]

pub route-heap :
    (m : Manager) (l : List (ℕ × List ℕ)) (h : List RetransmitEntry) (sub : Subscription)
    → route (record m { sent = l; retransmit_heap = h }) sub ≡ route m sub
unfolding route
route-heap m l h sub =
    ap
      (λ (f : Option ℕ → Option MqttSession).
        elim (lock_client sub.session m) as (λ _. Option (Option ℕ)) [
          | none ↦ none
          | some cs ↦ if cs.connected then some (ref_of (f cs.session)) else none
        ])
      (fun_ext (λ o. lock_session_same o (record m { sent = l; retransmit_heap = h }) m refl refl))

pub route_after :
    (m : Manager) (l : List (ℕ × List ℕ)) (tree : Node) (sub : Subscription)
    → route (record m { sent = l; topic_tree = tree }) sub ≡ route m sub
unfolding route
route_after m l tree sub =
    ap
      (λ (f : Option ℕ → Option MqttSession).
        elim (lock_client sub.session m) as (λ _. Option (Option ℕ)) [
          | none ↦ none
          | some cs ↦ if cs.connected then some (ref_of (f cs.session)) else none
        ])
      (fun_ext (λ o. lock_session_same o (record m { sent = l; topic_tree = tree }) m refl refl))

-- Nothing or one entry is sent, and the connections stay the same.
abbrev pub IsAlike : Manager → Manager → Type 0
IsAlike m m' = (sub : Subscription) → route m' sub ≡ route m sub

pub record IsSent (m m' : Manager) (l : List (ℕ × List ℕ)) : Type 0 where
  pub sent : m'.sent ≡ m.sent ++ l
  pub alike : IsAlike m m'

pub after_done {ℓ κ} :
    {A : Type ℓ} {B : Type κ} (o : Outcome A) (a : A) (g : A → B)
    → o ≡ done a
    → (o >>= λ q. done (g q)) ≡ done (g a)
after_done o a g e = ap (λ r. r >>= λ q. done (g q)) e

-- Whatever is written into the client's session, the connections stay the same.
pub record IsNumbered (m m' : Manager) : Type 0 where
  pub unsent : m'.sent ≡ m.sent
  pub alike : IsAlike m m'
  pub lines : (o : Option ℕ) → lock_session o m' ≡ lock_session o m

pub allocated_alike :
    (cs : ClientSession)
    → ((allocate_packet_id cs).0.ref ≡ cs.ref)
      × ((allocate_packet_id cs).0.connected ≡ cs.connected)
      × ((allocate_packet_id cs).0.session ≡ cs.session)
unfolding allocate_packet_id
allocated_alike cs = ground arith

-- What `number_packet` makes of the client's session.
abbrev pub stored_in : ClientSession → Packet → Publish → ClientSession
stored_in cs packet p =
    let numbered = (allocate_packet_id cs).0 in
    record numbered { inflight = insert p.packet_id packet numbered.inflight }

pushed :
    (o : Option MqttSession) (bytes : List ℕ) (m : Manager)
    → IsSent m (push_if o bytes m) (copy_to (ref_of o) bytes)
pushed none bytes m = record { sent = sym (append-nil m.sent); alike = λ sub. refl }
pushed (some s) bytes m = record {
  sent = refl;
  alike = λ sub. route-heap m (m.sent ++ (s.ref, bytes) ∷ []) m.retransmit_heap sub;
}

pub pushed-IsSent :
    (m m₁ : Manager) (o : Option ℕ) (bytes : List ℕ)
    → IsNumbered m m₁
    → IsSent m (push_if (lock_session o m₁) bytes m₁) (copy_to (ref_of (lock_session o m)) bytes)
pushed-IsSent m m₁ o bytes n =
    let s = pushed (lock_session o m₁) bytes m₁ in
    record {
      sent = s.sent ∙ ap₂ (λ l r. l ++ r) n.unsent (ap (λ x. copy_to (ref_of x) bytes) (n.lines o));
      alike = λ sub. s.alike sub ∙ n.alike sub;
    }

pub unchanged : (m : Manager) → IsSent m m []
unchanged m = record { sent = sym (append-nil m.sent); alike = λ sub. refl }

pub queued-IsSent :
    (m : Manager) (cs : ClientSession) (packet : Packet)
    → IsValid m
    → Has cs m.registry
    → IsSent m (write_client (store_message packet cs) m) []
unfolding store_message
queued-IsSent m cs packet v there = record {
  sent = sym (append-nil m.sent);
  alike = λ sub. route-write_client m cs (store_message packet cs) sub v there refl (refl, refl);
}

pub IsSent-trans :
    {a b d : Manager} {l r : List (ℕ × List ℕ)} → IsSent a b l → IsSent b d r → IsSent a d (l ++ r)
IsSent-trans {a} {l = l} {r = r} h k = record {
  sent = k.sent ∙ ap (λ x. x ++ r) h.sent ∙ append_assoc a.sent l r;
  alike = λ sub. k.alike sub ∙ h.alike sub;
}
