-- ===== src/Manager/Invariant/Lookup.antt =====
-- In a valid registry an object is found by its identity, and the activity of a client does not change
-- who is sent a packet.
use culex_mqtt_broker.Common.{
  ℕ, ◌≡◌, ◌≢◌, refl, sym, ap, ◌∙◌, true, false, inl, inr, List, [], ◌∷◌, Option, none, some,
  nat_beq, nat_beq_iff, Bool-cases, none-or-some, if◌then◌else◌, if-cases, All-map, map, string_eq,
  arith,
}
use mathlib.Core.Path.{subst, fun_ext}
use mathlib.Core.Option.{some-injective}
use mathlib.Core.List.{filter_map}
use culex_mqtt_broker.TopicTree.{Subscription}
use culex_mqtt_broker.ClientSession.{ClientSession}
use culex_mqtt_broker.Manager.{
  Manager, find_ref, replace_ref, lock_client, lock_session, write_client, session_present,
  update_activity,
}
use culex_mqtt_broker.Handlers.Sessions.{update_activity_found}
use culex_mqtt_broker.Handlers.Acknowledging.{update_activity_unknown}
use culex_mqtt_broker.Manager.Routing.Delivery.{
  receiver, ref_of, copies, lock_session_same, receiver_gone, receiver_up, receiver_down,
}
use culex_mqtt_broker.Manager.Invariant.{RegistryValid, IsApart, IsValid}
use culex_mqtt_broker.Manager.Invariant.Registry.{Registry, Has, Has-All, find-Has, find_ref-Has}

pub Has-find_ref :
    (next : ℕ) (cs : ClientSession) (r : Registry)
    → RegistryValid next r
    → Has cs r
    → find_ref cs.ref r ≡ some cs
unfolding find_ref
Has-find_ref next cs [] v m = elim m [ ]
Has-find_ref next cs (e ∷ r) v (inl same) =
    let here : nat_beq e.1.ref cs.ref ≡ true =
      (nat_beq_iff e.1.ref cs.ref).1 (ap (λ (x : ClientSession). x.ref) same) in
    rw (here) (ap some same)
Has-find_ref next cs (e ∷ r) v (inr later) =
    let apart : cs.ref ≢ e.1.ref =
      Has-All (λ x. x.ref ≢ e.1.ref) cs r (All-map _ _ r (λ x (h : IsApart e x). h.1) v.2) later in
    let other : nat_beq e.1.ref cs.ref ≡ false = ground (arith, apart) in
    rw (other) (Has-find_ref next cs r v.3 later)

pub find_ref_ref :
    (ref : ℕ) (cs : ClientSession) (r : Registry) → find_ref ref r ≡ some cs → cs.ref ≡ ref
unfolding find_ref
find_ref_ref ref cs [] e = cc
find_ref_ref ref cs ((j, c) ∷ r) e =
    if-cases (λ o. o ≡ some cs → cs.ref ≡ ref) (nat_beq c.ref ref) _ _
      (λ same e.
        subst (λ (x : ClientSession). x.ref ≡ ref) (some-injective c cs e)
          ((nat_beq_iff c.ref ref).0 same))
      (λ other e. find_ref_ref ref cs r e) e

-- What stands under an identity after a write.
abbrev pub written : ClientSession → Option ClientSession → Option ClientSession
written cs none = none
written cs (some old) = some (if nat_beq old.ref cs.ref then cs else old)

pub find_ref-replace_ref :
    (ref : ℕ) (cs : ClientSession) (r : Registry)
    → find_ref ref (replace_ref cs r) ≡ written cs (find_ref ref r)
unfolding find_ref replace_ref
find_ref-replace_ref ref cs [] = refl
find_ref-replace_ref ref cs ((j, old) ∷ r) = elim (Bool-cases (nat_beq old.ref ref)) [
  | inl here ↦ elim (Bool-cases (nat_beq old.ref cs.ref)) [
    | inl same ↦
        let hit : nat_beq cs.ref ref ≡ true = ground (arith, same, here) in
        rw (here, same, hit) refl
    | inr other ↦ rw (here, other, here) refl
  ]
  | inr later ↦ elim (Bool-cases (nat_beq old.ref cs.ref)) [
    | inl same ↦
        let miss : nat_beq cs.ref ref ≡ false = ground (arith, same, later) in
        rw (same, miss, later) (find_ref-replace_ref ref cs r)
    | inr other ↦ rw (other, later) (find_ref-replace_ref ref cs r)
  ]
]

pub one_object :
    (m : Manager) (a b : ClientSession)
    → IsValid m
    → Has a m.registry
    → Has b m.registry
    → a.ref ≡ b.ref
    → a ≡ b
one_object m a b v has_a has_b same = some-injective a b (
    sym (Has-find_ref m.next_ref a m.registry v.clients has_a)
    ∙ ap (λ r. find_ref r m.registry) same
    ∙ Has-find_ref m.next_ref b m.registry v.clients has_b)

-- Two objects under one identity that are connected alike, by the same connection.
pub same_receiver :
    (m m' : Manager) (cs cs' : ClientSession) (sub : Subscription)
    → lock_client sub.session m ≡ some cs
    → lock_client sub.session m' ≡ some cs'
    → (cs'.connected ≡ cs.connected) × (cs'.session ≡ cs.session)
    → ((o : Option ℕ) → lock_session o m' ≡ lock_session o m)
    → receiver m' sub ≡ receiver m sub
same_receiver m m' cs cs' sub there there' alike line = elim (Bool-cases cs.connected) [
  | inl up ↦
      receiver_up m' sub cs' there' (alike.0 ∙ up)
      ∙ ap ref_of (ap (λ o. lock_session o m') alike.1 ∙ line cs.session)
      ∙ sym (receiver_up m sub cs there up)
  | inr down ↦
      receiver_down m' sub cs' there' (alike.0 ∙ down) ∙ sym (receiver_down m sub cs there down)
]

-- The activity of a client does not change who is sent a packet.
receiver-written :
    (m : Manager) (cs : ClientSession) (now : ℕ) (sub : Subscription)
    → IsValid m
    → Has cs m.registry
    → receiver (write_client (record cs { last_activity = now }) m) sub ≡ receiver m sub
receiver-written m cs now sub v there =
    let active : ClientSession = record cs { last_activity = now } in
    let m' = write_client active m in
    let after = find_ref-replace_ref sub.session active m.registry in
    let line = λ (o : Option ℕ). lock_session_same o m' m refl refl in
    elim (none-or-some (lock_client sub.session m)) [
      | inl gone ↦
          receiver_gone m' sub (after ∙ ap (written active) gone) ∙ sym (receiver_gone m sub gone)
      | inr (old, found) ↦ elim (Bool-cases (nat_beq old.ref cs.ref)) [
        | inl same ↦
            let is_cs : old ≡ cs =
              one_object m old cs v (find_ref-Has sub.session old m.registry found) there
                ((nat_beq_iff old.ref cs.ref).0 same) in
            same_receiver m m' cs active sub (found ∙ ap some is_cs)
              (after ∙ ap (written active) found ∙ rw (same) refl) (refl, refl) line
        | inr other ↦
            same_receiver m m' old old sub found
              (after ∙ ap (written active) found ∙ rw (other) refl) (refl, refl) line
      ]
    ]

pub receiver-update_activity :
    (k : List ℕ) (m : Manager) (sub : Subscription)
    → IsValid m
    → receiver (update_activity k m) sub ≡ receiver m sub
receiver-update_activity k m sub v = elim (none-or-some (session_present k m)) [
  | inl gone ↦ rw (update_activity_unknown k m gone) refl
  | inr (cs, there) ↦ rw (update_activity_found k cs m there) (
      receiver-written m cs m.now sub v
        (find-Has k cs m.registry (unfold session_present in there)))
]

pub copies-update_activity :
    (k : List ℕ) (m : Manager) (subs : List Subscription) (bytes : List ℕ)
    → IsValid m
    → copies (update_activity k m) subs bytes ≡ copies m subs bytes
copies-update_activity k m subs bytes v =
    ap (λ f. map (λ r. (r, bytes)) (filter_map f subs))
      (fun_ext (λ sub. receiver-update_activity k m sub v))
