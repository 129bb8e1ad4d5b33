-- ===== src/Manager/Invariant/Sends.antt =====
-- The packets that `routePacket` of mqtt/src/managesession.cpp is to send to a list of subscriptions.
use culex_mqtt_broker.Common.{
  ℕ, ◌≡◌, refl, sym, ap, ◌∙◌, List, [], ◌∷◌, ◌++◌, map, Option, none, some, inl, inr, Bool-cases,
  none-or-some, nat_eq,
}
use mathlib.Core.List.{filter_map}
use culex_mqtt_broker.TopicTree.{Subscription}
use culex_mqtt_broker.Manager.{Manager, lock_client, lock_session}
use culex_mqtt_broker.Manager.Routing.{min_qos}
use culex_mqtt_broker.Manager.Routing.Delivery.{
  ref_of, copy_to, receiver, receiver_gone, receiver_up, receiver_down,
}
use culex_mqtt_broker.Manager.Invariant.Receivers.{route, route_gone, route_there}

-- What is sent behind each other to the subscribers that are connected: the bytes at a QoS that goes
-- down to that of each of them, and is not raised again for the next.
unfoldable pub sends :
    (Subscription → Option (Option ℕ)) → (ℕ → List ℕ) → ℕ → List Subscription → List (ℕ × List ℕ)
sends f bytes qos [] = []
sends f bytes qos (sub ∷ subs) = elim (f sub) [
  | none ↦ sends f bytes qos subs
  | some o ↦ copy_to o (bytes (min_qos qos sub.qos)) ++ sends f bytes (min_qos qos sub.qos) subs
]

pub sends_gone :
    (f : Subscription → Option (Option ℕ)) (bytes : ℕ → List ℕ) (qos : ℕ) (sub : Subscription)
    (subs : List Subscription)
    → f sub ≡ none
    → sends f bytes qos (sub ∷ subs) ≡ sends f bytes qos subs
unfolding sends
sends_gone f bytes qos sub subs gone = rw (sends, gone) refl

pub sends_there :
    (f : Subscription → Option (Option ℕ)) (bytes : ℕ → List ℕ) (qos : ℕ) (sub : Subscription)
    (subs : List Subscription) (o : Option ℕ)
    → f sub ≡ some o
    → sends f bytes qos (sub ∷ subs)
      ≡ copy_to o (bytes (min_qos qos sub.qos)) ++ sends f bytes (min_qos qos sub.qos) subs
unfolding sends
sends_there f bytes qos sub subs o there = rw (sends, there) refl

abbrev pub joined : Option (Option ℕ) → Option ℕ
joined none = none
joined (some o) = o

pub joined-route : (m : Manager) (sub : Subscription) → joined (route m sub) ≡ receiver m sub
joined-route m sub = elim (none-or-some (lock_client sub.session m)) [
  | inl gone ↦ ap joined (route_gone m sub gone) ∙ sym (receiver_gone m sub gone)
  | inr (cs, there) ↦ elim (Bool-cases cs.connected) [
    | inl up ↦
        let here : route m sub ≡ some (ref_of (lock_session cs.session m)) =
          route_there m sub cs there ∙ rw (up) refl in
        ap joined here ∙ sym (receiver_up m sub cs there up)
    | inr down ↦
        let away : route m sub ≡ none = route_there m sub cs there ∙ rw (down) refl in
        ap joined away ∙ sym (receiver_down m sub cs there down)
  ]
]

filter_map-step :
    (g : Subscription → Option ℕ) (sub : Subscription) (subs : List Subscription) (o : Option ℕ)
    (bytes : List ℕ) (l : List (ℕ × List ℕ))
    → g sub ≡ o
    → map (λ e. e.0) l ≡ filter_map g subs
    → map (λ e. e.0) (copy_to o bytes ++ l) ≡ filter_map g (sub ∷ subs)
unfolding filter_map
filter_map-step g sub subs none bytes l e h = rw (e) h
filter_map-step g sub subs (some r) bytes l e h = rw (e) (ap (λ x. r ∷ x) h)

-- Whom the entries are for.
pub sends-receivers :
    (f : Subscription → Option (Option ℕ)) (bytes : ℕ → List ℕ) (qos : ℕ) (subs : List Subscription)
    → map (λ e. e.0) (sends f bytes qos subs) ≡ filter_map (λ sub. joined (f sub)) subs
unfolding filter_map sends
sends-receivers f bytes qos [] = refl
sends-receivers f bytes qos (sub ∷ subs) = elim (none-or-some (f sub)) [
  | inl gone ↦
      ap (map (λ e. e.0)) (sends_gone f bytes qos sub subs gone)
      ∙ filter_map-step (λ x. joined (f x)) sub subs none [] (sends f bytes qos subs)
          (ap joined gone) (sends-receivers f bytes qos subs)
  | inr (o, there) ↦
      ap (map (λ e. e.0)) (sends_there f bytes qos sub subs o there)
      ∙ filter_map-step (λ x. joined (f x)) sub subs o (bytes (min_qos qos sub.qos))
          (sends f bytes (min_qos qos sub.qos) subs) (ap joined there)
          (sends-receivers f bytes (min_qos qos sub.qos) subs)
]
