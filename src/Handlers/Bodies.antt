-- ===== src/Handlers/Bodies.antt =====
-- What holds of a handler that tests for one kind of packet with `std::holds_alternative`.
use culex_mqtt_broker.Common.{◌≡◌, refl}
use culex_mqtt_broker.Packets.{
  Body, Ack, Connect, Publish, Subscribe, connack, ack, connect, publish, subscribe, unsubscribe,
}

pub publish-cases {ℓ κ} :
    {A : Type ℓ} (P : A → Type κ) (b : Body) (f : Publish → A) (r : A)
    → ((x : Publish) → b ≡ publish x → P (f x))
    → P r
    → P (elim b [ publish x ↦ f x | _ ↦ r ])
publish-cases P (connack x) f r h k = k
publish-cases P (ack x) f r h k = k
publish-cases P (connect x) f r h k = k
publish-cases P (publish x) f r h k = h x refl
publish-cases P (subscribe x) f r h k = k
publish-cases P (unsubscribe x) f r h k = k

pub subscribe-cases {ℓ κ} :
    {A : Type ℓ} (P : A → Type κ) (b : Body) (f : Subscribe → A) (r : A)
    → ((x : Subscribe) → b ≡ subscribe x → P (f x))
    → P r
    → P (elim b [ subscribe x ↦ f x | _ ↦ r ])
subscribe-cases P (connack x) f r h k = k
subscribe-cases P (ack x) f r h k = k
subscribe-cases P (connect x) f r h k = k
subscribe-cases P (publish x) f r h k = k
subscribe-cases P (subscribe x) f r h k = h x refl
subscribe-cases P (unsubscribe x) f r h k = k

pub ack-cases {ℓ κ} :
    {A : Type ℓ} (P : A → Type κ) (b : Body) (f : Ack → A) (r : A)
    → ((x : Ack) → b ≡ ack x → P (f x))
    → P r
    → P (elim b [ ack x ↦ f x | _ ↦ r ])
ack-cases P (connack x) f r h k = k
ack-cases P (ack x) f r h k = h x refl
ack-cases P (connect x) f r h k = k
ack-cases P (publish x) f r h k = k
ack-cases P (subscribe x) f r h k = k
ack-cases P (unsubscribe x) f r h k = k

pub connect-cases {ℓ κ} :
    {A : Type ℓ} (P : A → Type κ) (b : Body) (f : Connect → A) (r : A)
    → ((x : Connect) → b ≡ connect x → P (f x))
    → P r
    → P (elim b [ connect x ↦ f x | _ ↦ r ])
connect-cases P (connack x) f r h k = k
connect-cases P (ack x) f r h k = k
connect-cases P (connect x) f r h k = h x refl
connect-cases P (publish x) f r h k = k
connect-cases P (subscribe x) f r h k = k
connect-cases P (unsubscribe x) f r h k = k
