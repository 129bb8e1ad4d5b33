-- ===== src/Manager/Routing/Sharing.antt =====
-- What `routePacket` of mqtt/src/managesession.cpp does to the packet while it delivers it: the
-- subscribers share it.
use culex_mqtt_broker.Common.{
  ℕ, ◌≤◌, ◌≡◌, refl, sym, ap, ◌∙◌, true, false, List, [], ◌∷◌, none, some, Bool-cases, none-or-some,
  inl, inr, Outcome, done, throws, faults, stuck, ◌>>=◌, >>=-eq-done, done-injective, arith,
}
use mathlib.Core.Path.{subst}
use culex_mqtt_broker.Core.{Core}
use culex_mqtt_broker.Packets.{Packet}
use culex_mqtt_broker.Build.{Host}
use culex_mqtt_broker.TopicTree.{Subscription}
use culex_mqtt_broker.ClientSession.{ClientSession}
use culex_mqtt_broker.Manager.{Manager, lock_client}
use culex_mqtt_broker.Manager.Routing.{set_qos, min_qos, send_to_client, deliver, deliver_all}

-- The second packet is the first with a QoS that is not higher.
pub record IsLowered (packet packet' : Packet) : Type 0 where
  pub lower : packet'.header.qos ≤ packet.header.qos
  pub same : packet' ≡ set_qos packet packet'.header.qos

min_qos_le : (a b : ℕ) → (min_qos a b ≤ a) × (min_qos a b ≤ b)
min_qos_le a b = (ground arith, ground arith)

self-IsLowered : (packet packet' : Packet) → packet' ≡ packet → IsLowered packet packet'
self-IsLowered packet packet' e =
    subst (IsLowered packet) (sym e) (record { lower = omega arith; same = refl })

set_qos-IsLowered :
    (packet packet' : Packet) (q : ℕ)
    → packet' ≡ set_qos packet (min_qos packet.header.qos q)
    → IsLowered packet packet'
set_qos-IsLowered packet packet' q e =
    subst (IsLowered packet) (sym e)
      (record { lower = (min_qos_le packet.header.qos q).0; same = refl })

IsLowered-trans : (p q r : Packet) → IsLowered p q → IsLowered q r → IsLowered p r
IsLowered-trans p q r h k = record {
  lower = omega (arith, h.lower, k.lower);
  same = k.same ∙ ap (λ (x : Packet). set_qos x r.header.qos) h.same;
}

module _ (c : Core) (host : Host) where
  abbrev pub with_packet : Packet → Manager → Outcome (Manager × Packet)
  with_packet lowered m = done (m, lowered)

  sent_packet :
      (r : Outcome Manager) (m' : Manager) (lowered packet' : Packet)
      → (r >>= with_packet lowered) ≡ done (m', packet')
      → packet' ≡ lowered
  sent_packet (done m₁) m' lowered packet' e =
      ap (λ (p : Manager × Packet). p.1) (done-injective _ _ (sym e))
  sent_packet (throws x) m' lowered packet' e = cc
  sent_packet faults m' lowered packet' e = cc
  sent_packet stuck m' lowered packet' e = cc

  pub deliver_step :
      (sub : Subscription) (cs : ClientSession) (m : Manager) (packet : Packet)
      → lock_client sub.session m ≡ some cs
      → cs.connected ≡ true
      → deliver c host sub (m, packet) ≡ (
          send_to_client c host cs (set_qos packet (min_qos packet.header.qos sub.qos)) m
          >>= with_packet (set_qos packet (min_qos packet.header.qos sub.qos)))
  unfolding deliver
  deliver_step sub cs m packet there up = ground arith

  deliver_connected :
      (sub : Subscription) (cs : ClientSession) (m m' : Manager) (packet packet' : Packet)
      → lock_client sub.session m ≡ some cs
      → cs.connected ≡ true
      → deliver c host sub (m, packet) ≡ done (m', packet')
      → packet' ≡ set_qos packet (min_qos packet.header.qos sub.qos)
  deliver_connected sub cs m m' packet packet' there up e =
      sent_packet _ m' _ packet' (sym (deliver_step sub cs m packet there up) ∙ e)

  deliver_absent :
      (sub : Subscription) (m m' : Manager) (packet packet' : Packet)
      → lock_client sub.session m ≡ none
      → deliver c host sub (m, packet) ≡ done (m', packet')
      → packet' ≡ packet
  unfolding deliver
  deliver_absent sub m m' packet packet' gone e = ground arith

  deliver_away :
      (sub : Subscription) (cs : ClientSession) (m m' : Manager) (packet packet' : Packet)
      → lock_client sub.session m ≡ some cs
      → cs.connected ≡ false
      → deliver c host sub (m, packet) ≡ done (m', packet')
      → packet' ≡ packet
  unfolding deliver
  deliver_away sub cs m m' packet packet' there down e = ground arith

  deliver-IsLowered :
      (sub : Subscription) (m m' : Manager) (packet packet' : Packet)
      → deliver c host sub (m, packet) ≡ done (m', packet')
      → IsLowered packet packet'
  deliver-IsLowered sub m m' packet packet' e = elim (none-or-some (lock_client sub.session m)) [
    | inl gone ↦ self-IsLowered packet packet' (deliver_absent sub m m' packet packet' gone e)
    | inr (cs, there) ↦ elim (Bool-cases cs.connected) [
      | inl up ↦
          set_qos-IsLowered packet packet' sub.qos
            (deliver_connected sub cs m m' packet packet' there up e)
      | inr down ↦
          self-IsLowered packet packet' (deliver_away sub cs m m' packet packet' there down e)
    ]
  ]

  deliver_all-IsLowered :
      (subs : List Subscription) (m m' : Manager) (packet packet' : Packet)
      → deliver_all c host subs (m, packet) ≡ done (m', packet')
      → IsLowered packet packet'
  unfolding deliver_all
  deliver_all-IsLowered [] m m' packet packet' e =
      self-IsLowered packet packet'
        (ap (λ (p : Manager × Packet). p.1) (done-injective _ _ (sym e)))
  deliver_all-IsLowered (sub ∷ subs) m m' packet packet' e =
      let ((m₁, packet₁), first, rest) = >>=-eq-done (deliver c host sub (m, packet)) _ e in
      IsLowered-trans packet packet₁ packet' (deliver-IsLowered sub m m₁ packet packet₁ first)
        (deliver_all-IsLowered subs m₁ m' packet₁ packet' rest)

  -- Delivering a packet to a list of subscribers of which the first is connected leaves the packet as
  -- it was but for its QoS, which is then no higher than it was, and no higher than the first
  -- subscriber's, whatever the later subscribers asked for.
  pub deliver_all_connected :
      (sub : Subscription) (subs : List Subscription) (cs : ClientSession) (m m' : Manager)
      (packet packet' : Packet)
      → lock_client sub.session m ≡ some cs
      → cs.connected ≡ true
      → deliver_all c host (sub ∷ subs) (m, packet) ≡ done (m', packet')
      → (packet' ≡ set_qos packet packet'.header.qos)
        × (packet'.header.qos ≤ packet.header.qos)
        × (packet'.header.qos ≤ sub.qos)
  unfolding deliver_all
  deliver_all_connected sub subs cs m m' packet packet' there up e =
      let ((m₁, packet₁), first, rest) = >>=-eq-done (deliver c host sub (m, packet)) _ e in
      let whole = deliver_all-IsLowered (sub ∷ subs) m m' packet packet' e in
      let later = deliver_all-IsLowered subs m₁ m' packet₁ packet' rest in
      let start : packet₁.header.qos ≡ min_qos packet.header.qos sub.qos =
        ap (λ (p : Packet). p.header.qos)
          (deliver_connected sub cs m m₁ packet packet₁ there up first) in
      (
        whole.same,
        whole.lower,
        omega (arith, start, later.lower, (min_qos_le packet.header.qos sub.qos).1),
      )
