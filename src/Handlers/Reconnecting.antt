-- ===== src/Handlers/Reconnecting.antt =====
-- `connectHandler` of mqtt/src/packethandlers.cpp keeps the invariant of the manager.
use culex_mqtt_broker.Common.{
  ℕ, ◌+◌, ◌≡◌, ◌≢◌, refl, sym, ap, ◌∙◌, true, false, List, [], ◌∷◌, some, nat_beq, if-cases,
  Option-cases, All-map, done, >>=-eq-done, done-injective, string_eq, find, assign-All, arith,
}
use mathlib.Core.Path.{subst}
use culex_mqtt_broker.Core.{Core}
use culex_mqtt_broker.Packets.Kind
use culex_mqtt_broker.Packets.{Packet, Connect}
use culex_mqtt_broker.Build.{Host, build_publish}
use culex_mqtt_broker.ClientSession.{ClientSession, new_client_session}
use culex_mqtt_broker.Manager.{
  Manager, MqttSession, write_client, lock_session, push_data, force_disconnect, session_present,
  remove_from_registry, add_to_registry,
}
use culex_mqtt_broker.Manager.Routing.{as_duplicate}
use culex_mqtt_broker.Manager.Invariant.{ClientValid, SessionValid, IsValid}
use culex_mqtt_broker.Manager.Invariant.Registry.{
  Has, find-Has, find-client_id, IsUnknown, RegistryValid-mono, RegistryValid-IsUnknown,
  replace_ref-IsUnknown, replace_ref-Has, assign-RegistryValid,
}
use culex_mqtt_broker.Manager.Invariant.Clients.{IsUpdate, plain-IsUpdate}
use culex_mqtt_broker.Manager.Invariant.Kept.{
  Kept, Kept-refl, Kept-trans, Writable, write_ready-Kept, write_client-Kept,
  remove_from_registry-Kept, push_data-Kept, force_disconnect-Kept, schedule_expiry-Kept,
}
use culex_mqtt_broker.Handlers.{Handled}
use culex_mqtt_broker.Handlers.Bodies.{connect-cases}
use culex_mqtt_broker.Handlers.Connecting.{
  Chosen, fresh_session, resume, take_over, choose_session, set_fields, register, finish_connect,
  resend_messages, resend_all, connect_handler,
}

-- A step that keeps the registry too.
record Stays (m m' : Manager) : Type 0 where
  kept : Kept m m'
  registry : m.registry ≡ m'.registry

Stays-refl : (m : Manager) → Stays m m
Stays-refl m = record { kept = Kept-refl m; registry = refl }

Stays-trans : {a b c : Manager} → Stays a b → Stays b c → Stays a c
Stays-trans h k = record { kept = Kept-trans h.kept k.kept; registry = h.registry ∙ k.registry }

push_data-Stays : (s : MqttSession) (bytes : List ℕ) (m : Manager) → Stays m (push_data s bytes m)
push_data-Stays s bytes m = record { kept = push_data-Kept s bytes m; registry = refl }

force_disconnect-Stays : (s : MqttSession) (m : Manager) → Stays m (force_disconnect s m)
unfolding force_disconnect
force_disconnect-Stays s m = record { kept = force_disconnect-Kept s m; registry = refl }

next_ref-Kept : (m : Manager) → Kept m (record m { next_ref = m.next_ref + 1 })
next_ref-Kept m = record {
  valid = λ v. record {
    clients = RegistryValid-mono m.next_ref (m.next_ref + 1) m.registry (omega arith) v.clients;
    expiries = v.expiries;
    retries = v.retries;
    connections =
        All-map _ _ m.sessions
          (λ (e : ℕ × MqttSession) (h : SessionValid m.next_ref e). (h.0, omega (arith, h.1)))
          v.connections;
  };
  grows = omega arith;
  fits = λ cs made f. f;
}

-- A new object under its id.
add_to_registry-IsValid :
    (m : Manager) (cs : ClientSession)
    → ClientValid m.next_ref cs
    → IsUnknown cs.ref m.registry
    → IsValid m
    → IsValid (add_to_registry cs m) × Writable (add_to_registry cs m) cs
unfolding add_to_registry
add_to_registry-IsValid m cs ok new v = (
  record {
    clients = assign-RegistryValid m.next_ref cs m.registry ok new v.clients;
    expiries = v.expiries;
    retries = v.retries;
    connections = v.connections;
  },
  record {
    valid = ok;
    fits =
        assign-All _ cs.client_id cs m.registry (λ e. refl)
          (All-map _ _ m.registry
            (λ (x : List ℕ × ClientSession) (h : x.1.ref ≢ cs.ref) e. absurd (h e)) new);
  },
)

fresh_client :
    (cn : Connect) (m : Manager)
    → ClientValid (m.next_ref + 1) (set_fields cn (new_client_session m.next_ref))
unfolding set_fields
fresh_client cn m = record {
  numbered = omega arith;
  made = omega arith;
  stored = tt;
  acknowledged = tt;
}

set_fields-IsUpdate :
    (cn : Connect) (cs : ClientSession)
    → cs.client_id ≡ cn.client_id
    → IsUpdate cs (set_fields cn cs)
unfolding set_fields
set_fields-IsUpdate cn cs e = plain-IsUpdate refl e refl refl refl

-- A new client is registered.
register-IsValid :
    (cs : ClientSession) (m : Manager) (self : MqttSession)
    → ClientValid m.next_ref cs
    → IsUnknown cs.ref m.registry
    → IsValid m
    → IsValid (register cs m self)
unfolding register
register-IsValid cs m self ok new v =
    let attached : ClientSession = record cs {
      connected = true;
      session = some self.ref;
      last_activity = m.now;
    } in
    let u : IsUpdate cs attached = plain-IsUpdate refl refl refl refl refl in
    let (added, ready) = add_to_registry-IsValid m attached (u.keeps m.next_ref ok) new v in
    (schedule_expiry-Kept attached (add_to_registry attached m)
        (unfold add_to_registry in ready)).valid
      added

-- A connection of a new client.
fresh-IsValid :
    (host : Host) (cn : Connect) (m : Manager) (buff : List ℕ) (self : MqttSession)
    → IsValid m
    → IsValid (finish_connect host cn (fresh_session m) buff self).2
unfolding finish_connect fresh_session register
fresh-IsValid host cn m buff self v =
    let cs = set_fields cn (new_client_session m.next_ref) in
    let next : Manager = record m { next_ref = m.next_ref + 1 } in
    let unknown = RegistryValid-IsUnknown m.next_ref m.registry v.clients in
    let same_ref : cs.ref ≡ m.next_ref = unfold set_fields in refl in
    let ready : Writable next cs = record {
      valid = fresh_client cn m;
      fits =
          All-map _ _ m.registry
            (λ (x : List ℕ × ClientSession) (h : x.1.ref ≢ m.next_ref) e. absurd (h (e ∙ same_ref)))
            unknown;
    } in
    let written = Kept-trans (next_ref-Kept m) (write_ready-Kept next cs ready) in
    if-cases IsValid (nat_beq cn.level 4) _ _
      (λ good.
        register-IsValid cs (write_client cs next) self (fresh_client cn m)
          (subst (λ r. IsUnknown r (write_client cs next).registry) (sym same_ref)
            (replace_ref-IsUnknown m.next_ref cs m.registry unknown))
          (written.valid v))
      (λ bad. written.valid v)

resumed-IsValid :
    (host : Host) (cn : Connect) (m : Manager) (chosen : Chosen) (buff : List ℕ)
    (self : MqttSession)
    → chosen.add_to_registry ≡ false
    → Kept m chosen.manager
    → Has chosen.client chosen.manager.registry
    → chosen.client.client_id ≡ cn.client_id
    → IsValid m
    → IsValid (finish_connect host cn chosen buff self).2
unfolding finish_connect
resumed-IsValid host cn m chosen buff self old kept found same v =
    let written = Kept-trans kept (
      write_client-Kept chosen.manager chosen.client (set_fields cn chosen.client) found
        (set_fields-IsUpdate cn chosen.client same)) in
    if-cases IsValid (nat_beq cn.level 4) _ _
      (λ good. if-cases IsValid chosen.add_to_registry _ _ (λ new. cc) (λ resumed. written.valid v))
      (λ bad. written.valid v)

disconnected-Kept :
    (cs : ClientSession) (m m₁ : Manager)
    → Stays m m₁
    → Has cs m.registry
    → Kept m (write_client (record cs { connected = false }) m₁)
      × Has
          (record cs { connected = false })
          (write_client (record cs { connected = false }) m₁).registry
      × (cs.client_id ≡ cs.client_id)
disconnected-Kept cs m m₁ cut there =
    let cs' : ClientSession = record cs { connected = false } in
    let still = subst (Has cs) cut.registry there in
    (
      Kept-trans cut.kept
          (write_client-Kept m₁ cs cs' still (plain-IsUpdate refl refl refl refl refl)),
      replace_ref-Has cs cs' m₁.registry still refl,
      refl,
    )

take_over-Kept :
    (cs : ClientSession) (m : Manager)
    → Has cs m.registry
    → Kept m (take_over cs m).1
      × Has (take_over cs m).0 (take_over cs m).1.registry
      × ((take_over cs m).0.client_id ≡ cs.client_id)
unfolding take_over
take_over-Kept cs m there =
    if-cases
      (λ (r : ClientSession × Manager).
        Kept m r.1 × Has r.0 r.1.registry × (r.0.client_id ≡ cs.client_id))
      cs.connected _ _
      (λ up.
        let cs' : ClientSession = record cs { connected = false } in
        Option-cases
          (λ m₁.
            Kept m (write_client cs' m₁)
            × Has cs' (write_client cs' m₁).registry
            × (cs'.client_id ≡ cs.client_id))
          (lock_session cs.session m) _ _ (λ gone. disconnected-Kept cs m m (Stays-refl m) there)
          (λ line open_line.
            disconnected-Kept cs m (force_disconnect line m) (force_disconnect-Stays line m) there))
      (λ down. (Kept-refl m, there, refl))

module _ (c : Core) (host : Host) where
  resend_messages-Stays :
      (packet : Packet) (packet_id : ℕ) (s : MqttSession) (m m' : Manager)
      → resend_messages c host packet packet_id s m ≡ done m'
      → Stays m m'
  unfolding resend_messages
  resend_messages-Stays packet packet_id s m m' e =
      if-cases (λ x. x ≡ done m' → Stays m m') (nat_beq packet.header.kind Kind.publish) _ _
        (λ publishes e.
          let (bytes, built, e₁) =
            >>=-eq-done (build_publish c (as_duplicate packet) packet_id []) _ e in
          subst (Stays m) (done-injective _ _ e₁) (push_data-Stays s bytes m))
        (λ other.
          if-cases (λ x. x ≡ done m' → Stays m m') (nat_beq packet.header.kind Kind.pubrel) _ _
            (λ releases e. subst (Stays m) (done-injective _ _ e) (push_data-Stays s _ m))
            (λ neither e. subst (Stays m) (done-injective _ _ e) (Stays-refl m)))
        e

  resend_all-Stays :
      (l : List (ℕ × Packet)) (s : MqttSession) (m m' : Manager)
      → resend_all c host l s m ≡ done m'
      → Stays m m'
  unfolding resend_all
  resend_all-Stays [] s m m' e = subst (Stays m) (done-injective _ _ e) (Stays-refl m)
  resend_all-Stays ((packet_id, packet) ∷ l) s m m' e =
      let (m₁, first, rest) = >>=-eq-done (resend_messages c host packet packet_id s m) _ e in
      Stays-trans (resend_messages-Stays packet packet_id s m m₁ first)
        (resend_all-Stays l s m₁ m' rest)

  resume-Stays :
      (cs : ClientSession) (m : Manager) (chosen : Chosen)
      → resume c host cs m ≡ done chosen
      → Stays m chosen.manager × (chosen.client ≡ cs) × (chosen.add_to_registry ≡ false)
  unfolding resume
  resume-Stays cs m chosen e =
      let (m', resent, e₁) = >>=-eq-done _ _ e in
      let stays : Stays m m' =
        Option-cases (λ x. x ≡ done m' → Stays m m') (lock_session cs.session m) _ _
          (λ gone e. subst (Stays m) (done-injective _ _ e) (Stays-refl m))
          (λ old there e.
            let (m₁, first, rest) = >>=-eq-done (resend_all c host cs.inflight old m) _ e in
            Stays-trans (resend_all-Stays cs.inflight old m m₁ first)
              (resend_all-Stays cs.inflight_ack old m₁ m' rest))
          resent in
      subst (λ (x : Chosen). Stays m x.manager × (x.client ≡ cs) × (x.add_to_registry ≡ false))
        (done-injective _ _ e₁) (stays, refl, refl)

  finished-IsValid :
      (cn : Connect) (m : Manager) (chosen : Chosen) (buff : List ℕ) (self : MqttSession)
      → choose_session c host cn m ≡ done chosen
      → IsValid m
      → IsValid (finish_connect host cn chosen buff self).2
  unfolding choose_session session_present
  finished-IsValid cn m chosen buff self e v =
      let Goal = λ (x : Chosen). IsValid (finish_connect host cn x buff self).2 in
      Option-cases (λ x. x ≡ done chosen → Goal chosen) (find cn.client_id m.registry) _ _
        (λ unknown e. subst Goal (done-injective _ _ e) (fresh-IsValid host cn m buff self v))
        (λ cs there.
          let m₁ = (take_over cs m).1 in
          let (kept, has, same) = take_over-Kept cs m (find-Has cn.client_id cs m.registry there) in
          if-cases (λ x. x ≡ done chosen → Goal chosen) cn.cf.cleansession _ _
            (λ clean e. subst Goal (done-injective _ _ e) (
              fresh-IsValid host cn (remove_from_registry cn.client_id m₁) buff self
                ((Kept-trans kept (remove_from_registry-Kept cn.client_id m₁)).valid v)))
            (λ again e.
              let (stays, is_old, old) = resume-Stays (take_over cs m).0 m₁ chosen e in
              resumed-IsValid host cn m chosen buff self old (Kept-trans kept stays.kept)
                (subst (λ x. Has x chosen.manager.registry) (sym is_old)
                  (subst (Has (take_over cs m).0) stays.registry has))
                (ap (λ (x : ClientSession). x.client_id) is_old
                  ∙ same
                  ∙ find-client_id m.next_ref cn.client_id cs m.registry v.clients there)
                v))
        e

  -- `connectHandler` keeps the invariant.
  pub connect_handler-IsValid :
      (pkt : Packet) (buff : List ℕ) (m : Manager) (self : MqttSession) (h : Handled)
      → connect_handler c host pkt buff m self ≡ done h
      → IsValid m
      → IsValid h.2
  unfolding connect_handler
  connect_handler-IsValid pkt buff m self h e v =
      connect-cases (λ r. r ≡ done h → IsValid h.2) pkt.pkt _ _
        (λ cn body e.
          let (chosen, chose, e₁) = >>=-eq-done (choose_session c host cn m) _ e in
          subst (λ (x : Handled). IsValid x.2) (done-injective _ _ e₁)
            (finished-IsValid cn m chosen buff self chose v))
        (λ e. subst (λ (x : Handled). IsValid x.2) (done-injective _ _ e) v) e
