-- ===== src/Session/Preservation.antt =====
-- `parseData` of mqtt/src/mqttsession.cpp keeps the invariant of the manager, whatever the bytes are.
use culex_mqtt_broker.Common.{
  ℕ, ◌≡◌, refl, List, [], ◌∷◌, Option, none, some, nat_beq, if-cases, All, get_elem?-All, done,
  ◌>>=◌, >>=-eq-done, done-injective, length, get_elem?, if◌then◌else◌, arith,
}
use mathlib.Core.Path.{subst}
use culex_mqtt_broker.Core.{Core}
use culex_mqtt_broker.Packets.{
  Packet, ReturnCode, mqtt_ok, mqtt_err, partial_packet, connection_accepted,
  unacceptable_protocol_version, default_packet,
}
use culex_mqtt_broker.Build.{Host}
use culex_mqtt_broker.Unpack.{unpack}
use culex_mqtt_broker.Manager.{
  Manager, MqttSession, named, name_sessions, set_client_id, push_data, force_disconnect,
  remove_from_registry,
}
use culex_mqtt_broker.Manager.Invariant.{SessionValid, IsValid}
use culex_mqtt_broker.Manager.Invariant.Kept.{
  Kept, Kept-refl, Kept-trans, push_data-Kept, force_disconnect-Kept, remove_from_registry-Kept,
}
use culex_mqtt_broker.Handlers.{Handled, present}
use culex_mqtt_broker.Handlers.Preservation.{
  publish_handler-Keeps, subscribe_handler-Keeps, puback_handler-Keeps, pubrec_handler-Keeps,
  pubrel_handler-Keeps, pubcomp_handler-Keeps, unsubscribe_handler-Keeps, pingreq_handler-Keeps,
  disconnect_handler-Keeps,
}
use culex_mqtt_broker.Handlers.Reconnecting.{connect_handler-IsValid}
use culex_mqtt_broker.Session.{
  Handler, Parsed, answer, get_connect, handlers, call_handler, parsed, parse_data,
}

named-SessionValid :
    (next_ref ref : ℕ) (client_id : List ℕ) (fd : ℕ) (s : MqttSession)
    → SessionValid next_ref (fd, s)
    → SessionValid next_ref (fd, named ref client_id s)
named-SessionValid next_ref ref client_id fd s h =
    if-cases (λ (x : MqttSession). SessionValid next_ref (fd, x)) (nat_beq s.ref ref) _ _
      (λ same. h) (λ other. h)

name_sessions-All :
    (next_ref ref : ℕ) (client_id : List ℕ) (l : List (ℕ × MqttSession))
    → All (SessionValid next_ref) l
    → All (SessionValid next_ref) (name_sessions ref client_id l)
unfolding name_sessions
name_sessions-All next_ref ref client_id [] h = tt
name_sessions-All next_ref ref client_id ((fd, s) ∷ l) h = (
  named-SessionValid next_ref ref client_id fd s h.0,
  name_sessions-All next_ref ref client_id l h.1,
)

pub set_client_id-Kept :
    (ref : ℕ) (client_id : List ℕ) (m : Manager) → Kept m (set_client_id ref client_id m)
unfolding set_client_id
set_client_id-Kept ref client_id m = record {
  valid = λ v. record {
    clients = v.clients;
    expiries = v.expiries;
    retries = v.retries;
    connections = name_sessions-All m.next_ref ref client_id m.sessions v.connections;
  };
  grows = omega arith;
  fits = λ cs made f. f;
}

-- A null entry of the table is not called, and the handlers in it keep the invariant.
abbrev HandlerValid : Option Handler → Type 0
HandlerValid none = Unit {0}
HandlerValid (some handle) =
    (pkt : Packet) (buff : List ℕ) (m : Manager) (self : MqttSession) (h : Handled)
    → handle pkt buff m self ≡ done h
    → IsValid m
    → IsValid h.2

answer-IsValid :
    (self : MqttSession) (pkt : Packet) (recv : List ℕ) (h : Handled) (r : Parsed)
    → answer self pkt recv h ≡ done r
    → IsValid h.2
    → IsValid r.2
unfolding answer
answer-IsValid self pkt recv (connection_accepted, bytes, m) r e v =
    let (cn, got, e₁) = >>=-eq-done (get_connect pkt.pkt) _ e in
    let named_manager = set_client_id self.ref cn.client_id m in
    let kept =
      Kept-trans (set_client_id-Kept self.ref cn.client_id m)
        (push_data-Kept (record self { client_id = cn.client_id }) bytes named_manager) in
    subst (λ (x : Parsed). IsValid x.2) (done-injective _ _ e₁) (kept.valid v)
answer-IsValid self pkt recv (unacceptable_protocol_version, bytes, m) r e v =
    let kept =
      Kept-trans (push_data-Kept self bytes m)
        (force_disconnect-Kept self (push_data self bytes m)) in
    subst (λ (x : Parsed). IsValid x.2) (done-injective _ _ e) (kept.valid v)
answer-IsValid self pkt recv (mqtt_ok, bytes, m) r e v =
    subst (λ (x : Parsed). IsValid x.2) (done-injective _ _ e) v
answer-IsValid self pkt recv (mqtt_err, bytes, m) r e v =
    subst (λ (x : Parsed). IsValid x.2) (done-injective _ _ e) v
answer-IsValid self pkt recv (partial_packet, bytes, m) r e v =
    subst (λ (x : Parsed). IsValid x.2) (done-injective _ _ e) v

module _ (c : Core) (host : Host) where
  handlers-valid : All HandlerValid (handlers c host)
  unfolding handlers
  handlers-valid = (
    tt,
    (
      (λ pkt buff m self h e. connect_handler-IsValid c host pkt buff m self h e),
      (
        tt,
        (
          (λ pkt buff m self h e. (publish_handler-Keeps c host pkt buff m self h e).valid),
          (
            (λ pkt buff m self h e. (puback_handler-Keeps c host pkt buff m self h e).valid),
            (
              (λ pkt buff m self h e. (pubrec_handler-Keeps c host pkt buff m self h e).valid),
              (
                (λ pkt buff m self h e. (pubrel_handler-Keeps c host pkt buff m self h e).valid),
                (
                  (λ pkt buff m self h e. (pubcomp_handler-Keeps c host pkt buff m self h e).valid),
                  (
                    (λ pkt buff m self h e.
                        (subscribe_handler-Keeps c host pkt buff m self h e).valid),
                    (
                      tt,
                      (
                        (λ pkt buff m self h e.
                            (unsubscribe_handler-Keeps c host pkt buff m self h e).valid),
                        (
                          tt,
                          (
                            (λ pkt buff m self h e.
                                (pingreq_handler-Keeps c host pkt buff m self h e).valid),
                            (
                              tt,
                              (
                                (λ pkt buff m self h e.
                                    (disconnect_handler-Keeps c host pkt buff m self h e).valid),
                                tt,
                              ),
                            ),
                          ),
                        ),
                      ),
                    ),
                  ),
                ),
              ),
            ),
          ),
        ),
      ),
    ),
  )

  call_handler-IsValid :
      (o : Option (Option Handler)) (pkt : Packet) (m : Manager) (self : MqttSession) (h : Handled)
      → ((f : Option Handler) → o ≡ some f → HandlerValid f)
      → call_handler c host o pkt m self ≡ done h
      → IsValid m
      → IsValid h.2
  call_handler-IsValid none pkt m self h ok e v = cc
  call_handler-IsValid (some none) pkt m self h ok e v =
      subst (λ (x : Handled). IsValid x.2) (done-injective _ _ e) v
  call_handler-IsValid (some (some handle)) pkt m self h ok e v =
      ok (some handle) refl pkt [] m self h e v

  -- A malformed packet: the client leaves the registry if its session is clean, and the connection
  -- goes.
  refused-IsValid :
      (recv : List ℕ) (m : Manager) (self : MqttSession) (r : Parsed)
      → (present self.client_id m >>= λ cs. done (
        self,
        recv,
        force_disconnect self
            (if cs.cleansession then remove_from_registry self.client_id m else m),
      ))
        ≡ done r
      → IsValid m
      → IsValid r.2
  refused-IsValid recv m self r e v =
      let (cs, there, e₁) = >>=-eq-done (present self.client_id m) _ e in
      let cleaned =
        if-cases (Kept m) cs.cleansession _ _ (λ clean. remove_from_registry-Kept self.client_id m)
          (λ lasting. Kept-refl m) in
      subst (λ (x : Parsed). IsValid x.2) (done-injective _ _ e₁)
        ((Kept-trans cleaned (force_disconnect-Kept self _)).valid v)

  parsed-IsValid :
      (code : ReturnCode) (pkt : Packet) (recv : List ℕ) (m : Manager) (self : MqttSession)
      (r : Parsed)
      → parsed c host code pkt recv m self ≡ done r
      → IsValid m
      → IsValid r.2
  unfolding parsed
  parsed-IsValid mqtt_ok pkt recv m self r e v =
      let (h, called, e₁) =
        >>=-eq-done (call_handler c host (get_elem? (handlers c host) pkt.header.kind) pkt m self) _
          e in
      let found =
        λ (f : Option Handler) (at : get_elem? (handlers c host) pkt.header.kind ≡ some f).
          get_elem?-All HandlerValid (handlers c host) pkt.header.kind handlers-valid at in
      answer-IsValid self pkt (c.erase_front pkt.pkt_len recv) h r e₁ (
        call_handler-IsValid (get_elem? (handlers c host) pkt.header.kind) pkt m self h found called
          v)
  parsed-IsValid partial_packet pkt recv m self r e v =
      subst (λ (x : Parsed). IsValid x.2) (done-injective _ _ e) v
  parsed-IsValid mqtt_err pkt recv m self r e v = refused-IsValid recv m self r e v
  parsed-IsValid connection_accepted pkt recv m self r e v = refused-IsValid recv m self r e v
  parsed-IsValid unacceptable_protocol_version pkt recv m self r e v =
      refused-IsValid recv m self r e v

  -- Whatever bytes a connection has received, a run of `parseData` that returns leaves the manager
  -- with its invariant: each client stands in the registry under its own id, once, with a packet id
  -- in range, and its stored packets under their own ids, both heaps have the earliest time first,
  -- and each connection stands under its descriptor.
  pub parse_data-IsValid :
      (self : MqttSession) (recv : List ℕ) (m : Manager) (r : Parsed)
      → parse_data c host self recv m ≡ done r
      → IsValid m
      → IsValid r.2
  unfolding parse_data
  parse_data-IsValid self recv m r e v =
      let (got, read, e₁) = >>=-eq-done (unpack c default_packet recv (length recv)) _ e in
      parsed-IsValid got.0 got.1 recv m self r e₁ v
