-- ===== src/Handlers/Registration.antt =====
-- What `connectHandler` of mqtt/src/packethandlers.cpp leaves in the registry.
use culex_mqtt_broker.Common.{
  ℕ, ◌+◌, ◌≡◌, refl, ap, ◌∙◌, Bool, true, false, List, [], ◌∷◌, none, some, nat_beq, if◌then◌else◌,
  done, string_eq, find, assign, find-assign, same_refl, arith,
}
use culex_mqtt_broker.Core.{Core}
use culex_mqtt_broker.Packets.{Packet, Connect, connect, connection_accepted}
use culex_mqtt_broker.Build.{Host}
use culex_mqtt_broker.ClientSession.{ClientSession, new_client_session}
use culex_mqtt_broker.Manager.{
  Manager, MqttSession, replace_ref, write_client, lock_session, session_present, add_to_registry,
}
use culex_mqtt_broker.Manager.Timers.{expiry_of, schedule_expiry}
use culex_mqtt_broker.Handlers.Connecting.{
  Chosen, fresh_session, resume, take_over, choose_session, set_fields, register, finish_connect,
  connect_handler,
}

-- A write to an object shows under every key that it is registered at.
find-replace_ref :
    (k : List ℕ) (cs old : ClientSession) (r : List (List ℕ × ClientSession))
    → find k r ≡ some old
    → old.ref ≡ cs.ref
    → find k (replace_ref cs r) ≡ some cs
unfolding find replace_ref
find-replace_ref k cs old [] h e = cc
find-replace_ref k cs old ((i, w) ∷ r) h e = ground (arith, find-replace_ref k cs old r)

-- A new session, as a CONNECT leaves it.
abbrev pub registered : Connect → Manager → MqttSession → ClientSession
registered cn m self = record (new_client_session m.next_ref) {
  client_id = cn.client_id;
  keep_alive = cn.keep_alive;
  cleansession = cn.cf.cleansession;
  connected = true;
  session = some self.ref;
  last_activity = m.now;
}

-- Its time of expiry is set unless the keep-alive is 0.
abbrev pub expiring : ClientSession → ClientSession
expiring cs = if nat_beq cs.keep_alive 0 then cs else record cs { expiry_ms = expiry_of cs }

register-session_present :
    (cs : ClientSession) (m : Manager)
    → session_present cs.client_id (schedule_expiry cs (add_to_registry cs m)) ≡ some (expiring cs)
unfolding session_present schedule_expiry add_to_registry
register-session_present cs m =
    let there : find cs.client_id (assign cs.client_id cs m.registry) ≡ some cs =
      ground (arith, find-assign cs.client_id cs.client_id cs m.registry, same_refl cs.client_id) in
    let timed = record cs { expiry_ms = expiry_of cs } in
    ground (
      arith,
      there,
      find-replace_ref cs.client_id timed cs (assign cs.client_id cs m.registry) there refl,
    )

if_true {ℓ} : {A : Type ℓ} {b : Bool} (x y : A) → b ≡ true → (if b then x else y) ≡ x
if_true {b = true} x y h = refl
if_true {b = false} x y h = cc

accept {ℓ κ μ} :
    {A : Type ℓ} {B : Type κ} {C : Type μ} (b : Bool) (x y : A) (u : B) (v w : C)
    → b ≡ true
    → ◌≡◌ {A = A × B × C} (if b then x else y, u, if b then v else w) (x, u, v)
accept true x y u v w h = refl
accept false x y u v w h = cc

finish_connect_new :
    (host : Host) (cn : Connect) (m : Manager) (buff : List ℕ) (self : MqttSession)
    → cn.level ≡ 4
    → (bytes : List ℕ) × (m₁ : Manager) × (finish_connect host cn (fresh_session m) buff self ≡ (
      connection_accepted,
      bytes,
      schedule_expiry (registered cn m self) (add_to_registry (registered cn m self) m₁),
    ))
unfolding finish_connect register fresh_session
finish_connect_new host cn m buff self level =
    let cs = set_fields cn (new_client_session m.next_ref) in
    (
      (finish_connect host cn (fresh_session m) buff self).1,
      write_client cs (record m { next_ref = m.next_ref + 1 }),
      accept (nat_beq cn.level 4) _ _ _ _ _ (ground arith),
    )

connect_handler_new :
    (c : Core) (host : Host) (pkt : Packet) (cn : Connect) (buff : List ℕ) (m : Manager)
    (self : MqttSession)
    → pkt.pkt ≡ connect cn
    → session_present cn.client_id m ≡ none
    → connect_handler c host pkt buff m self
      ≡ done (finish_connect host cn (fresh_session m) buff self)
unfolding connect_handler choose_session
connect_handler_new c host pkt cn buff m self body absent = rw (body) (ground arith)

-- A CONNECT of the protocol level 4 whose client is not in the registry is accepted. Afterwards the
-- registry holds the client's session with the packet's id, keep-alive and CleanSession, connected, and
-- attached to this connection, with the present time as its last activity, and, unless the keep-alive
-- is 0, with the time of expiry one and a half times the keep-alive later.
pub connect_handler_registers :
    (c : Core) (host : Host) (pkt : Packet) (cn : Connect) (buff : List ℕ) (m : Manager)
    (self : MqttSession)
    → pkt.pkt ≡ connect cn
    → cn.level ≡ 4
    → session_present cn.client_id m ≡ none
    → (bytes : List ℕ) × (m' : Manager) × (connect_handler c host pkt buff m self
        ≡ done (connection_accepted, bytes, m'))
      × (session_present cn.client_id m' ≡ some (expiring (registered cn m self)))
connect_handler_registers c host pkt cn buff m self body level absent =
    let (bytes, m₁, e) = finish_connect_new host cn m buff self level in
    (
      bytes,
      _,
      connect_handler_new c host pkt cn buff m self body absent ∙ ap done e,
      register-session_present (registered cn m self) m₁,
    )

-- The session of a client that comes back, with the fields that the CONNECT sets.
abbrev pub resumed : Connect → ClientSession → ClientSession
resumed cn cs = record cs {
  client_id = cn.client_id;
  keep_alive = cn.keep_alive;
  cleansession = cn.cf.cleansession;
}

pub set_fields-resumed :
    (cn : Connect) (cs : ClientSession) → cn.level ≡ 4 → set_fields cn cs ≡ resumed cn cs
unfolding set_fields
set_fields-resumed cn cs level =
    let good : nat_beq cn.level 4 ≡ true = ground arith in rw (if_true cs.connected false good) refl

abbrev pub going_on : ClientSession → Manager → Chosen
going_on cs m = record { client = cs; add_to_registry = false; session_present = true; manager = m }

pub connect_handler_present :
    (c : Core) (host : Host) (pkt : Packet) (cn : Connect) (cs : ClientSession) (buff : List ℕ)
    (m : Manager) (self : MqttSession)
    → pkt.pkt ≡ connect cn
    → cn.cf.cleansession ≡ false
    → session_present cn.client_id m ≡ some cs
    → cs.connected ≡ false
    → lock_session cs.session m ≡ none
    → connect_handler c host pkt buff m self
      ≡ done (finish_connect host cn (going_on cs m) buff self)
unfolding connect_handler choose_session take_over resume
connect_handler_present c host pkt cn cs buff m self body keep there down gone =
    rw (body) (ground arith)

pub finish_connect_present :
    (host : Host) (cn : Connect) (cs : ClientSession) (m : Manager) (buff : List ℕ)
    (self : MqttSession)
    → cn.level ≡ 4
    → (bytes : List ℕ) × (finish_connect host cn (going_on cs m) buff self
        ≡ (connection_accepted, bytes, write_client (set_fields cn cs) m))
unfolding finish_connect
finish_connect_present host cn cs m buff self level = (
  (finish_connect host cn (going_on cs m) buff self).1,
  accept (nat_beq cn.level 4) _ _ _ _ _ (ground arith),
)

-- A CONNECT of the protocol level 4 without CleanSession, whose client has a session that is neither
-- connected nor attached to a connection, is accepted, and yet the session stays as it was but for its
-- id, keep-alive and CleanSession: it is not connected, and not attached to the new connection.
pub connect_handler_resumes :
    (c : Core) (host : Host) (pkt : Packet) (cn : Connect) (cs : ClientSession) (buff : List ℕ)
    (m : Manager) (self : MqttSession)
    → pkt.pkt ≡ connect cn
    → cn.level ≡ 4
    → cn.cf.cleansession ≡ false
    → session_present cn.client_id m ≡ some cs
    → cs.connected ≡ false
    → lock_session cs.session m ≡ none
    → (bytes : List ℕ) × (m' : Manager) × (connect_handler c host pkt buff m self
        ≡ done (connection_accepted, bytes, m'))
      × (session_present cn.client_id m' ≡ some (resumed cn cs))
      × ((resumed cn cs).connected ≡ false)
unfolding session_present
connect_handler_resumes c host pkt cn cs buff m self body level keep there down gone =
    let (bytes, e) = finish_connect_present host cn cs m buff self level in
    let e' = rw (set_fields-resumed cn cs level) at e in
    (
      bytes,
      _,
      connect_handler_present c host pkt cn cs buff m self body keep there down gone ∙ ap done e',
      find-replace_ref cn.client_id (resumed cn cs) cs m.registry there refl,
      down,
    )
