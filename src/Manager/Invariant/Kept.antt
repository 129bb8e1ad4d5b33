-- ===== src/Manager/Invariant/Kept.antt =====
-- The steps that the operations of `ManageSessions` are made of.
use culex_mqtt_broker.Common.{
  ℕ, ◌+◌, ◌≤◌, ◌<◌, refl, List, Option, none, some, nat_beq, nat_eq, if-cases, Option-cases,
  All-map, string_eq, find, assign-All, erase-All, arith,
}
use culex_mqtt_broker.TopicTree.{Node}
use culex_mqtt_broker.ClientSession.{ClientSession}
use culex_mqtt_broker.Manager.{
  Manager, MqttSession, ExpiryEntry, RetransmitEntry, write_client, push_data, session_present,
  update_activity, remove_from_registry, force_disconnect, remove_session, add_session,
  create_subscription, remove_subscription,
}
use culex_mqtt_broker.Manager.Heap.{IsSorted, push-IsSorted}
use culex_mqtt_broker.Manager.Timers.{expiry_of, schedule_expiry}
use culex_mqtt_broker.Manager.Routing.{push_if}
use culex_mqtt_broker.Manager.Invariant.{ClientValid, SessionValid, IsValid}
use culex_mqtt_broker.Manager.Invariant.Registry.{
  Has, find-Has, Has-ClientValid, Fits, Has-Fits, replace_ref-RegistryValid, replace_ref-Fits,
  erase-RegistryValid, erase-Fits, RegistryValid-mono,
}
use culex_mqtt_broker.Manager.Invariant.Clients.{IsUpdate, plain-IsUpdate}

-- What a step keeps: the invariant, the identities given out, and the right to write an object.
pub record Kept (m m' : Manager) : Type 0 where
  pub valid : IsValid m → IsValid m'
  pub grows : m.next_ref ≤ m'.next_ref
  pub fits : (cs : ClientSession) → cs.ref < m.next_ref → Fits cs m.registry → Fits cs m'.registry

pub Kept-refl : (m : Manager) → Kept m m
Kept-refl m = record { valid = λ v. v; grows = omega arith; fits = λ cs made f. f }

pub Kept-trans : {a b c : Manager} → Kept a b → Kept b c → Kept a c
Kept-trans h k = record {
  valid = λ v. k.valid (h.valid v);
  grows = omega (arith, h.grows, k.grows);
  fits = λ cs made f. k.fits cs (omega (arith, h.grows)) (h.fits cs made f);
}

-- What is sent and the topic tree are free.
pub free-Kept :
    (m : Manager) (sent : List (ℕ × List ℕ)) (tree : Node)
    → Kept m (record m { sent = sent; topic_tree = tree })
free-Kept m sent tree = record {
  valid = λ v. record {
    clients = v.clients;
    expiries = v.expiries;
    retries = v.retries;
    connections = v.connections;
  };
  grows = omega arith;
  fits = λ cs made f. f;
}

pub write_client-Kept :
    (m : Manager) (old cs : ClientSession)
    → Has old m.registry
    → IsUpdate old cs
    → Kept m (write_client cs m)
write_client-Kept m old cs there u = record {
  valid = λ v. record {
    clients =
        replace_ref-RegistryValid m.next_ref cs m.registry
          (u.keeps m.next_ref (Has-ClientValid m.next_ref old m.registry v.clients there))
          (Has-Fits m.next_ref old cs m.registry v.clients there u.same_ref u.same_id) v.clients;
    expiries = v.expiries;
    retries = v.retries;
    connections = v.connections;
  };
  grows = omega arith;
  fits = λ a made f. replace_ref-Fits a cs m.registry f;
}

-- A write that was made ready before other steps.
pub record Writable (m : Manager) (cs : ClientSession) : Type 0 where
  pub valid : ClientValid m.next_ref cs
  pub fits : Fits cs m.registry

pub Writable-Kept :
    {m m' : Manager} {cs : ClientSession} → Kept m m' → Writable m cs → Writable m' cs
Writable-Kept {cs = cs} k w = record {
  valid = record {
    numbered = w.valid.numbered;
    made = omega (arith, w.valid.made, k.grows);
    stored = w.valid.stored;
    acknowledged = w.valid.acknowledged;
  };
  fits = k.fits cs w.valid.made w.fits;
}

pub Has-Writable :
    (m : Manager) (cs : ClientSession) → IsValid m → Has cs m.registry → Writable m cs
Has-Writable m cs v there = record {
  valid = Has-ClientValid m.next_ref cs m.registry v.clients there;
  fits = Has-Fits m.next_ref cs cs m.registry v.clients there refl refl;
}

pub write_ready-Kept :
    (m : Manager) (cs : ClientSession) → Writable m cs → Kept m (write_client cs m)
write_ready-Kept m cs w = record {
  valid = λ v. record {
    clients = replace_ref-RegistryValid m.next_ref cs m.registry w.valid w.fits v.clients;
    expiries = v.expiries;
    retries = v.retries;
    connections = v.connections;
  };
  grows = omega arith;
  fits = λ a made f. replace_ref-Fits a cs m.registry f;
}

pub remove_from_registry-Kept : (k : List ℕ) (m : Manager) → Kept m (remove_from_registry k m)
unfolding remove_from_registry
remove_from_registry-Kept k m = record {
  valid = λ v. record {
    clients = erase-RegistryValid m.next_ref k m.registry v.clients;
    expiries = v.expiries;
    retries = v.retries;
    connections = v.connections;
  };
  grows = omega arith;
  fits = λ cs made f. erase-Fits cs k m.registry f;
}

pub remove_session-Kept : (fd : ℕ) (m : Manager) → Kept m (remove_session fd m)
unfolding remove_session
remove_session-Kept fd m = record {
  valid = λ v. record {
    clients = v.clients;
    expiries = v.expiries;
    retries = v.retries;
    connections = erase-All (SessionValid m.next_ref) fd m.sessions v.connections;
  };
  grows = omega arith;
  fits = λ cs made f. f;
}

pub force_disconnect-Kept : (s : MqttSession) (m : Manager) → Kept m (force_disconnect s m)
unfolding force_disconnect
force_disconnect-Kept s m = remove_session-Kept s.fd m

pub push_data-Kept : (s : MqttSession) (bytes : List ℕ) (m : Manager) → Kept m (push_data s bytes m)
push_data-Kept s bytes m = free-Kept m _ m.topic_tree

pub push_if-Kept :
    (o : Option MqttSession) (bytes : List ℕ) (m : Manager) → Kept m (push_if o bytes m)
push_if-Kept none bytes m = Kept-refl m
push_if-Kept (some s) bytes m = push_data-Kept s bytes m

pub update_activity-Kept : (k : List ℕ) (m : Manager) → Kept m (update_activity k m)
unfolding update_activity session_present
update_activity-Kept k m =
    Option-cases (Kept m) (find k m.registry) _ _ (λ unknown. Kept-refl m)
      (λ cs there.
        write_client-Kept m cs (record cs { last_activity = m.now })
          (find-Has k cs m.registry there) (plain-IsUpdate refl refl refl refl refl))

pub create_subscription-Kept :
    (topic : List ℕ) (qos : ℕ) (k : List ℕ) (m : Manager)
    → Kept m (create_subscription topic qos k m)
unfolding create_subscription
create_subscription-Kept topic qos k m =
    Option-cases (Kept m) (session_present k m) _ _ (λ unknown. Kept-refl m)
      (λ cs there. free-Kept m m.sent _)

pub remove_subscription-Kept :
    (topic k : List ℕ) (m : Manager) → Kept m (remove_subscription topic k m)
unfolding remove_subscription
remove_subscription-Kept topic k m =
    Option-cases (Kept m) (session_present k m) _ _ (λ unknown. Kept-refl m)
      (λ cs there. free-Kept m m.sent _)

pub expiry_heap-Kept :
    (m : Manager) (h : List ExpiryEntry)
    → (IsValid m → IsSorted (λ e. e.expiry_ms) h)
    → Kept m (record m { expiry_heap = h })
expiry_heap-Kept m h sorted = record {
  valid = λ v. record {
    clients = v.clients;
    expiries = sorted v;
    retries = v.retries;
    connections = v.connections;
  };
  grows = omega arith;
  fits = λ cs made f. f;
}

pub retransmit_heap-Kept :
    (m : Manager) (h : List RetransmitEntry)
    → (IsValid m → IsSorted (λ e. e.retry_ms) h)
    → Kept m (record m { retransmit_heap = h })
retransmit_heap-Kept m h sorted = record {
  valid = λ v. record {
    clients = v.clients;
    expiries = v.expiries;
    retries = sorted v;
    connections = v.connections;
  };
  grows = omega arith;
  fits = λ cs made f. f;
}

-- An entry goes to the expiry heap behind a write to its session.
pub schedule_expiry-Kept :
    (cs : ClientSession) (m : Manager) → Writable m cs → Kept m (schedule_expiry cs m)
unfolding schedule_expiry
schedule_expiry-Kept cs m w =
    let timed : ClientSession = record cs { expiry_ms = expiry_of cs } in
    let ready : Writable m timed = record {
      valid =
          (plain-IsUpdate {old = cs} {new = timed} refl refl refl refl refl).keeps m.next_ref
            w.valid;
      fits = w.fits;
    } in
    if-cases (Kept m) (nat_beq cs.keep_alive 0) _ _ (λ off. Kept-refl m)
      (λ on.
        Kept-trans (write_ready-Kept m timed ready)
          (expiry_heap-Kept (write_client timed m) _ (λ v. push-IsSorted _ _ _ v.expiries)))

pub add_session-Kept : (fd : ℕ) (m : Manager) → Kept m (add_session fd m)
unfolding add_session
add_session-Kept fd m = record {
  valid = λ v. record {
    clients = RegistryValid-mono m.next_ref (m.next_ref + 1) m.registry (omega arith) v.clients;
    expiries = v.expiries;
    retries = v.retries;
    connections =
        assign-All (SessionValid (m.next_ref + 1)) fd _ m.sessions (refl, omega arith)
          (All-map _ _ m.sessions
            (λ (e : ℕ × MqttSession) (h : SessionValid m.next_ref e). (h.0, omega (arith, h.1)))
            v.connections);
  };
  grows = omega arith;
  fits = λ cs made f. f;
}
