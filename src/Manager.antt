-- ===== src/Manager.antt =====
-- `ManageSessions` of mqtt/include/managesessions.h and mqtt/src/managesession.cpp: its state, the
-- connections, the registry of clients, and the subscriptions. Each method is one step; the locks are
-- not modelled.
pub mod Heap
pub mod Timers
pub mod Waiting
pub mod Routing
pub mod Invariant
pub mod Expiry
use culex_mqtt_broker.Common.{
  ℕ, ◌+◌, Bool, List, [], ◌∷◌, ◌++◌, Option, none, some, nat_beq, nat_eq, string_eq, if◌then◌else◌,
  find, assign, erase, map,
}
use culex_mqtt_broker.Packets.Kind.{PacketType}
use culex_mqtt_broker.TopicTree
use culex_mqtt_broker.TopicTree.{Node}
use culex_mqtt_broker.ClientSession.{ClientSession}

-- `MqttSession`: a connection. `ref` is the identity of the object, by which a weak pointer finds it.
pub record MqttSession : Type 0 where
  pub ref : ℕ
  pub fd : ℕ
  pub client_id : List ℕ

-- The weak pointer of an entry is the identity of the `ClientSession`.
pub record ExpiryEntry : Type 0 where
  pub expiry_ms : ℕ
  pub session : ℕ

pub record RetransmitEntry : Type 0 where
  pub retry_ms : ℕ
  pub packet_id : ℕ
  pub packet_type : PacketType
  pub session : ℕ

-- The heaps are lists with the earliest time first. `held` are the connections that a running task
-- holds a shared pointer to, `sent` what has been handed to `pushDataToSend` of culex-core, by
-- connection, `now` what `now_ms()` reads, `next_ref` the identity of the next object.
pub record Manager : Type 0 where
  pub topic_tree : Node
  pub registry : List (List ℕ × ClientSession)
  pub expiry_heap : List ExpiryEntry
  pub retransmit_heap : List RetransmitEntry
  pub sessions : List (ℕ × MqttSession)
  pub held : List MqttSession
  pub sent : List (ℕ × List ℕ)
  pub now : ℕ
  pub next_ref : ℕ

-- A shared pointer to a `ClientSession` is kept by the registry alone, so `lock()` of a weak pointer
-- succeeds as long as the object is there.
unfoldable pub find_ref : ℕ → List (List ℕ × ClientSession) → Option ClientSession
find_ref ref [] = none
find_ref ref ((k, cs) ∷ r) = if nat_beq cs.ref ref then some cs else find_ref ref r

abbrev pub lock_client : ℕ → Manager → Option ClientSession
lock_client ref m = find_ref ref m.registry

-- A write through a shared pointer: the object with this identity becomes `cs`.
unfoldable pub replace_ref :
    ClientSession → List (List ℕ × ClientSession) → List (List ℕ × ClientSession)
replace_ref cs [] = []
replace_ref cs ((k, old) ∷ r) = (k, if nat_beq old.ref cs.ref then cs else old) ∷ replace_ref cs r

abbrev pub write_client : ClientSession → Manager → Manager
write_client cs m = record m { registry = replace_ref cs m.registry }

-- `lock()` of a weak pointer to a connection: the connection is in `m_sessions`, or a task holds it.
unfoldable pub find_session : ℕ → List (ℕ × MqttSession) → Option MqttSession
find_session ref [] = none
find_session ref ((fd, s) ∷ r) = if nat_beq s.ref ref then some s else find_session ref r

-- `client_id = ...` on the connection with this identity, wherever it is pointed to from.
abbrev pub named : ℕ → List ℕ → MqttSession → MqttSession
named ref client_id s = if nat_beq s.ref ref then record s { client_id = client_id } else s

unfoldable pub name_sessions : ℕ → List ℕ → List (ℕ × MqttSession) → List (ℕ × MqttSession)
name_sessions ref client_id [] = []
name_sessions ref client_id ((fd, s) ∷ r) =
    (fd, named ref client_id s) ∷ name_sessions ref client_id r

unfoldable pub set_client_id : ℕ → List ℕ → Manager → Manager
unfolding name_sessions
set_client_id ref client_id m = record m {
  sessions = name_sessions ref client_id m.sessions;
  held = map (named ref client_id) m.held;
}

unfoldable pub find_held : ℕ → List MqttSession → Option MqttSession
find_held ref [] = none
find_held ref (s ∷ r) = if nat_beq s.ref ref then some s else find_held ref r

unfoldable pub lock_session : Option ℕ → Manager → Option MqttSession
unfolding find_session find_held
lock_session none m = none
lock_session (some ref) m = elim (find_session ref m.sessions) [
  | some s ↦ some s
  | none ↦ find_held ref m.held
]

-- `pushDataToSend`
abbrev pub push_data : MqttSession → List ℕ → Manager → Manager
push_data s bytes m = record m { sent = m.sent ++ (s.ref, bytes) ∷ [] }

-- `addSession`
unfoldable pub add_session : ℕ → Manager → Manager
add_session fd m =
    let session : MqttSession = record { ref = m.next_ref; fd = fd; client_id = [] } in
    record m { sessions = assign fd session m.sessions; next_ref = m.next_ref + 1 }

-- `removeSession`
unfoldable pub remove_session : ℕ → Manager → Manager
remove_session fd m = record m { sessions = erase fd m.sessions }

-- `MqttSession::forceDisconnect` of mqtt/src/mqttsession.cpp
unfoldable pub force_disconnect : MqttSession → Manager → Manager
unfolding remove_session
force_disconnect s m = remove_session s.fd m

-- `sessionPresent`; `none` is a null pointer.
unfoldable pub session_present : List ℕ → Manager → Option ClientSession
session_present client_id m = find client_id m.registry

-- `removeFromRegistry`
unfoldable pub remove_from_registry : List ℕ → Manager → Manager
remove_from_registry client_id m = record m { registry = erase client_id m.registry }

-- `addToRegistry`
unfoldable pub add_to_registry : ClientSession → Manager → Manager
add_to_registry cs m = record m { registry = assign cs.client_id cs m.registry }

-- `updateActivity`
unfoldable pub update_activity : List ℕ → Manager → Manager
unfolding session_present
update_activity client_id m = elim (session_present client_id m) [
  | none ↦ m
  | some cs ↦ write_client (record cs { last_activity = m.now }) m
]

-- `createSubscription`
unfoldable pub create_subscription : List ℕ → ℕ → List ℕ → Manager → Manager
unfolding session_present
create_subscription topic qos client_id m = elim (session_present client_id m) [
  | none ↦ m
  | some cs ↦ record m {
    topic_tree = TopicTree.subscribe topic cs.client_id cs.ref qos m.topic_tree;
  }
]

-- `removeSubscription`
unfoldable pub remove_subscription : List ℕ → List ℕ → Manager → Manager
unfolding session_present
remove_subscription topic client_id m = elim (session_present client_id m) [
  | none ↦ m
  | some cs ↦ record m { topic_tree = TopicTree.unsubscribe topic cs.client_id m.topic_tree }
]
