-- ===== src/Examples/Loop.antt =====
-- The loop of the broker and the invariant at concrete states.
use culex_mqtt_broker.Common.{
  ℕ, ◌+◌, ◌-◌, ◌≤◌, ◌≡◌, ◌≢◌, refl, true, false, List, [], ◌∷◌, Option, some, ap, Outcome, ◌>>=◌,
  >>=-eq-done, done, stuck, nat_eq, find, none, erase, assign, All, done-injective, ◌<◌, string_beq,
  arith,
}
use mathlib.Core.Path.{subst}
use culex_mqtt_broker.Build.{little_endian, pack_connack}
use culex_mqtt_broker.ClientSession.{ClientSession, new_client_session}
use culex_mqtt_broker.Manager.{
  Manager, MqttSession, ExpiryEntry, RetransmitEntry, find_ref, lock_client, force_disconnect,
  remove_from_registry, add_session, find_held,
}
use culex_mqtt_broker.Manager.Expiry.{AllLive, process_expired_hangs}
use culex_mqtt_broker.Manager.Invariant.{IsValid}
use culex_mqtt_broker.Manager.Invariant.Routing.{dues}
use culex_mqtt_broker.Manager.Invariant.Retransmission.{process_retransmissions_ends}
use culex_mqtt_broker.Manager.Routing.{process_retransmissions}
use culex_mqtt_broker.Manager.Heap.{due_count}
use culex_mqtt_broker.Manager.Timers.{get_next_timeout_ms, milliseconds}
use culex_mqtt_broker.Manager.Waiting.{get_next_timeout_exact}
use culex_mqtt_broker.Session.{parse_data}
use culex_mqtt_broker.Broker.{Event, Server, new_manager, maintain, run}
use culex_mqtt_broker.Broker.Steps.{
  Reach, OnlySteps, here, next, wait, accept, close, hold, receive,
}
use culex_mqtt_broker.Broker.Maintenance.{Reach-IsValid, maintain_ends}
use culex_mqtt_broker.Broker.Rounds.{IsInTime, reads, no_event, event, run-IsInTime}
use culex_mqtt_broker.Examples.PlainCore.{plain_core}
use culex_mqtt_broker.Unpack.{unpack, unpack_handlers, unpack_connect, framed, is_partial}
use culex_mqtt_broker.Packets.{Packet, publish}
use culex_mqtt_broker.Packets.Flags.{unpack_header, unpack_flags, pack_header}
use culex_mqtt_broker.Packets.Length.{decode_length}
use culex_mqtt_broker.Packets.Length.Encode.{encode_length-base128, base128}
use culex_mqtt_broker.Handlers.Connecting.{connect_handler}
use culex_mqtt_broker.Manager.Timers.{schedule_expiry, process_expired_sessions}
use culex_mqtt_broker.Manager.{add_to_registry, replace_ref, remove_session}
use culex_mqtt_broker.Manager.Heap.{push}

-- A CONNECT packet of a client `e` with a keep-alive of 60 s and a clean session.
abbrev connect_bytes : List ℕ
connect_bytes = 16 ∷ 13 ∷ 0 ∷ 4 ∷ b'M' ∷ b'Q' ∷ b'T' ∷ b'T' ∷ 4 ∷ 2 ∷ 0 ∷ 60 ∷ 0 ∷ 1 ∷ b'e' ∷ []

abbrev fresh : MqttSession
fresh = record { ref = 0; fd = 7; client_id = [] }

abbrev named_e : MqttSession
named_e = record { ref = 0; fd = 7; client_id = b'e' ∷ [] }

abbrev held_fresh : Manager
held_fresh = record (new_manager 1000) {
  sessions = (7, fresh) ∷ [];
  held = fresh ∷ [];
  next_ref = 1;
}

abbrev client_e : ClientSession
client_e = record (new_client_session 1) {
  client_id = b'e' ∷ [];
  keep_alive = 60;
  cleansession = true;
  connected = true;
  session = some 0;
  expiry_ms = 91000;
  last_activity = 1000;
}

abbrev entry_e : ExpiryEntry
entry_e = record { expiry_ms = 91000; session = 1 }

abbrev connected : Manager
connected = record (new_manager 1000) {
  registry = (b'e' ∷ [], client_e) ∷ [];
  expiry_heap = entry_e ∷ [];
  sessions = (7, named_e) ∷ [];
  held = named_e ∷ [];
  sent = (0, 32 ∷ 2 ∷ 0 ∷ []) ∷ [];
  next_ref = 2;
}

-- The packet is parsed, handled and answered.
connects :
    parse_data plain_core little_endian fresh connect_bytes held_fresh
    ≡ done (named_e, [], connected)
unfolding parse_data unpack unpack_handlers unpack_header unpack_connect framed is_partial
    decode_length string_beq unpack_flags connect_handler find schedule_expiry add_to_registry
    replace_ref push assign pack_header base128 pack_connack
connects = rw (encode_length-base128 2 [] (omega arith)) refl

held_fresh-Reach : Reach plain_core little_endian (new_manager 1000) held_fresh
unfolding add_session assign find
held_fresh-Reach =
    next (next here (accept 7 (new_manager 1000)))
      (hold 7 fresh (add_session 7 (new_manager 1000)) refl)

connected-Reach : Reach plain_core little_endian (new_manager 1000) connected
unfolding find_held
connected-Reach =
    next held_fresh-Reach
      (receive fresh connect_bytes held_fresh (named_e, [], connected) refl connects)

Reach-IsValid_example : IsValid connected
Reach-IsValid_example = Reach-IsValid plain_core little_endian 1000 connected-Reach

connected-AllLive : AllLive connected connected.expiry_heap
unfolding AllLive find_ref
connected-AllLive = (λ e. cc, tt)

maintain_ends_example : maintain plain_core little_endian connected ≢ stuck
maintain_ends_example =
    maintain_ends plain_core little_endian 1000 connected-Reach connected-AllLive

get_next_timeout_exact_example :
    (t : ℕ) × (get_next_timeout_ms connected ≡ milliseconds t)
    × (91000 ≤ 1000 + t)
    × All (λ x. t ≤ x.expiry_ms - 1000) (entry_e ∷ [])
get_next_timeout_exact_example =
    get_next_timeout_exact connected entry_e [] refl (tt, tt) (omega arith)

-- A server on which a connection comes in, and then the CONNECT packet on it.
abbrev incoming : Event
incoming = record { fd = 3; hang_up = false; error = false; read_hang_up = false; readable = true }

abbrev arrived : Event
arrived = record { fd = 7; hang_up = false; error = false; read_hang_up = false; readable = true }

abbrev events_for : List (ℕ × MqttSession) → List Event
events_for [] = incoming ∷ []
events_for (s ∷ l) = arrived ∷ []

abbrev receives : Option MqttSession → Manager → Outcome Manager
receives none m = done m
receives (some s) m = do
  r ← parse_data plain_core little_endian s connect_bytes (record m { held = s ∷ m.held })
  done r.2

abbrev plain_server : Server
plain_server = record {
  init = true;
  server_fd = 3;
  poll = λ t m. done (events_for m.sessions, m);
  close_connection = λ fd m. done (remove_session fd m);
  new_connection = λ m. done (add_session 7 m);
  session_event = λ fd m. receives (find fd m.sessions) m;
}

found_held : (s : MqttSession) (held : List MqttSession) → find_held s.ref (s ∷ held) ≡ some s
unfolding find_held
found_held s held = ground arith

receives-Reach :
    (fd : ℕ) (o : Option MqttSession) (m m' : Manager)
    → find fd m.sessions ≡ o
    → receives o m ≡ done m'
    → Reach plain_core little_endian m m'
receives-Reach fd none m m' there e =
    subst (Reach plain_core little_endian m) (done-injective _ _ e) here
receives-Reach fd (some s) m m' there e =
    let taken : Manager = record m { held = s ∷ m.held } in
    let (r, parsed, end) =
      >>=-eq-done (parse_data plain_core little_endian s connect_bytes taken) _ e in
    subst (Reach plain_core little_endian m) (done-injective _ _ end) (
      next (next here (hold fd s m there))
        (receive s connect_bytes taken r (found_held s m.held) parsed))

plain_server-OnlySteps : OnlySteps plain_core little_endian plain_server
plain_server-OnlySteps = record {
  poll = λ t m r e.
      subst (λ (x : List Event × Manager). Reach plain_core little_endian m x.1)
        (done-injective _ _ e) here;
  close_connection = λ fd m m' e.
      subst (Reach plain_core little_endian m) (done-injective _ _ e) (next here (close fd m));
  new_connection = λ m m' e.
      subst (Reach plain_core little_endian m) (done-injective _ _ e) (next here (accept 7 m));
  session_event = λ fd m m' e. receives-Reach fd (find fd m.sessions) m m' refl e;
}

abbrev accepted : Manager
accepted = record (new_manager 1000) { sessions = (7, fresh) ∷ []; next_ref = 1 }

accepts_first : run plain_core little_endian plain_server 1 (new_manager 1000) ≡ done accepted
unfolding run process_expired_sessions add_session process_retransmissions assign
accepts_first = refl

receives_connect : receives (find 7 accepted.sessions) accepted ≡ done connected
unfolding find
receives_connect = ap (λ r. r >>= λ x. done x.2) connects

run-IsInTime_example :
    (run plain_core little_endian plain_server 2 (new_manager 1000)
      ≡ maintain plain_core little_endian connected)
    × IsInTime (run plain_core little_endian plain_server 2 (new_manager 1000))
run-IsInTime_example =
    run-IsInTime plain_core little_endian plain_server 1 1000 (arrived ∷ []) accepted accepted
      connected plain_server-OnlySteps accepts_first refl
      (event
        (reads arrived accepted connected (refl, refl, refl) (λ e. omega (arith, e)) refl
          receives_connect)
        (no_event connected))
      connected-AllLive

-- A PUBLISH packet that is to be sent again.
abbrev stored : Packet
stored = record {
  header = record { kind = 3; dup = false; qos = 1; retain = false };
  pkt_len = 9;
  pkt = publish (record { topic = b'/' ∷ b'n' ∷ []; packet_id = 1; payload = 5 ∷ [] });
}

abbrev again : RetransmitEntry
again = record { retry_ms = 800; packet_id = 1; packet_type = 3; session = 1 }

abbrev overdue : Manager
overdue = record connected {
  registry = (b'e' ∷ [], record client_e { inflight = (1, stored) ∷ [] }) ∷ [];
  retransmit_heap = again ∷ [];
}

overdue-IsValid : IsValid overdue
overdue-IsValid = record {
  clients = (
    refl,
    record {
      numbered = (omega arith, omega arith);
      made = omega arith;
      stored =
          ((record { topic = b'/' ∷ b'n' ∷ []; packet_id = 1; payload = 5 ∷ [] }, refl, refl), tt);
      acknowledged = tt;
    },
    tt,
    tt,
  );
  expiries = (tt, tt);
  retries = (tt, tt);
  connections = ((refl, omega arith), tt);
}

two_rounds_enough : dues 1000 overdue < 2
unfolding due_count
two_rounds_enough = omega arith

process_retransmissions_ends_example :
    process_retransmissions plain_core little_endian 2 overdue ≢ stuck
process_retransmissions_ends_example =
    process_retransmissions_ends plain_core little_endian 2 overdue overdue-IsValid
      two_rounds_enough

-- The client then sends a packet of a type that has no deserializer, and leaves the registry. Its entry
-- of the expiry heap stays, and when it is due the loop of `processExpiredSessions` does not end.
abbrev refused_bytes : List ℕ
refused_bytes = 32 ∷ 2 ∷ 0 ∷ 0 ∷ []

abbrev refused : Manager
refused = record connected { registry = []; sessions = [] }

refuses :
    parse_data plain_core little_endian named_e refused_bytes connected
    ≡ done (named_e, refused_bytes, refused)
unfolding parse_data unpack unpack_handlers unpack_header find string_beq force_disconnect
    remove_from_registry erase
refuses = refl

abbrev later : Manager
later = record refused { now = 91000 }

later-Reach : Reach plain_core little_endian (new_manager 1000) later
unfolding find_held
later-Reach =
    next
      (next connected-Reach
        (receive named_e refused_bytes connected (named_e, refused_bytes, refused) refl refuses))
      (wait 91000 refused (omega arith))

entry_left : lock_client 1 later ≡ none
unfolding find_ref
entry_left = refl

later_hangs : (rounds : ℕ) → process_expired_sessions rounds later ≡ stuck
later_hangs rounds = process_expired_hangs rounds later entry_e [] refl (omega arith) entry_left
