-- ===== src/Broker.antt =====
-- mqtt/include/broker.h and mqtt/src/broker.cpp: the loop that waits for events, hands them to the
-- server of culex-core, and does what has become due.
pub mod Steps
pub mod Maintenance
pub mod Rounds
use culex_mqtt_broker.Common.{
  ℕ, zero, suc, Bool, ◌||◌, List, [], ◌∷◌, nat_beq, if◌then◌else◌, Outcome, done, throws, faults,
  stuck, ◌>>=◌, length,
}
use culex_mqtt_broker.Core.{Core}
use culex_mqtt_broker.Build.{Host}
use culex_mqtt_broker.TopicTree.{empty_tree}
use culex_mqtt_broker.Manager.{Manager}
use culex_mqtt_broker.Manager.Timers.{Timeout, get_next_timeout_ms, process_expired_sessions}
use culex_mqtt_broker.Manager.Routing.{process_retransmissions}

-- What `poll` reports of a descriptor: the flags `EPOLLHUP`, `EPOLLERR`, `EPOLLRDHUP` and `EPOLLIN`.
pub record Event : Type 0 where
  pub fd : ℕ
  pub hang_up : Bool
  pub error : Bool
  pub read_hang_up : Bool
  pub readable : Bool

-- The functions of `TCPServer` and of its poller that the loop calls, of culex-core. Each returns the
-- manager as it is afterwards, with what the threads of the pool have done to it meanwhile.
pub record Server : Type 0 where
  pub init : Bool
  pub server_fd : ℕ
  pub poll : Timeout → Manager → Outcome (List Event × Manager)
  pub close_connection : ℕ → Manager → Outcome Manager
  pub new_connection : Manager → Outcome Manager
  pub session_event : ℕ → Manager → Outcome Manager

-- `ManageSessions` as it is constructed, at a time.
abbrev pub new_manager : ℕ → Manager
new_manager now = record {
  topic_tree = empty_tree;
  registry = [];
  expiry_heap = [];
  retransmit_heap = [];
  sessions = [];
  held = [];
  sent = [];
  now = now;
  next_ref = 0;
}

unfoldable pub handle_event : Server → Event → Manager → Outcome Manager
handle_event server ev m =
    if ev.hang_up || (ev.error || ev.read_hang_up)
    then server.close_connection ev.fd m
    else if nat_beq ev.fd server.server_fd
    then server.new_connection m
    else if ev.readable
    then server.session_event ev.fd m
    else done m

unfoldable pub handle_events : Server → List Event → Manager → Outcome Manager
unfolding handle_event
handle_events server [] m = done m
handle_events server (ev ∷ events) m = handle_event server ev m >>= handle_events server events

module _ (c : Core) (host : Host) where
  -- What a round does behind its events. The fuel of each loop is enough where the loop comes to an
  -- end.
  unfoldable pub maintain : Manager → Outcome Manager
  maintain m = do
    m₁ ← process_expired_sessions (length m.expiry_heap) m
    process_retransmissions c host (suc (length m₁.retransmit_heap)) m₁

  module _ (server : Server) where
    -- A round of the loop of `run`.
    unfoldable pub round : Manager → Outcome Manager
    unfolding maintain handle_events
    round m = do
      (events, m₁) ← server.poll (get_next_timeout_ms m) m
      m₂ ← handle_events server events m₁
      maintain m₂

    -- `run`, for a number of rounds: `m_running` becomes false in the destructor alone.
    unfoldable pub run : ℕ → Manager → Outcome Manager
    unfolding round
    run zero m = done m
    run (suc n) m = round m >>= run n

-- How far `main` has come: its exit code, or the manager of a loop that goes on.
pub data Progress : Type 0 where
  exited : ℕ → Progress
  running : Manager → Progress

-- An exception that leaves `run` is caught.
abbrev pub caught : Outcome Manager → Outcome Progress
caught (done m) = done (running m)
caught (throws x) = done (exited 0)
caught faults = faults
caught stuck = stuck

-- `main`, for a number of rounds.
unfoldable pub main : Core → Host → Server → ℕ → ℕ → Outcome Progress
unfolding run
main c host server now n =
    if server.init then caught (run c host server n (new_manager now)) else done (exited 1)
