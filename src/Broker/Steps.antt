-- ===== src/Broker/Steps.antt =====
-- The broker as a transition system: what the threads of the pool and the loop of
-- mqtt/include/broker.h do to the manager, in any order. The loop takes steps of it only.
use culex_mqtt_broker.Common.{
  ℕ, zero, suc, ◌≤◌, ◌≡◌, ◌||◌, List, [], ◌∷◌, ◌++◌, some, nat_beq, nat_eq, if-cases, done,
  >>=-eq-done, done-injective, length, find,
}
use mathlib.Core.Path.{subst}
use culex_mqtt_broker.Core.{Core}
use culex_mqtt_broker.Build.{Host}
use culex_mqtt_broker.Manager.{Manager, MqttSession, add_session, remove_session, find_held}
use culex_mqtt_broker.Manager.Timers.{Timeout, get_next_timeout_ms, process_expired_sessions}
use culex_mqtt_broker.Manager.Routing.{process_retransmissions}
use culex_mqtt_broker.Session.{Parsed, parse_data}
use culex_mqtt_broker.Broker.{Event, Server, handle_event, handle_events, maintain, round, run}

module _ (c : Core) (host : Host) where
  -- What culex-core does with the manager: it adds and removes connections, a task takes and drops a
  -- shared pointer to one, and has it parse what it has received; and time passes.
  pub data Step : Manager → Manager → Type 0 where
    accept : (fd : ℕ) (m : Manager) → Step m (add_session fd m)
    close : (fd : ℕ) (m : Manager) → Step m (remove_session fd m)
    hold :
        (fd : ℕ) (s : MqttSession) (m : Manager)
        → find fd m.sessions ≡ some s
        → Step m (record m { held = s ∷ m.held })
    release :
        (l r : List MqttSession) (s : MqttSession) (m : Manager)
        → m.held ≡ l ++ s ∷ r
        → Step m (record m { held = l ++ r })
    receive :
        (self : MqttSession) (recv : List ℕ) (m : Manager) (r : Parsed)
        → find_held self.ref m.held ≡ some self
        → parse_data c host self recv m ≡ done r
        → Step m r.2
    wait : (later : ℕ) (m : Manager) → m.now ≤ later → Step m (record m { now = later })
    expire : (fuel : ℕ) (m m' : Manager) → process_expired_sessions fuel m ≡ done m' → Step m m'
    retransmit :
        (fuel : ℕ) (m m' : Manager) → process_retransmissions c host fuel m ≡ done m' → Step m m'

  pub data Reach (m : Manager) : Manager → Type 0 where
    here : Reach m m
    next : {m₁ m₂ : Manager} → Reach m m₁ → Step m₁ m₂ → Reach m m₂

  pub Reach-trans : {m m₁ m₂ : Manager} → Reach m m₁ → Reach m₁ m₂ → Reach m m₂
  Reach-trans r here = r
  Reach-trans r (next s step) = next (Reach-trans r s) step

  -- The functions of culex-core work on the manager through its public methods alone.
  pub record OnlySteps (server : Server) : Type 0 where
    pub poll :
        (t : Timeout) (m : Manager) (r : List Event × Manager)
        → server.poll t m ≡ done r
        → Reach m r.1
    pub close_connection :
        (fd : ℕ) (m m' : Manager) → server.close_connection fd m ≡ done m' → Reach m m'
    pub new_connection : (m m' : Manager) → server.new_connection m ≡ done m' → Reach m m'
    pub session_event : (fd : ℕ) (m m' : Manager) → server.session_event fd m ≡ done m' → Reach m m'

  module _ (server : Server) (only : OnlySteps server) where
    handle_event-Reach :
        (ev : Event) (m m' : Manager) → handle_event server ev m ≡ done m' → Reach m m'
    unfolding handle_event
    handle_event-Reach ev m m' e =
        if-cases (λ x. x ≡ done m' → Reach m m') (ev.hang_up || (ev.error || ev.read_hang_up)) _ _
          (λ gone e. only.close_connection ev.fd m m' e)
          (λ up e.
            if-cases (λ x. x ≡ done m' → Reach m m') (nat_beq ev.fd server.server_fd) _ _
              (λ listening e. only.new_connection m m' e)
              (λ connected e.
                if-cases (λ x. x ≡ done m' → Reach m m') ev.readable _ _
                  (λ readable e. only.session_event ev.fd m m' e)
                  (λ silent e. subst (Reach m) (done-injective m m' e) here) e)
              e)
          e

    pub handle_events-Reach :
        (events : List Event) (m m' : Manager)
        → handle_events server events m ≡ done m'
        → Reach m m'
    unfolding handle_events
    handle_events-Reach [] m m' e = subst (Reach m) (done-injective m m' e) here
    handle_events-Reach (ev ∷ events) m m' e =
        let (m₁, first, rest) = >>=-eq-done (handle_event server ev m) _ e in
        Reach-trans (handle_event-Reach ev m m₁ first) (handle_events-Reach events m₁ m' rest)

    maintain-Reach : (m m' : Manager) → maintain c host m ≡ done m' → Reach m m'
    unfolding maintain
    maintain-Reach m m' e =
        let (m₁, first, rest) =
          >>=-eq-done (process_expired_sessions (length m.expiry_heap) m) _ e in
        next (next here (expire _ m m₁ first)) (retransmit _ m₁ m' rest)

    round-Reach : (m m' : Manager) → round c host server m ≡ done m' → Reach m m'
    unfolding round
    round-Reach m m' e =
        let (r, polled, e₁) = >>=-eq-done (server.poll (get_next_timeout_ms m) m) _ e in
        let (m₂, handled, e₂) = >>=-eq-done (handle_events server r.0 r.1) _ e₁ in
        Reach-trans (only.poll _ m r polled)
          (Reach-trans (handle_events-Reach r.0 r.1 m₂ handled) (maintain-Reach m₂ m' e₂))

    -- The state after any number of rounds is reached.
    pub run-Reach : (n : ℕ) (m m' : Manager) → run c host server n m ≡ done m' → Reach m m'
    unfolding run
    run-Reach zero m m' e = subst (Reach m) (done-injective m m' e) here
    run-Reach (suc n) m m' e =
        let (m₁, first, rest) = >>=-eq-done (round c host server m) _ e in
        Reach-trans (round-Reach m m₁ first) (run-Reach n m₁ m' rest)
