-- ===== src/Broker/Rounds.antt =====
-- The rounds of the loop of `run` of mqtt/include/broker.h, from the start of the broker.
use culex_mqtt_broker.Common.{
  ℕ, zero, suc, ◌≡◌, ◌≢◌, ◌⊎◌, refl, sym, ap, ◌∙◌, true, false, List, [], ◌∷◌, nat_eq, Outcome,
  done, throws, faults, stuck, ◌>>=◌, >>=-eq-done, done-injective, length, arith,
}
use mathlib.Core.Path.{subst}
use culex_mqtt_broker.Core.{Core}
use culex_mqtt_broker.Build.{Host}
use culex_mqtt_broker.Manager.{Manager}
use culex_mqtt_broker.Manager.Timers.{get_next_timeout_ms, process_expired_sessions}
use culex_mqtt_broker.Manager.Expiry.{AllLive}
use culex_mqtt_broker.Manager.Invariant.{IsValid}
use culex_mqtt_broker.Manager.Invariant.Timers.{process_expired_sessions-IsValid}
use culex_mqtt_broker.Manager.Invariant.Retransmission.{process_retransmissions-IsValid}
use culex_mqtt_broker.Manager.Invariant.Overdue.{
  AllLate, IsAtRest, process_expired_late, process_retransmissions_rests,
}
use culex_mqtt_broker.Broker.{
  Event, Server, new_manager, handle_event, handle_events, maintain, round, run,
}
use culex_mqtt_broker.Broker.Steps.{OnlySteps, Reach-trans, handle_events-Reach, run-Reach}
use culex_mqtt_broker.Broker.Maintenance.{Reach-IsValid, maintain_ends}

-- What an event asks of the server: that it closes a connection that is broken in any of three ways,
-- accepts one on its own descriptor, or reads from one.
pub data Serves (server : Server) : Event → Manager → Manager → Type 0 where
  closes :
      (ev : Event) (m m' : Manager)
      → (ev.hang_up ≡ true) ⊎ (ev.error ≡ true) ⊎ (ev.read_hang_up ≡ true)
      → server.close_connection ev.fd m ≡ done m'
      → Serves server ev m m'
  accepts :
      (ev : Event) (m m' : Manager)
      → (ev.hang_up ≡ false) × (ev.error ≡ false) × (ev.read_hang_up ≡ false)
      → ev.fd ≡ server.server_fd
      → server.new_connection m ≡ done m'
      → Serves server ev m m'
  reads :
      (ev : Event) (m m' : Manager)
      → (ev.hang_up ≡ false) × (ev.error ≡ false) × (ev.read_hang_up ≡ false)
      → ev.fd ≢ server.server_fd
      → ev.readable ≡ true
      → server.session_event ev.fd m ≡ done m'
      → Serves server ev m m'
  passes :
      (ev : Event) (m : Manager)
      → (ev.hang_up ≡ false) × (ev.error ≡ false) × (ev.read_hang_up ≡ false)
      → ev.fd ≢ server.server_fd
      → ev.readable ≡ false
      → Serves server ev m m

-- The events one after the other.
pub data ServesAll (server : Server) : List Event → Manager → Manager → Type 0 where
  no_event : (m : Manager) → ServesAll server [] m m
  event :
      {ev : Event} {events : List Event} {m m₁ m' : Manager}
      → Serves server ev m m₁
      → ServesAll server events m₁ m'
      → ServesAll server (ev ∷ events) m m'

handle_event-Serves :
    (server : Server) {ev : Event} {m m' : Manager}
    → Serves server ev m m'
    → handle_event server ev m ≡ done m'
unfolding handle_event
handle_event-Serves server (closes ev m m' broken e) = ground (arith, broken, e)
handle_event-Serves server (accepts ev m m' sound own e) = ground (arith, sound, own, e)
handle_event-Serves server (reads ev m m' sound other readable e) =
    ground (arith, sound, other, readable, e)
handle_event-Serves server (passes ev m sound other silent) = ground (arith, sound, other, silent)

handle_events-ServesAll :
    (server : Server) {events : List Event} {m m' : Manager}
    → ServesAll server events m m'
    → handle_events server events m ≡ done m'
unfolding handle_events
handle_events-ServesAll server (no_event m) = refl
handle_events-ServesAll server (event {ev} {events} first rest) =
    ap (λ r. r >>= handle_events server events) (handle_event-Serves server first)
    ∙ handle_events-ServesAll server rest

bind_done : (r : Outcome Manager) → (r >>= λ m. done m) ≡ r
bind_done (done m) = refl
bind_done (throws x) = refl
bind_done faults = refl
bind_done stuck = refl

-- How a round is to end, if it does with a state: the invariant holds, no entry of the expiry heap is due, and
-- the retransmission heap is empty or its top waits, or belongs to a session or a packet that is gone.
-- A loop without an end is excluded; of an exception and of undefined behaviour nothing is said.
abbrev pub IsInTime : Outcome Manager → Type 0
IsInTime (done m) = IsValid m × AllLate m.now m.expiry_heap × IsAtRest m
IsInTime (throws x) = Unit
IsInTime faults = Unit
IsInTime stuck = ⊥

module _ (c : Core) (host : Host) where
  maintain_late :
      (m m' : Manager)
      → IsValid m
      → maintain c host m ≡ done m'
      → IsValid m' × AllLate m'.now m'.expiry_heap × IsAtRest m'
  unfolding maintain
  maintain_late m m' v e =
      let (m₁, expired, e₁) = >>=-eq-done (process_expired_sessions (length m.expiry_heap) m) _ e in
      let (clock, late) = process_expired_late (length m.expiry_heap) m m₁ v expired in
      let v₁ = process_expired_sessions-IsValid _ m m₁ expired v in
      let fuel = suc (length m₁.retransmit_heap) in
      let ((clock', timers), rests) = process_retransmissions_rests c host fuel m₁ m' e₁ in
      (
        process_retransmissions-IsValid c host fuel m₁ m' e₁ v₁,
        subst (λ t. AllLate t m'.expiry_heap) (sym (clock' ∙ clock))
            (subst (AllLate m.now) (sym timers) late),
        rests,
      )

  as-IsInTime :
      (r : Outcome Manager)
      → r ≢ stuck
      → ((m : Manager) → r ≡ done m → IsValid m × AllLate m.now m.expiry_heap × IsAtRest m)
      → IsInTime r
  as-IsInTime (done m) ends good = good m refl
  as-IsInTime (throws x) ends good = tt
  as-IsInTime faults ends good = tt
  as-IsInTime stuck ends good = ends refl

  module _ (server : Server) where
    -- One more round of the loop comes last.
    run_last :
        (n : ℕ) (m m' : Manager)
        → run c host server n m ≡ done m'
        → run c host server (suc n) m ≡ round c host server m'
    unfolding run
    run_last zero m m' e =
        let same : m ≡ m' = done-injective m m' e in
        bind_done (round c host server m) ∙ ap (round c host server) same
    run_last (suc n) m m' e =
        let (m₁, first, rest) = >>=-eq-done (round c host server m) _ e in
        ap (λ r. r >>= run c host server (suc n)) first ∙ run_last n m₁ m' rest

    round_served :
        (events : List Event) (m m₁ m₂ : Manager)
        → server.poll (get_next_timeout_ms m) m ≡ done (events, m₁)
        → handle_events server events m₁ ≡ done m₂
        → round c host server m ≡ maintain c host m₂
    unfolding round
    round_served events m m₁ m₂ polled handled = rw (polled, handled) refl

    -- Let the broker have gone through any number of rounds from its start, and let `poll`, called with
    -- the timeout that `getNextTimeoutMs` gives, report events, each of which the server then serves: it
    -- closes a connection that has an error or has hung up, wholly or for reading; otherwise it accepts
    -- on its own descriptor, reads from any other descriptor that is readable, and passes the rest. If
    -- the functions of culex-core work on the manager by steps of the transition system, and the
    -- sessions of all entries of the expiry heap are there behind the events, the round comes to what
    -- `processExpiredSessions` and `processRetransmissions` make of the state behind the events. It does
    -- not go on for ever, and if it ends without an exception and undefined behaviour, the invariant
    -- holds, no entry of the expiry heap is due, and the retransmission heap is empty or its top is not
    -- due or has lost its session or its packet.
    pub run-IsInTime :
        (n now : ℕ) (events : List Event) (m m₁ m₂ : Manager)
        → OnlySteps c host server
        → run c host server n (new_manager now) ≡ done m
        → server.poll (get_next_timeout_ms m) m ≡ done (events, m₁)
        → ServesAll server events m₁ m₂
        → AllLive m₂ m₂.expiry_heap
        → (run c host server (suc n) (new_manager now) ≡ maintain c host m₂)
          × IsInTime (run c host server (suc n) (new_manager now))
    run-IsInTime n now events m m₁ m₂ only before polled served live =
        let handled = handle_events-ServesAll server served in
        let is_round =
          run_last n (new_manager now) m before ∙ round_served events m m₁ m₂ polled handled in
        let reached =
          Reach-trans c host (run-Reach c host server only n (new_manager now) m before) (
            Reach-trans c host (only.poll _ m (events, m₁) polled)
              (handle_events-Reach c host server only events m₁ m₂ handled)) in
        (
          is_round,
          subst IsInTime (sym is_round) (
              as-IsInTime (maintain c host m₂) (maintain_ends c host now reached live)
                (λ m'. maintain_late m₂ m' (Reach-IsValid c host now reached))),
        )
