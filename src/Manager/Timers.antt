-- ===== src/Manager/Timers.antt =====
-- The keep-alive timers of `ManageSessions`: `scheduleExpiry`, `getNextTimeoutMs` and
-- `processExpiredSessions` of mqtt/src/managesession.cpp.
use culex_mqtt_broker.Common.{
  ℕ, zero, suc, ◌+◌, ◌-◌, ◌*◌, ◌%◌, ◌^◌, true, false, List, [], ◌∷◌, ◌++◌, none, some, ltb, leb,
  nat_beq, if◌then◌else◌, Outcome, done, stuck, ◌>>=◌,
}
use culex_mqtt_broker.ClientSession.{ClientSession}
use culex_mqtt_broker.Manager.Heap.{push}
use culex_mqtt_broker.Manager.{
  Manager, ExpiryEntry, lock_client, write_client, lock_session, force_disconnect,
  remove_from_registry,
}

-- `m_expiryHeap.push`
abbrev pub push_expiry : ExpiryEntry → List ExpiryEntry → List ExpiryEntry
push_expiry = push (λ e. e.expiry_ms)

-- `cs->last_activity + (cs->keep_alive * 1500)`
abbrev pub expiry_of : ClientSession → ℕ
expiry_of cs = cs.last_activity + cs.keep_alive * 1500

unfoldable pub schedule_expiry : ClientSession → Manager → Manager
schedule_expiry cs m =
    if nat_beq cs.keep_alive 0
    then m
    else let written = write_client (record cs { expiry_ms = expiry_of cs }) m in
      record written {
        expiry_heap =
            push_expiry (record { expiry_ms = expiry_of cs; session = cs.ref }) m.expiry_heap;
      }

-- The timeout for `poll`: -1, or a number of milliseconds. A difference of 2 ^ 31 or more does not
-- fit the `int` that is returned, and is wrapped.
pub data Timeout : Type 0 where
  forever : Timeout
  milliseconds : ℕ → Timeout
  negative : ℕ → Timeout

abbrev pub as_int : ℕ → Timeout
as_int diff =
    let low = diff % 2 ^ 32 in
    if ltb low (2 ^ 31) then milliseconds low else negative (2 ^ 32 - low)

unfoldable pub get_next_timeout_ms : Manager → Timeout
get_next_timeout_ms m = elim m.expiry_heap [
  | [] ↦ forever
  | e ∷ h ↦ if leb e.expiry_ms m.now then milliseconds 0 else as_int (e.expiry_ms - m.now)
]

-- What the loop of `processExpiredSessions` has gathered: the heap, `to_disconnect` and
-- `new_entries`.
pub record Sweep : Type 0 where
  pub heap : List ExpiryEntry
  pub to_disconnect : List ClientSession
  pub new_entries : List ClientSession

abbrev pub sort_client : ℕ → ClientSession → Sweep → Sweep
sort_client now cs s =
    if ltb now (expiry_of cs)
    then record s { new_entries = s.new_entries ++ cs ∷ [] }
    else if cs.connected
    then record s { to_disconnect = s.to_disconnect ++ cs ∷ [] }
    else s

-- The loop. An entry that is due and whose session is gone is not popped, so the next round finds it
-- again.
unfoldable pub sweep_loop : ℕ → Manager → List ExpiryEntry → Sweep → Outcome Sweep
sweep_loop fuel m [] s = done (record s { heap = [] })
sweep_loop zero m (e ∷ h) s = stuck
sweep_loop (suc fuel) m (e ∷ h) s = elim (ltb m.now e.expiry_ms) [
  | true ↦ done (record s { heap = e ∷ h })
  | false ↦ elim (lock_client e.session m) [
    | none ↦ sweep_loop fuel m (e ∷ h) s
    | some cs ↦ sweep_loop fuel m h (sort_client m.now cs s)
  ]
]

-- The second loop. Nothing before it changes the fields of the sessions that the first has gathered.
unfoldable pub disconnect_expired : ClientSession → Manager → Manager
unfolding force_disconnect remove_from_registry lock_session
disconnect_expired cs m = elim (lock_session cs.session m) [
  | none ↦ m
  | some transport ↦
      let gone = force_disconnect transport m in
      if cs.cleansession
      then remove_from_registry cs.client_id gone
      else write_client (record cs { connected = false }) gone
]

unfoldable pub disconnect_all : List ClientSession → Manager → Manager
disconnect_all [] m = m
disconnect_all (cs ∷ l) m = disconnect_all l (disconnect_expired cs m)

unfoldable pub schedule_all : List ClientSession → Manager → Manager
unfolding schedule_expiry
schedule_all [] m = m
schedule_all (cs ∷ l) m = schedule_all l (schedule_expiry cs m)

unfoldable pub process_expired_sessions : ℕ → Manager → Outcome Manager
unfolding sweep_loop disconnect_all schedule_all
process_expired_sessions fuel m = do
  s ← sweep_loop fuel m m.expiry_heap (record { heap = []; to_disconnect = []; new_entries = [] })
  done (
      schedule_all s.new_entries
        (disconnect_all s.to_disconnect (record m { expiry_heap = s.heap })))
