-- ===== src/Manager/Invariant/Timers.antt =====
-- `processExpiredSessions` keeps the invariant.
use culex_mqtt_broker.Common.{
  ℕ, zero, suc, ◌≡◌, refl, sym, ◌∙◌, inl, inr, false, List, [], ◌∷◌, ltb, Bool-cases, if-cases,
  Option-cases, none-or-some, All, All-map, done, stuck, >>=-eq-done, done-injective, arith,
}
use mathlib.Core.Path.{subst}
use culex_mqtt_broker.ClientSession.{ClientSession}
use culex_mqtt_broker.Manager.{Manager, ExpiryEntry, lock_client, lock_session, force_disconnect}
use culex_mqtt_broker.Manager.Heap.{IsSorted}
use culex_mqtt_broker.Manager.Timers.{
  expiry_of, Sweep, sort_client, sweep_loop, disconnect_expired, disconnect_all, schedule_expiry,
  schedule_all, process_expired_sessions,
}
use culex_mqtt_broker.Manager.Expiry.{All-snoc, sweep_loop_dead, sweep_loop_waits, sweep_loop_live}
use culex_mqtt_broker.Manager.Invariant.{IsValid}
use culex_mqtt_broker.Manager.Invariant.Clients.{plain-IsUpdate}
use culex_mqtt_broker.Manager.Invariant.Registry.{find_ref-Has}
use culex_mqtt_broker.Manager.Invariant.Kept.{
  Kept, Kept-refl, Kept-trans, Writable, Writable-Kept, Has-Writable, write_ready-Kept,
  remove_from_registry-Kept, force_disconnect-Kept, schedule_expiry-Kept, expiry_heap-Kept,
}

-- The gathered sessions may be written, and the heap that is left is in order.
record IsReady (m : Manager) (s : Sweep) : Type 0 where
  leaving : All (Writable m) s.to_disconnect
  staying : All (Writable m) s.new_entries
  ordered : IsSorted (λ e. e.expiry_ms) s.heap

sort_client-IsReady :
    (m : Manager) (cs : ClientSession) (s : Sweep)
    → Writable m cs
    → IsReady m s
    → IsReady m (sort_client m.now cs s)
sort_client-IsReady m cs s w h =
    if-cases (IsReady m) (ltb m.now (expiry_of cs)) _ _
      (λ active. record {
        leaving = h.leaving;
        staying = All-snoc (Writable m) s.new_entries cs h.staying w;
        ordered = h.ordered;
      })
      (λ due.
        if-cases (IsReady m) cs.connected _ _
          (λ up. record {
            leaving = All-snoc (Writable m) s.to_disconnect cs h.leaving w;
            staying = h.staying;
            ordered = h.ordered;
          })
          (λ down. h))

sweep_loop-IsReady :
    (fuel : ℕ) (m : Manager) (heap : List ExpiryEntry) (s s' : Sweep)
    → IsValid m
    → IsSorted (λ e. e.expiry_ms) heap
    → IsReady m s
    → sweep_loop fuel m heap s ≡ done s'
    → IsReady m s'
unfolding sweep_loop
sweep_loop-IsReady fuel m [] s s' v sorted h e =
    subst (IsReady m) (done-injective _ _ e)
      (record { leaving = h.leaving; staying = h.staying; ordered = tt })
sweep_loop-IsReady zero m (x ∷ heap) s s' v sorted h e = cc
sweep_loop-IsReady (suc fuel) m (x ∷ heap) s s' v sorted h e =
    elim (Bool-cases (ltb m.now x.expiry_ms)) [
      | inl waits ↦
          subst (IsReady m) (done-injective _ _ (sym (sweep_loop_waits fuel m x heap s waits) ∙ e))
            (record { leaving = h.leaving; staying = h.staying; ordered = sorted })
      | inr due ↦ elim (none-or-some (lock_client x.session m)) [
        | inl gone ↦
            let hangs : sweep_loop (suc fuel) m (x ∷ heap) s ≡ stuck =
              sweep_loop_dead (suc fuel) m x heap s (ground arith) gone in
            cc
        | inr (cs, there) ↦
            sweep_loop-IsReady fuel m heap (sort_client m.now cs s) s' v sorted.1
              (sort_client-IsReady m cs s
                (Has-Writable m cs v (find_ref-Has x.session cs m.registry there)) h)
              (sym (sweep_loop_live fuel m x heap s cs due there) ∙ e)
      ]
    ]

disconnect_expired-Kept :
    (cs : ClientSession) (m : Manager) → Writable m cs → Kept m (disconnect_expired cs m)
unfolding disconnect_expired
disconnect_expired-Kept cs m w =
    Option-cases (Kept m) (lock_session cs.session m) _ _ (λ gone. Kept-refl m)
      (λ transport there.
        let cut = force_disconnect-Kept transport m in
        let ready = Writable-Kept {cs = cs} cut w in
        if-cases (Kept m) cs.cleansession _ _
          (λ clean.
            Kept-trans cut (remove_from_registry-Kept cs.client_id (force_disconnect transport m)))
          (λ kept. Kept-trans cut (
            write_ready-Kept (force_disconnect transport m) (record cs { connected = false })
              (record {
                valid =
                    (plain-IsUpdate {old = cs} {new = record cs { connected = false }} refl refl
                        refl refl refl).keeps
                      _ ready.valid;
                fits = ready.fits;
              }))))

disconnect_all-Kept :
    (l : List ClientSession) (m : Manager) → All (Writable m) l → Kept m (disconnect_all l m)
unfolding disconnect_all
disconnect_all-Kept [] m w = Kept-refl m
disconnect_all-Kept (cs ∷ l) m w =
    let first = disconnect_expired-Kept cs m w.0 in
    Kept-trans first (
      disconnect_all-Kept l (disconnect_expired cs m)
        (All-map _ _ l (λ (x : ClientSession) (h : Writable m x). Writable-Kept first h) w.1))

schedule_all-Kept :
    (l : List ClientSession) (m : Manager) → All (Writable m) l → Kept m (schedule_all l m)
unfolding schedule_all
schedule_all-Kept [] m w = Kept-refl m
schedule_all-Kept (cs ∷ l) m w =
    let first = schedule_expiry-Kept cs m w.0 in
    Kept-trans first (
      schedule_all-Kept l (schedule_expiry cs m)
        (All-map _ _ l (λ (x : ClientSession) (h : Writable m x). Writable-Kept first h) w.1))

-- `processExpiredSessions` keeps the invariant.
pub process_expired_sessions-IsValid :
    (fuel : ℕ) (m m' : Manager) → process_expired_sessions fuel m ≡ done m' → IsValid m → IsValid m'
unfolding process_expired_sessions
process_expired_sessions-IsValid fuel m m' e v =
    let start : Sweep = record { heap = []; to_disconnect = []; new_entries = [] } in
    let (s, swept, end) = >>=-eq-done (sweep_loop fuel m m.expiry_heap start) _ e in
    let r =
      sweep_loop-IsReady fuel m m.expiry_heap start s v v.expiries
        (record { leaving = tt; staying = tt; ordered = tt }) swept in
    let popped : Kept m (record m { expiry_heap = s.heap }) =
      expiry_heap-Kept m s.heap (λ _. r.ordered) in
    let left : All (Writable (record m { expiry_heap = s.heap })) s.to_disconnect =
      All-map _ _ s.to_disconnect (λ (x : ClientSession) (w : Writable m x). Writable-Kept popped w)
        r.leaving in
    let cut =
      Kept-trans popped
        (disconnect_all-Kept s.to_disconnect (record m { expiry_heap = s.heap }) left) in
    let rest =
      schedule_all-Kept s.new_entries
        (disconnect_all s.to_disconnect (record m { expiry_heap = s.heap }))
        (All-map _ _ s.new_entries (λ (x : ClientSession) (w : Writable m x). Writable-Kept cut w)
          r.staying) in
    subst IsValid (done-injective _ _ end) ((Kept-trans cut rest).valid v)
