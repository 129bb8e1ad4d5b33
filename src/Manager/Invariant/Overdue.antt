-- ===== src/Manager/Invariant/Overdue.antt =====
-- What `processExpiredSessions` and `processRetransmissions` of mqtt/src/managesession.cpp leave on
-- their heaps.
use culex_mqtt_broker.Common.{
  ℕ, zero, suc, ◌<◌, ◌≤◌, ◌≡◌, ◌⊎◌, refl, sym, ◌∙◌, inl, inr, List, [], ◌∷◌, ltb, leb, nat_beq,
  Option, none, some, Bool-cases, none-or-some, nil-or-cons, if-cases, Option-cases, All, All-map,
  Outcome, done, stuck, >>=-eq-done, done-injective, arith,
}
use mathlib.Core.Path.{subst}
use culex_mqtt_broker.Core.{Core}
use culex_mqtt_broker.Build.{Host}
use culex_mqtt_broker.ClientSession.{ClientSession, get_packet}
use culex_mqtt_broker.Manager.{Manager, ExpiryEntry, RetransmitEntry, lock_client, force_disconnect}
use culex_mqtt_broker.Manager.Heap.{IsSorted, push-All}
use culex_mqtt_broker.Manager.Timers.{
  expiry_of, Sweep, sort_client, sweep_loop, disconnect_expired, disconnect_all, schedule_expiry,
  schedule_all, process_expired_sessions,
}
use culex_mqtt_broker.Manager.Expiry.{All-snoc, sweep_loop_dead, sweep_loop_waits, sweep_loop_live}
use culex_mqtt_broker.Manager.Routing.{retransmit, retransmit_top, process_retransmissions}
use culex_mqtt_broker.Manager.Routing.Retransmission.{IsBlocked}
use culex_mqtt_broker.Manager.Invariant.{IsValid}
use culex_mqtt_broker.Manager.Invariant.Retransmission.{
  retransmit_top-timers, process_retransmissions_empty, process_retransmissions_more, go_on,
}

abbrev pub AllLate : ℕ → List ExpiryEntry → Type 0
AllLate now h = All (λ e. now < e.expiry_ms) h

abbrev AllActive : ℕ → List ClientSession → Type 0
AllActive now l = All (λ cs. now < expiry_of cs) l

sort_client-AllActive :
    (now : ℕ) (cs : ClientSession) (s : Sweep)
    → AllActive now s.new_entries
    → AllActive now (sort_client now cs s).new_entries
sort_client-AllActive now cs s h =
    if-cases (λ (x : Sweep). AllActive now x.new_entries) (ltb now (expiry_of cs)) _ _
      (λ active. All-snoc _ s.new_entries cs h (ground (arith, active)))
      (λ due.
        if-cases (λ (x : Sweep). AllActive now x.new_entries) cs.connected _ _ (λ up. h)
          (λ down. h))

sweep_loop_late :
    (fuel : ℕ) (m : Manager) (heap : List ExpiryEntry) (s s' : Sweep)
    → IsSorted (λ e. e.expiry_ms) heap
    → AllActive m.now s.new_entries
    → sweep_loop fuel m heap s ≡ done s'
    → AllLate m.now s'.heap × AllActive m.now s'.new_entries
unfolding sweep_loop
sweep_loop_late fuel m [] s s' sorted h e =
    subst (λ (x : Sweep). AllLate m.now x.heap × AllActive m.now x.new_entries)
      (done-injective _ _ e) (tt, h)
sweep_loop_late zero m (x ∷ heap) s s' sorted h e = cc
sweep_loop_late (suc fuel) m (x ∷ heap) s s' sorted h e =
    elim (Bool-cases (ltb m.now x.expiry_ms)) [
      | inl waits ↦
          let late : m.now < x.expiry_ms = ground (arith, waits) in
          subst (λ (x : Sweep). AllLate m.now x.heap × AllActive m.now x.new_entries)
            (done-injective _ _ (sym (sweep_loop_waits fuel m x heap s waits) ∙ e))
            (
              (
                late,
                All-map _ _ heap
                    (λ (y : ExpiryEntry) (le : x.expiry_ms ≤ y.expiry_ms). omega (arith, late, le))
                    sorted.0,
              ),
              h,
            )
      | inr due ↦ elim (none-or-some (lock_client x.session m)) [
        | inl gone ↦
            let hangs : sweep_loop (suc fuel) m (x ∷ heap) s ≡ stuck =
              sweep_loop_dead (suc fuel) m x heap s (ground (arith, due)) gone in
            cc
        | inr (cs, there) ↦
            sweep_loop_late fuel m heap (sort_client m.now cs s) s' sorted.1
              (sort_client-AllActive m.now cs s h)
              (sym (sweep_loop_live fuel m x heap s cs due there) ∙ e)
      ]
    ]

abbrev IsSameTimer : Manager → Manager → Type 0
IsSameTimer m m' = (m'.now ≡ m.now) × (m'.expiry_heap ≡ m.expiry_heap)

disconnect_expired-IsSameTimer :
    (cs : ClientSession) (m : Manager) → IsSameTimer m (disconnect_expired cs m)
unfolding disconnect_expired force_disconnect
disconnect_expired-IsSameTimer cs m = ground arith

disconnect_all-IsSameTimer :
    (l : List ClientSession) (m : Manager) → IsSameTimer m (disconnect_all l m)
unfolding disconnect_all
disconnect_all-IsSameTimer [] m = (refl, refl)
disconnect_all-IsSameTimer (cs ∷ l) m =
    let first = disconnect_expired-IsSameTimer cs m in
    let rest = disconnect_all-IsSameTimer l (disconnect_expired cs m) in
    (rest.0 ∙ first.0, rest.1 ∙ first.1)

schedule_expiry_late :
    (now : ℕ) (cs : ClientSession) (m : Manager)
    → now < expiry_of cs
    → AllLate now m.expiry_heap
    → ((schedule_expiry cs m).now ≡ m.now) × AllLate now (schedule_expiry cs m).expiry_heap
unfolding schedule_expiry
schedule_expiry_late now cs m active late =
    if-cases (λ (x : Manager). (x.now ≡ m.now) × AllLate now x.expiry_heap)
      (nat_beq cs.keep_alive 0) _ _ (λ no_timer. (refl, late))
      (λ timed. (refl, push-All (λ e. e.expiry_ms) _ _ m.expiry_heap active late))

schedule_all_late :
    (now : ℕ) (l : List ClientSession) (m : Manager)
    → AllActive now l
    → AllLate now m.expiry_heap
    → ((schedule_all l m).now ≡ m.now) × AllLate now (schedule_all l m).expiry_heap
unfolding schedule_all
schedule_all_late now [] m active late = (refl, late)
schedule_all_late now (cs ∷ l) m active late =
    let (clock, first) = schedule_expiry_late now cs m active.0 late in
    let (clock', rest) = schedule_all_late now l (schedule_expiry cs m) active.1 first in
    (clock' ∙ clock, rest)

-- `processExpiredSessions` leaves nothing on its heap that is due.
pub process_expired_late :
    (fuel : ℕ) (m m' : Manager)
    → IsValid m
    → process_expired_sessions fuel m ≡ done m'
    → (m'.now ≡ m.now) × AllLate m.now m'.expiry_heap
unfolding process_expired_sessions
process_expired_late fuel m m' v e =
    let start : Sweep = record { heap = []; to_disconnect = []; new_entries = [] } in
    let (s, swept, end) = >>=-eq-done (sweep_loop fuel m m.expiry_heap start) _ e in
    let (late, active) = sweep_loop_late fuel m m.expiry_heap start s v.expiries tt swept in
    let popped : Manager = record m { expiry_heap = s.heap } in
    let (clock, same) = disconnect_all-IsSameTimer s.to_disconnect popped in
    let (clock', rest) =
      schedule_all_late m.now s.new_entries (disconnect_all s.to_disconnect popped) active
        (subst (AllLate m.now) (sym same) late) in
    subst (λ (x : Manager). (x.now ≡ m.now) × AllLate m.now x.expiry_heap) (done-injective _ _ end)
      (clock' ∙ clock, rest)

-- The retransmission heap is empty, or its top is blocked.
abbrev pub IsAtRest : Manager → Type 0
IsAtRest m =
    (m.retransmit_heap ≡ [])
    ⊎ ((e : RetransmitEntry) × (h : List RetransmitEntry) × (m.retransmit_heap ≡ e ∷ h)
        × IsBlocked m e)

module _ (c : Core) (host : Host) where
  retransmit_top_stops :
      (m : Manager) (e : RetransmitEntry) → retransmit_top c host e m ≡ done none → IsBlocked m e
  unfolding retransmit_top
  retransmit_top_stops m e stops =
      let Goal : Outcome (Option Manager) → Type 0 = λ x. x ≡ done none → IsBlocked m e in
      if-cases Goal (leb e.retry_ms m.now) _ _
        (λ due.
          Option-cases Goal (lock_client e.session m) _ _ (λ gone r. inr (inl gone))
            (λ cs there.
              let packet = get_packet e.packet_id e.packet_type cs in
              if-cases Goal (nat_beq packet.pkt_len 0) _ _
                (λ empty r. inr (inr (cs, there, ground (arith, empty))))
                (λ full r.
                  let (m₁, sent, r₁) = >>=-eq-done (retransmit c host e packet cs m) _ r in
                  let goes_on = done-injective _ _ r₁ in cc)))
        (λ early r. inl (ground (arith, early))) stops

  go_on_rests :
      (fuel : ℕ) (m m' : Manager) (e : RetransmitEntry) (h : List RetransmitEntry)
      (next : Option Manager)
      → m.retransmit_heap ≡ e ∷ h
      → retransmit_top c host e m ≡ done next
      → go_on c host fuel m next ≡ done m'
      → ((m₁ : Manager)
          → process_retransmissions c host fuel m₁ ≡ done m'
          → IsSameTimer m₁ m' × IsAtRest m')
      → IsSameTimer m m' × IsAtRest m'
  go_on_rests fuel m m' e h none top stops goes k =
      subst (λ x. IsSameTimer m x × IsAtRest x) (done-injective _ _ goes)
        ((refl, refl), inr (e, h, top, retransmit_top_stops m e stops))
  go_on_rests fuel m m' e h (some m₁) top again goes k =
      let (clock, timers) = retransmit_top-timers c host e m m₁ again in
      let (same, rests) = k m₁ goes in ((same.0 ∙ clock, same.1 ∙ timers), rests)

  -- `processRetransmissions` ends at rest, and leaves the time and the expiry heap.
  pub process_retransmissions_rests :
      (fuel : ℕ) (m m' : Manager)
      → process_retransmissions c host fuel m ≡ done m'
      → ((m'.now ≡ m.now) × (m'.expiry_heap ≡ m.expiry_heap)) × IsAtRest m'
  unfolding process_retransmissions
  process_retransmissions_rests zero m m' e = cc
  process_retransmissions_rests (suc fuel) m m' e = elim (nil-or-cons m.retransmit_heap) [
    | inl empty ↦
        subst (λ x. IsSameTimer m x × IsAtRest x)
          (done-injective _ _ (sym (process_retransmissions_empty c host fuel m empty) ∙ e))
          ((refl, refl), inl empty)
    | inr (x, h, top) ↦
        let (next, sent, goes) =
          >>=-eq-done (retransmit_top c host x m) _
            (sym (process_retransmissions_more c host fuel m x h top) ∙ e) in
        go_on_rests fuel m m' x h next top sent goes
          (λ m₁. process_retransmissions_rests fuel m₁ m')
  ]
