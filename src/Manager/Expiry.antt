-- ===== src/Manager/Expiry.antt =====
-- The expiry heap and the sweep over it.
use culex_mqtt_broker.Common.{
  ℕ, zero, suc, ◌≤◌, ◌<◌, ◌≡◌, ◌≢◌, refl, sym, inl, inr, Bool, true, false, List, [], ◌∷◌, ◌++◌,
  Option, none, some, ltb, if◌then◌else◌, Bool-cases, Outcome, done, stuck, length, All, arith,
}
use mathlib.Core.Path.{subst}
use culex_mqtt_broker.ClientSession.{ClientSession}
use culex_mqtt_broker.Manager.{Manager, ExpiryEntry, lock_client}
use culex_mqtt_broker.Manager.Timers.{
  expiry_of, schedule_all, disconnect_all, Sweep, sort_client, sweep_loop, process_expired_sessions,
}

pub sweep_loop_dead :
    (fuel : ℕ) (m : Manager) (e : ExpiryEntry) (h : List ExpiryEntry) (s : Sweep)
    → e.expiry_ms ≤ m.now
    → lock_client e.session m ≡ none
    → sweep_loop fuel m (e ∷ h) s ≡ stuck
unfolding sweep_loop
sweep_loop_dead zero m e h s due dead = refl
sweep_loop_dead (suc fuel) m e h s due dead = ground (arith, sweep_loop_dead fuel m e h s due dead)

sweep_loop_dead_top :
    (fuel : ℕ) (m : Manager) (e : ExpiryEntry) (h heap : List ExpiryEntry) (s : Sweep)
    → heap ≡ e ∷ h
    → e.expiry_ms ≤ m.now
    → lock_client e.session m ≡ none
    → sweep_loop fuel m heap s ≡ stuck
sweep_loop_dead_top fuel m e h heap s top due dead = rw (top, sweep_loop_dead fuel m e h s due dead)

-- If the entry on top of the expiry heap is due and its session is gone, `processExpiredSessions`
-- does not come to an end, however many rounds it is given.
pub process_expired_hangs :
    (fuel : ℕ) (m : Manager) (e : ExpiryEntry) (h : List ExpiryEntry)
    → m.expiry_heap ≡ e ∷ h
    → e.expiry_ms ≤ m.now
    → lock_client e.session m ≡ none
    → process_expired_sessions fuel m ≡ stuck
unfolding process_expired_sessions
process_expired_hangs fuel m e h top due dead =
    rw (sweep_loop_dead_top fuel m e h m.expiry_heap _ top due dead)

-- The sessions of the entries are still there.
unfoldable pub AllLive : Manager → List ExpiryEntry → Type 0
AllLive m h = All (λ e. lock_client e.session m ≢ none) h

-- The sessions gathered for disconnection are connected and have been silent for one and a half times
-- their keep-alive; those gathered for rescheduling have not.
pub record IsSorted (now : ℕ) (s : Sweep) : Type 0 where
  pub silent : All (λ cs. (cs.connected ≡ true) × (expiry_of cs ≤ now)) s.to_disconnect
  pub active : All (λ cs. now < expiry_of cs) s.new_entries

pub All-snoc {ℓ κ} :
    {A : Type ℓ} (P : A → Type κ) (l : List A) (a : A) → All P l → P a → All P (l ++ a ∷ [])
All-snoc P [] a h p = (p, tt)
All-snoc P (b ∷ l) a h p = (h.0, All-snoc P l a h.1 p)

if-true {ℓ} : {A : Type ℓ} (b : Bool) (x y : A) → b ≡ true → (if b then x else y) ≡ x
if-true true x y h = refl
if-true false x y h = cc

if-false {ℓ} : {A : Type ℓ} (b : Bool) (x y : A) → b ≡ false → (if b then x else y) ≡ y
if-false true x y h = cc
if-false false x y h = refl

sort_client-IsSorted :
    (now : ℕ) (cs : ClientSession) (s : Sweep)
    → IsSorted now s
    → IsSorted now (sort_client now cs s)
sort_client-IsSorted now cs s h = elim (Bool-cases (ltb now (expiry_of cs))) [
  | inl active ↦
      subst (IsSorted now) (sym (if-true _ _ _ active))
        (record { silent = h.silent; active = All-snoc _ s.new_entries cs h.active (ground arith) })
  | inr due ↦ subst (IsSorted now) (sym (if-false _ _ _ due)) (elim (Bool-cases cs.connected) [
    | inl up ↦ subst (IsSorted now) (sym (if-true _ _ _ up)) (record {
      silent = All-snoc _ s.to_disconnect cs h.silent (up, ground arith);
      active = h.active;
    })
    | inr down ↦ subst (IsSorted now) (sym (if-false _ _ _ down)) h
  ])
]

-- The entry on top is not due.
unfoldable pub TopWaits : ℕ → List ExpiryEntry → Type 0
TopWaits now [] = Unit
TopWaits now (e ∷ h) = now < e.expiry_ms

-- What a sweep is to come to.
abbrev pub IsSwept : ℕ → Outcome Sweep → Type 0
IsSwept now r = (s : Sweep) × (r ≡ done s) × IsSorted now s × TopWaits now s.heap

pub sweep_loop_waits :
    (fuel : ℕ) (m : Manager) (e : ExpiryEntry) (h : List ExpiryEntry) (s : Sweep)
    → ltb m.now e.expiry_ms ≡ true
    → sweep_loop (suc fuel) m (e ∷ h) s ≡ done (record s { heap = e ∷ h })
unfolding sweep_loop
sweep_loop_waits fuel m e h s waits = ground arith

pub sweep_loop_live :
    (fuel : ℕ) (m : Manager) (e : ExpiryEntry) (h : List ExpiryEntry) (s : Sweep)
    (cs : ClientSession)
    → ltb m.now e.expiry_ms ≡ false
    → lock_client e.session m ≡ some cs
    → sweep_loop (suc fuel) m (e ∷ h) s ≡ sweep_loop fuel m h (sort_client m.now cs s)
unfolding sweep_loop
sweep_loop_live fuel m e h s cs due live = ground arith

some-or-none {ℓ} : {A : Type ℓ} (o : Option A) → o ≢ none → (a : A) × (o ≡ some a)
some-or-none none h = absurd (h refl)
some-or-none (some a) h = (a, refl)

sweep_loop-IsSwept :
    (fuel : ℕ) (m : Manager) (heap : List ExpiryEntry) (s : Sweep)
    → length heap ≤ fuel
    → AllLive m heap
    → IsSorted m.now s
    → IsSwept m.now (sweep_loop fuel m heap s)
unfolding sweep_loop AllLive TopWaits
sweep_loop-IsSwept fuel m [] s enough live sorted =
    (record s { heap = [] }, refl, record { silent = sorted.silent; active = sorted.active }, tt)
sweep_loop-IsSwept zero m (e ∷ h) s enough live sorted = absurd (omega arith)
sweep_loop-IsSwept (suc fuel) m (e ∷ h) s enough live sorted =
    elim (Bool-cases (ltb m.now e.expiry_ms)) [
      | inl waits ↦ (
        record s { heap = e ∷ h },
        sweep_loop_waits fuel m e h s waits,
        record { silent = sorted.silent; active = sorted.active },
        ground arith,
      )
      | inr due ↦
          let (cs, there) = some-or-none (lock_client e.session m) live.0 in
          subst (IsSwept m.now) (sym (sweep_loop_live fuel m e h s cs due there)) (
            sweep_loop-IsSwept fuel m h (sort_client m.now cs s) (omega arith) live.1
              (sort_client-IsSorted m.now cs s sorted))
    ]

-- If the sessions of all entries of the expiry heap are there, `processExpiredSessions` ends within as
-- many rounds as the heap has entries. Every session that it disconnects is connected and has been
-- silent for one and a half times its keep-alive, every one that it reschedules has not, and the top
-- of the heap that the loop leaves is not due.
pub process_expired_ends :
    (m : Manager)
    → AllLive m m.expiry_heap
    → (s : Sweep) × (process_expired_sessions (length m.expiry_heap) m
        ≡ done (
            schedule_all s.new_entries
              (disconnect_all s.to_disconnect (record m { expiry_heap = s.heap }))))
      × IsSorted m.now s
      × TopWaits m.now s.heap
unfolding process_expired_sessions
process_expired_ends m live =
    let start : Sweep = record { heap = []; to_disconnect = []; new_entries = [] } in
    let (s, ended, sorted, waits) =
      sweep_loop-IsSwept (length m.expiry_heap) m m.expiry_heap start (omega arith) live
        (record { silent = tt; active = tt }) in
    (s, rw (ended), sorted, waits)
