-- ===== src/Manager/Waiting.antt =====
-- `getNextTimeoutMs` of mqtt/src/managesession.cpp: how long the loop waits.
use culex_mqtt_broker.Common.{ℕ, ◌+◌, ◌-◌, ◌^◌, ◌≤◌, ◌<◌, ◌≡◌, List, ◌∷◌, All, All-map, arith}
use culex_mqtt_broker.Manager.{Manager, ExpiryEntry}
use culex_mqtt_broker.Manager.Heap.{IsSorted}
use culex_mqtt_broker.Manager.Timers.{milliseconds, get_next_timeout_ms}

due_difference :
    (m : Manager) (e : ExpiryEntry) (h : List ExpiryEntry)
    → m.expiry_heap ≡ e ∷ h
    → e.expiry_ms < m.now + 2 ^ 31
    → get_next_timeout_ms m ≡ milliseconds (e.expiry_ms - m.now)
unfolding get_next_timeout_ms
due_difference m e h top near = ground arith

-- If the earliest time in an expiry heap in order is less than 2 ^ 31 ms ahead, `getNextTimeoutMs`
-- gives the number of milliseconds after which the top is due, and no entry that is not due yet
-- becomes due within less.
pub get_next_timeout_exact :
    (m : Manager) (e : ExpiryEntry) (h : List ExpiryEntry)
    → m.expiry_heap ≡ e ∷ h
    → IsSorted (λ (x : ExpiryEntry). x.expiry_ms) (e ∷ h)
    → e.expiry_ms < m.now + 2 ^ 31
    → (t : ℕ) × (get_next_timeout_ms m ≡ milliseconds t)
      × (e.expiry_ms ≤ m.now + t)
      × All (λ x. t ≤ x.expiry_ms - m.now) (e ∷ h)
get_next_timeout_exact m e h top sorted near = (
  e.expiry_ms - m.now,
  due_difference m e h top near,
  omega arith,
  (
    omega arith,
    All-map _ _ h (λ (x : ExpiryEntry) (later : e.expiry_ms ≤ x.expiry_ms). omega arith) sorted.0,
  ),
)
