-- ===== src/Broker/Maintenance.antt =====
-- The invariant of the manager in every state that the broker reaches, and the end of the work that a
-- round of mqtt/include/broker.h does behind its events.
use culex_mqtt_broker.Common.{ℕ, ◌≢◌, stuck, >>=-ne-stuck, length}
use culex_mqtt_broker.Core.{Core}
use culex_mqtt_broker.Build.{Host}
use culex_mqtt_broker.Manager.{Manager}
use culex_mqtt_broker.Manager.Timers.{process_expired_sessions}
use culex_mqtt_broker.Manager.Expiry.{AllLive, process_expired_ends}
use culex_mqtt_broker.Manager.Invariant.{IsValid}
use culex_mqtt_broker.Manager.Invariant.Kept.{add_session-Kept, remove_session-Kept}
use culex_mqtt_broker.Manager.Invariant.Timers.{process_expired_sessions-IsValid}
use culex_mqtt_broker.Manager.Invariant.Retransmission.{
  process_retransmissions-IsValid, process_retransmissions-ne-stuck,
}
use culex_mqtt_broker.Session.Preservation.{parse_data-IsValid}
use culex_mqtt_broker.Broker.{new_manager, maintain}
use culex_mqtt_broker.Broker.Steps.{
  Step, Reach, accept, close, hold, release, receive, wait, expire, retransmit, here, next,
}

pub new_manager-IsValid : (now : ℕ) → IsValid (new_manager now)
new_manager-IsValid now = record { clients = tt; expiries = tt; retries = tt; connections = tt }

module _ (c : Core) (host : Host) where
  Step-IsValid : {m m' : Manager} → Step c host m m' → IsValid m → IsValid m'
  Step-IsValid (accept fd m) v = (add_session-Kept fd m).valid v
  Step-IsValid (close fd m) v = (remove_session-Kept fd m).valid v
  Step-IsValid (hold fd s m there) v = record {
    clients = v.clients;
    expiries = v.expiries;
    retries = v.retries;
    connections = v.connections;
  }
  Step-IsValid (release l r s m there) v = record {
    clients = v.clients;
    expiries = v.expiries;
    retries = v.retries;
    connections = v.connections;
  }
  Step-IsValid (receive self recv m r held e) v = parse_data-IsValid c host self recv m r e v
  Step-IsValid (wait later m h) v = record {
    clients = v.clients;
    expiries = v.expiries;
    retries = v.retries;
    connections = v.connections;
  }
  Step-IsValid (expire fuel m m' e) v = process_expired_sessions-IsValid fuel m m' e v
  Step-IsValid (retransmit fuel m m' e) v = process_retransmissions-IsValid c host fuel m m' e v

  -- In every state that the broker reaches from its start, in any order of accepting, closing,
  -- receiving any bytes, waiting, expiring and retransmitting, the manager satisfies its invariant.
  pub Reach-IsValid : (now : ℕ) {m : Manager} → Reach c host (new_manager now) m → IsValid m
  Reach-IsValid now here = new_manager-IsValid now
  Reach-IsValid now (next r step) = Step-IsValid step (Reach-IsValid now r)

  expired-ne-stuck :
      (m : Manager)
      → AllLive m m.expiry_heap
      → process_expired_sessions (length m.expiry_heap) m ≢ stuck
  expired-ne-stuck m live = let (s, ended, sorted, waits) = process_expired_ends m live in λ e. cc

  -- In every state that the broker reaches, the work of a round behind its events comes to an end, if
  -- the sessions of all entries of the expiry heap are there.
  pub maintain_ends :
      (now : ℕ) {m : Manager}
      → Reach c host (new_manager now) m
      → AllLive m m.expiry_heap
      → maintain c host m ≢ stuck
  unfolding maintain
  maintain_ends now {m} reached live =
      >>=-ne-stuck (process_expired_sessions (length m.expiry_heap) m) _ (expired-ne-stuck m live)
        (λ m₁ e.
          process_retransmissions-ne-stuck c host m₁
            (process_expired_sessions-IsValid _ m m₁ e (Reach-IsValid now reached)))
