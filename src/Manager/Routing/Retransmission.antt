-- ===== src/Manager/Routing/Retransmission.antt =====
-- What `processRetransmissions` of mqtt/src/managesession.cpp does with the top of its heap.
use culex_mqtt_broker.Common.{ℕ, suc, ◌<◌, ◌≡◌, ◌⊎◌, inl, inr, List, ◌∷◌, none, some, done, arith}
use culex_mqtt_broker.Core.{Core}
use culex_mqtt_broker.Build.{Host}
use culex_mqtt_broker.ClientSession.{ClientSession, get_packet}
use culex_mqtt_broker.Manager.{Manager, RetransmitEntry, lock_client}
use culex_mqtt_broker.Manager.Routing.{retransmit_top, process_retransmissions}

-- The entry waits, its session is gone, or its session does not hold its packet any more, as after an
-- acknowledgement.
abbrev pub IsBlocked : Manager → RetransmitEntry → Type 0
IsBlocked m e =
    (m.now < e.retry_ms)
    ⊎ (lock_client e.session m ≡ none)
    ⊎ ((cs : ClientSession) × (lock_client e.session m ≡ some cs)
        × ((get_packet e.packet_id e.packet_type cs).pkt_len ≡ 0))

module _ (c : Core) (host : Host) where
  pub retransmit_top_blocked :
      (m : Manager) (e : RetransmitEntry) → IsBlocked m e → retransmit_top c host e m ≡ done none
  unfolding retransmit_top
  retransmit_top_blocked m e (inl waits) = ground arith
  retransmit_top_blocked m e (inr (inl gone)) = ground arith
  retransmit_top_blocked m e (inr (inr (cs, there, empty))) = ground arith

  pub process_retransmissions_top :
      (fuel : ℕ) (m : Manager) (e : RetransmitEntry) (h heap : List RetransmitEntry)
      → m.retransmit_heap ≡ e ∷ h
      → retransmit_top c host e m ≡ done none
      → process_retransmissions c host (suc fuel) m ≡ done m
  unfolding process_retransmissions
  process_retransmissions_top fuel m e h heap top stop = ground (arith, top, stop)

  -- If the entry on top of the retransmission heap is not due, its session is gone, or its session no
  -- longer holds the packet, `processRetransmissions` changes nothing: the entry stays on top, and the
  -- entries below it are not looked at.
  pub process_retransmissions_blocked :
      (fuel : ℕ) (m : Manager) (e : RetransmitEntry) (h : List RetransmitEntry)
      → m.retransmit_heap ≡ e ∷ h
      → IsBlocked m e
      → process_retransmissions c host (suc fuel) m ≡ done m
  process_retransmissions_blocked fuel m e h top blocked =
      process_retransmissions_top fuel m e h m.retransmit_heap top
        (retransmit_top_blocked m e blocked)
