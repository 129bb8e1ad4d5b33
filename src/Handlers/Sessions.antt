-- ===== src/Handlers/Sessions.antt =====
-- The session of the client of a connection, as the handlers of mqtt/src/packethandlers.cpp find it and
-- write it.
use culex_mqtt_broker.Common.{
  ℕ, ◌≡◌, refl, sym, ap, ◌∙◌, true, List, [], ◌∷◌, none, some, nat_beq, nat_eq, string_eq,
  if◌then◌else◌, ◌==◌, Bool-cases, nat_beq_iff, inl, inr, done, find, erase, arith,
}
use mathlib.Core.Path.{subst}
use mathlib.Core.Option.{some-injective}
use culex_mqtt_broker.Packets.{Packet, default_packet}
use culex_mqtt_broker.ClientSession.{ClientSession, remove_from_inflight}
use culex_mqtt_broker.Manager.{Manager, write_client, replace_ref, session_present, update_activity}
use culex_mqtt_broker.Handlers.{present}

replace_ref_found :
    (k : List ℕ) (cs cs' : ClientSession) (r : List (List ℕ × ClientSession))
    → find k r ≡ some cs
    → cs'.ref ≡ cs.ref
    → find k (replace_ref cs' r) ≡ some cs'
unfolding find replace_ref
replace_ref_found k cs cs' [] h same = cc
replace_ref_found k cs cs' ((j, old) ∷ r) h same = elim (Bool-cases (j == k)) [
  | inl here ↦
      let is_old : old ≡ cs =
        some-injective old cs (subst (λ b. (if b then some old else find k r) ≡ some cs) here h) in
      let written : nat_beq old.ref cs'.ref ≡ true =
        (nat_beq_iff old.ref cs'.ref).1 (ap (λ (x : ClientSession). x.ref) is_old ∙ sym same) in
      rw (here, written) refl
  | inr later ↦ rw (later) (
      replace_ref_found k cs cs' r
        (subst (λ b. (if b then some old else find k r) ≡ some cs) later h) same)
]

-- What a client's session becomes under the id that finds it.
pub session_present-write_client :
    (k : List ℕ) (cs cs' : ClientSession) (m : Manager)
    → session_present k m ≡ some cs
    → cs'.ref ≡ cs.ref
    → session_present k (write_client cs' m) ≡ some cs'
unfolding session_present
session_present-write_client k cs cs' m h same = replace_ref_found k cs cs' m.registry h same

pub update_activity_found :
    (k : List ℕ) (cs : ClientSession) (m : Manager)
    → session_present k m ≡ some cs
    → update_activity k m ≡ write_client (record cs { last_activity = m.now }) m
unfolding update_activity
update_activity_found k cs m h = ground (arith, h)

pub active_session :
    (k : List ℕ) (cs : ClientSession) (m : Manager)
    → session_present k m ≡ some cs
    → session_present k (update_activity k m) ≡ some (record cs { last_activity = m.now })
active_session k cs m h =
    rw (update_activity_found k cs m h)
      (session_present-write_client k cs (record cs { last_activity = m.now }) m h refl)

pub present_found :
    (k : List ℕ) (m : Manager) (cs : ClientSession)
    → session_present k m ≡ some cs
    → present k m ≡ done cs
present_found k m cs h = rw (present, h) refl

pub remove_from_inflight_absent :
    (packet_id : ℕ) (cs : ClientSession)
    → find packet_id cs.inflight ≡ none
    → remove_from_inflight packet_id cs ≡ (cs, default_packet)
unfolding remove_from_inflight
remove_from_inflight_absent packet_id cs h = rw (remove_from_inflight, h) refl

pub remove_from_inflight_there :
    (packet_id : ℕ) (cs : ClientSession) (pkt : Packet)
    → find packet_id cs.inflight ≡ some pkt
    → remove_from_inflight packet_id cs
      ≡ (record cs { inflight = erase packet_id cs.inflight }, pkt)
unfolding remove_from_inflight
remove_from_inflight_there packet_id cs pkt h = rw (remove_from_inflight, h) refl
