-- ===== src/Manager/Invariant/Retransmission.antt =====
-- `processRetransmissions` keeps the invariant and comes to an end.
use culex_mqtt_broker.Common.{
  ℕ, zero, suc, ◌≤◌, ◌<◌, ◌≡◌, ◌≢◌, refl, sym, ap, ◌∙◌, inl, inr, List, [], ◌∷◌, Option, none, some,
  leb, nat_beq, nil-or-cons, if-cases, Option-cases, Outcome, done, stuck, ◌>>=◌, >>=-eq-done,
  >>=-ne-stuck, done-ne-stuck, done-injective, length, arith,
}
use mathlib.Core.Path.{subst}
use mathlib.Core.Option.{some-injective}
use culex_mqtt_broker.Core.{Core}
use culex_mqtt_broker.Packets.Kind
use culex_mqtt_broker.Packets.{Packet}
use culex_mqtt_broker.Build.{Host, build_ack}
use culex_mqtt_broker.ClientSession.{ClientSession, get_packet}
use culex_mqtt_broker.Manager.{Manager, RetransmitEntry, lock_client, lock_session}
use culex_mqtt_broker.Manager.Heap.{IsSorted, due_count, due_count-tail, due_count-le-length}
use culex_mqtt_broker.Manager.Routing.{
  as_duplicate, route_packet, retransmit, pop_retransmit, retransmit_top, process_retransmissions,
}
use culex_mqtt_broker.Manager.Routing.Ends.{retransmit_top-ne-stuck}
use culex_mqtt_broker.Manager.Invariant.{IsValid}
use culex_mqtt_broker.Manager.Invariant.Kept.{Kept, Kept-refl, retransmit_heap-Kept}
use culex_mqtt_broker.Manager.Invariant.Routing.{dues, Routed, push_if-Routed, route_packet-Routed}

-- Taking the top off keeps the invariant, the time and the expiry heap, and, where something is due, leaves one due
-- entry less.
record IsPopped (m m' : Manager) : Type 0 where
  kept : Kept m m'
  clock : m'.now ≡ m.now
  timers : m'.expiry_heap ≡ m.expiry_heap
  fewer : (now : ℕ) → IsValid m → 0 < dues now m → suc (dues now m') ≡ dues now m

pop_retransmit-IsPopped : (m : Manager) → IsPopped m (pop_retransmit m)
unfolding due_count
pop_retransmit-IsPopped m = go m.retransmit_heap refl
  where
    go :
        (h : List RetransmitEntry)
        → m.retransmit_heap ≡ h
        → IsPopped m
            (elim h as (λ _. Manager) [ [] ↦ m | e ∷ h ↦ record m { retransmit_heap = h } ])
    go [] e = record {
      kept = Kept-refl m;
      clock = refl;
      timers = refl;
      fewer = λ now v some_due.
          let none_due : 0 < due_count {A = RetransmitEntry} (λ x. x.retry_ms) now [] =
            subst (λ (t : List RetransmitEntry). 0 < due_count (λ x. x.retry_ms) now t) e
              some_due in
          absurd (omega arith);
    }
    go (x ∷ h) e =
        let in_order =
          λ (v : IsValid m). subst (IsSorted (λ (t : RetransmitEntry). t.retry_ms)) e v.retries in
        record {
          kept = retransmit_heap-Kept m h (λ v. (in_order v).1);
          clock = refl;
          timers = refl;
          fewer = λ now v some_due. sym (
              ap (λ (t : List RetransmitEntry). due_count (λ x. x.retry_ms) now t) e
              ∙ due_count-tail _ now x h (in_order v) (
                  subst (λ (t : List RetransmitEntry). 0 < due_count (λ x. x.retry_ms) now t) e
                    some_due));
        }

pub top_due :
    (now : ℕ) (m : Manager) (e : RetransmitEntry) (h : List RetransmitEntry)
    → m.retransmit_heap ≡ e ∷ h
    → e.retry_ms ≤ now
    → 0 < dues now m
unfolding due_count
top_due now m e h top due = rw (top) (ground arith)

module _ (c : Core) (host : Host) where
  retransmit-Routed :
      (entry : RetransmitEntry) (packet : Packet) (cs : ClientSession) (m m' : Manager)
      → retransmit c host entry packet cs m ≡ done m'
      → Routed m m'
  unfolding retransmit
  retransmit-Routed entry packet cs m m' e =
      if-cases (λ x. x ≡ done m' → Routed m m') (nat_beq entry.packet_type Kind.publish) _ _
        (λ publishes e.
          let (r, routed, e₁) =
            >>=-eq-done (route_packet c host (as_duplicate packet) none m) _ e in
          subst (Routed m) (done-injective _ _ e₁)
            (route_packet-Routed c host (as_duplicate packet) m r routed))
        (λ acks e. subst (Routed m) (done-injective _ _ e) (
          push_if-Routed (lock_session cs.session m)
            (build_ack host entry.packet_id packet.header.kind []).1 m))
        e

  -- A round of the loop that goes on: the entry was due, and its packet has been sent again.
  retransmit_top-some :
      (entry : RetransmitEntry) (m m' : Manager)
      → retransmit_top c host entry m ≡ done (some m')
      → (m₁ : Manager) × (entry.retry_ms ≤ m.now) × Routed m m₁ × (m' ≡ pop_retransmit m₁)
  unfolding retransmit_top
  retransmit_top-some entry m m' e =
      let Goal : Type 0 =
        (m₁ : Manager) × (entry.retry_ms ≤ m.now) × Routed m m₁ × (m' ≡ pop_retransmit m₁) in
      if-cases (λ x. x ≡ done (some m') → Goal) (leb entry.retry_ms m.now) _ _
        (λ due.
          Option-cases (λ x. x ≡ done (some m') → Goal) (lock_client entry.session m) _ _
            (λ gone e. cc)
            (λ cs there.
              let pkt = get_packet entry.packet_id entry.packet_type cs in
              if-cases (λ x. x ≡ done (some m') → Goal) (nat_beq pkt.pkt_len 0) _ _
                (λ missing e. cc)
                (λ found e.
                  let (m₁, sent, e₁) = >>=-eq-done (retransmit c host entry pkt cs m) _ e in
                  (
                    m₁,
                    ground arith,
                    retransmit-Routed entry pkt cs m m₁ sent,
                    sym (some-injective _ _ (done-injective _ _ e₁)),
                  ))))
        (λ early e. cc) e

  -- Such a round takes one due entry off.
  pub retransmit_top-dues :
      (entry : RetransmitEntry) (h : List RetransmitEntry) (m m' : Manager)
      → m.retransmit_heap ≡ entry ∷ h
      → IsValid m
      → retransmit_top c host entry m ≡ done (some m')
      → IsValid m' × (m'.now ≡ m.now) × (suc (dues m.now m') ≡ dues m.now m)
  retransmit_top-dues entry h m m' top v e =
      let (m₁, due, routed, popped) = retransmit_top-some entry m m' e in
      let pop = pop_retransmit-IsPopped m₁ in
      let some_due : 0 < dues m.now m₁ =
        omega (arith, routed.due, top_due m.now m entry h top due) in
      let less = pop.fewer m.now (routed.kept.valid v) some_due in
      subst (λ x. IsValid x × (x.now ≡ m.now) × (suc (dues m.now x) ≡ dues m.now m)) (sym popped)
        (pop.kept.valid (routed.kept.valid v), pop.clock ∙ routed.clock, less ∙ routed.due)

  pub retransmit_top-timers :
      (entry : RetransmitEntry) (m m' : Manager)
      → retransmit_top c host entry m ≡ done (some m')
      → (m'.now ≡ m.now) × (m'.expiry_heap ≡ m.expiry_heap)
  retransmit_top-timers entry m m' e =
      let (m₁, due, routed, popped) = retransmit_top-some entry m m' e in
      let pop = pop_retransmit-IsPopped m₁ in
      subst (λ x. (x.now ≡ m.now) × (x.expiry_heap ≡ m.expiry_heap)) (sym popped)
        (pop.clock ∙ routed.clock, pop.timers ∙ routed.timers)

  abbrev pub go_on : ℕ → Manager → Option Manager → Outcome Manager
  go_on fuel m none = done m
  go_on fuel m (some m₁) = process_retransmissions c host fuel m₁

  pub process_retransmissions_empty :
      (fuel : ℕ) (m : Manager)
      → m.retransmit_heap ≡ []
      → process_retransmissions c host (suc fuel) m ≡ done m
  unfolding process_retransmissions
  process_retransmissions_empty fuel m top = ground arith

  pub process_retransmissions_more :
      (fuel : ℕ) (m : Manager) (e : RetransmitEntry) (h : List RetransmitEntry)
      → m.retransmit_heap ≡ e ∷ h
      → process_retransmissions c host (suc fuel) m ≡ (retransmit_top c host e m >>= go_on fuel m)
  unfolding process_retransmissions
  process_retransmissions_more fuel m e h top = ground arith

  go_on-IsValid :
      (fuel : ℕ) (m m' : Manager) (x : RetransmitEntry) (h : List RetransmitEntry)
      (next : Option Manager)
      → IsValid m
      → m.retransmit_heap ≡ x ∷ h
      → retransmit_top c host x m ≡ done next
      → go_on fuel m next ≡ done m'
      → ((m₁ : Manager)
          → process_retransmissions c host fuel m₁ ≡ done m'
          → IsValid m₁
          → IsValid m')
      → IsValid m'
  go_on-IsValid fuel m m' x h none v top sent e k = subst IsValid (done-injective _ _ e) v
  go_on-IsValid fuel m m' x h (some m₁) v top sent e k =
      k m₁ e (retransmit_top-dues x h m m₁ top v sent).0

  go_on-ne-stuck :
      (fuel : ℕ) (m : Manager) (x : RetransmitEntry) (h : List RetransmitEntry)
      (next : Option Manager)
      → dues m.now m < suc fuel
      → IsValid m
      → m.retransmit_heap ≡ x ∷ h
      → retransmit_top c host x m ≡ done next
      → ((m₁ : Manager)
          → IsValid m₁
          → dues m₁.now m₁ < fuel
          → process_retransmissions c host fuel m₁ ≢ stuck)
      → go_on fuel m next ≢ stuck
  go_on-ne-stuck fuel m x h none enough v top sent k = done-ne-stuck m
  go_on-ne-stuck fuel m x h (some m₁) enough v top sent k =
      let (v₁, clock, less) = retransmit_top-dues x h m m₁ top v sent in
      k m₁ v₁ (subst (λ t. dues t m₁ < fuel) (sym clock) (omega arith))

  -- In a state that satisfies the invariant, `processRetransmissions` comes to an end within one round
  -- more than its heap has entries that are due, although every packet that it sends again may go back
  -- to the heap.
  pub process_retransmissions_ends :
      (fuel : ℕ) (m : Manager)
      → IsValid m
      → dues m.now m < fuel
      → process_retransmissions c host fuel m ≢ stuck
  process_retransmissions_ends zero m v enough = absurd (omega arith)
  process_retransmissions_ends (suc fuel) m v enough = elim (nil-or-cons m.retransmit_heap) [
    | inl empty ↦
        subst (λ x. x ≢ stuck) (sym (process_retransmissions_empty fuel m empty)) (done-ne-stuck m)
    | inr (x, h, top) ↦
        subst (λ x. x ≢ stuck) (sym (process_retransmissions_more fuel m x h top))
          (>>=-ne-stuck (retransmit_top c host x m) _ (retransmit_top-ne-stuck c host x m)
            (λ next sent.
              go_on-ne-stuck fuel m x h next enough v top sent (process_retransmissions_ends fuel)))
  ]

  -- More rounds than the heap has entries are enough.
  pub process_retransmissions-ne-stuck :
      (m : Manager)
      → IsValid m
      → process_retransmissions c host (suc (length m.retransmit_heap)) m ≢ stuck
  process_retransmissions-ne-stuck m v =
      process_retransmissions_ends (suc (length m.retransmit_heap)) m v (
        omega (
          arith,
          due_count-le-length (λ (e : RetransmitEntry). e.retry_ms) m.now m.retransmit_heap,
        ))

  pub process_retransmissions-IsValid :
      (fuel : ℕ) (m m' : Manager)
      → process_retransmissions c host fuel m ≡ done m'
      → IsValid m
      → IsValid m'
  unfolding process_retransmissions
  process_retransmissions-IsValid zero m m' e v = cc
  process_retransmissions-IsValid (suc fuel) m m' e v = elim (nil-or-cons m.retransmit_heap) [
    | inl empty ↦
        subst IsValid (done-injective _ _ (sym (process_retransmissions_empty fuel m empty) ∙ e)) v
    | inr (x, h, top) ↦
        let (next, sent, e₁) =
          >>=-eq-done (retransmit_top c host x m) _
            (sym (process_retransmissions_more fuel m x h top) ∙ e) in
        go_on-IsValid fuel m m' x h next v top sent e₁
          (λ m₁. process_retransmissions-IsValid fuel m₁ m')
  ]
