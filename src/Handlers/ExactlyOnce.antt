-- ===== src/Handlers/ExactlyOnce.antt =====
-- The QoS 2 flow of a publisher through `publishHandler` and `pubrelHandler` of
-- mqtt/src/packethandlers.cpp.
use culex_mqtt_broker.Common.{
  ℕ, ◌≤◌, ◌<◌, ◌≡◌, refl, ap, ◌∙◌, true, false, List, [], ◌∷◌, ◌++◌, none, some, nat_beq, nat_eq,
  string_eq, nat_beq_iff, Outcome, done, ◌>>=◌, >>=_assoc, find, insert, erase, find-insert, arith,
}
use culex_mqtt_broker.Core.{Core}
use culex_mqtt_broker.Packets.Kind
use culex_mqtt_broker.Packets.{
  Packet, Body, Publish, Ack, ReturnCode, publish, ack, default_packet, mqtt_ok, mqtt_err,
}
use culex_mqtt_broker.Build.{Host, build_ack}
use culex_mqtt_broker.ClientSession.{
  ClientSession, store_inflight, get_packet, remove_from_inflight,
}
use culex_mqtt_broker.Manager.{
  Manager, MqttSession, write_client, session_present, update_activity, push_data,
}
use culex_mqtt_broker.Manager.Routing.{route_packet}
use culex_mqtt_broker.Handlers.{
  Handled, present, keep_inflight, publish_received, publish_handler, release, pubrel_handler,
}
use culex_mqtt_broker.Handlers.Sessions.{
  session_present-write_client, update_activity_found, active_session, present_found,
  remove_from_inflight_absent, remove_from_inflight_there,
}

-- The acknowledgement of a packet with this id, behind what the buffer holds.
abbrev pub answer_of : Host → ℕ → ℕ → List ℕ → List ℕ
answer_of host packet_id kind buff = (build_ack host packet_id kind buff).1

-- A handled PUBREL, with the code and the manager before the answer.
abbrev pub completed : Host → Ack → List ℕ → MqttSession → ReturnCode → Manager → Handled
completed host a buff self code m = (
  code,
  answer_of host a.packet_id Kind.pubcomp buff,
  push_data self (answer_of host a.packet_id Kind.pubcomp buff) m,
)

module _ (c : Core) (host : Host) where
  keep_inflight_new :
      (pkt : Packet) (p : Publish) (cs : ClientSession)
      → pkt.pkt ≡ publish p
      → find p.packet_id cs.inflight ≡ none
      → keep_inflight c host pkt p cs
        ≡ done (record cs { inflight = insert p.packet_id pkt cs.inflight })
  unfolding keep_inflight get_packet store_inflight
  keep_inflight_new pkt p cs body new = rw (new, body) refl

  keep_inflight_old :
      (pkt : Packet) (p : Publish) (cs : ClientSession) (old : Packet)
      → find p.packet_id cs.inflight ≡ some old
      → 0 < old.pkt_len
      → keep_inflight c host pkt p cs ≡ done cs
  unfolding keep_inflight get_packet
  keep_inflight_old pkt p cs old there size = rw (there) (ground arith)

  pub publish_handler_body :
      (pkt : Packet) (p : Publish) (buff : List ℕ) (m : Manager) (self : MqttSession)
      → pkt.pkt ≡ publish p
      → publish_handler c host pkt buff m self
        ≡ publish_received c host pkt p buff (update_activity self.client_id m) self
  unfolding publish_handler
  publish_handler_body pkt p buff m self body =
      ap
        (λ (b : Body). elim b as (λ _. Outcome Handled) [
          | publish p ↦ publish_received c host pkt p buff (update_activity self.client_id m) self
          | _ ↦ done (mqtt_err, buff, m)
        ])
        body

  publish_received_two :
      (pkt : Packet) (p : Publish) (buff : List ℕ) (m : Manager) (self : MqttSession)
      (cs cs' : ClientSession)
      → 2 ≤ pkt.header.qos
      → session_present self.client_id m ≡ some cs
      → keep_inflight c host pkt p cs ≡ done cs'
      → publish_received c host pkt p buff m self
        ≡ done (
          mqtt_ok,
          answer_of host p.packet_id Kind.pubrec buff,
          push_data self (answer_of host p.packet_id Kind.pubrec buff) (write_client cs' m),
        )
  unfolding publish_received
  publish_received_two pkt p buff m self cs cs' qos there kept =
      let zero_no : nat_beq pkt.header.qos 0 ≡ false = ground arith in
      let one_no : nat_beq pkt.header.qos 1 ≡ false = ground arith in
      rw (zero_no, one_no, present_found self.client_id m cs there, kept) refl

  -- A PUBLISH packet of QoS 2, by what becomes of the session.
  publish_handler_two :
      (pkt : Packet) (p : Publish) (buff : List ℕ) (m : Manager) (self : MqttSession)
      (cs cs' : ClientSession)
      → pkt.pkt ≡ publish p
      → 2 ≤ pkt.header.qos
      → session_present self.client_id m ≡ some cs
      → keep_inflight c host pkt p (record cs { last_activity = m.now }) ≡ done cs'
      → publish_handler c host pkt buff m self
        ≡ done (
          mqtt_ok,
          answer_of host p.packet_id Kind.pubrec buff,
          push_data self
              (answer_of host p.packet_id Kind.pubrec buff)
              (write_client cs' (update_activity self.client_id m)),
        )
  publish_handler_two pkt p buff m self cs cs' body qos there kept =
      publish_handler_body pkt p buff m self body
      ∙ publish_received_two pkt p buff (update_activity self.client_id m) self
          (record cs { last_activity = m.now }) cs' qos (active_session self.client_id cs m there)
          kept

  publish_handler_step :
      (pkt : Packet) (p : Publish) (buff : List ℕ) (m : Manager) (self : MqttSession)
      (cs cs' : ClientSession)
      → pkt.pkt ≡ publish p
      → 2 ≤ pkt.header.qos
      → session_present self.client_id m ≡ some cs
      → cs'.ref ≡ cs.ref
      → keep_inflight c host pkt p (record cs { last_activity = m.now }) ≡ done cs'
      → (m' : Manager) × (publish_handler c host pkt buff m self
          ≡ done (mqtt_ok, answer_of host p.packet_id Kind.pubrec buff, m'))
        × (session_present self.client_id m' ≡ some cs')
        × (m'.sent ≡ m.sent ++ (self.ref, answer_of host p.packet_id Kind.pubrec buff) ∷ [])
        × (m'.now ≡ m.now)
  publish_handler_step pkt p buff m self cs cs' body qos there same kept =
      let active = record cs { last_activity = m.now } in
      (
        push_data self (answer_of host p.packet_id Kind.pubrec buff)
            (write_client cs' (update_activity self.client_id m)),
        publish_handler_two pkt p buff m self cs cs' body qos there kept,
        unfold session_present in
            session_present-write_client self.client_id active cs'
              (update_activity self.client_id m) (active_session self.client_id cs m there) same,
        rw (update_activity_found self.client_id cs m there) refl,
        rw (update_activity_found self.client_id cs m there) refl,
      )

  -- Two PUBLISH packets of QoS 2 with the same packet id, the second a repetition, from a client that
  -- has no packet with this id stored: the first is stored and the second is not, each is answered
  -- with a PUBREC, and nothing else is sent, so that neither is routed.
  pub publish_handler_repeated :
      (pkt again : Packet) (p p' : Publish) (buff buff' : List ℕ) (m : Manager) (self : MqttSession)
      (cs : ClientSession)
      → pkt.pkt ≡ publish p
      → again.pkt ≡ publish p'
      → p'.packet_id ≡ p.packet_id
      → 2 ≤ pkt.header.qos
      → 2 ≤ again.header.qos
      → 0 < pkt.pkt_len
      → session_present self.client_id m ≡ some cs
      → find p.packet_id cs.inflight ≡ none
      → (m' : Manager) × ((publish_handler c host pkt buff m self >>= λ h.
            publish_handler c host again buff' h.2 self)
          ≡ done (mqtt_ok, answer_of host p.packet_id Kind.pubrec buff', m'))
        × (session_present self.client_id m'
            ≡ some (record cs {
              last_activity = m.now;
              inflight = insert p.packet_id pkt cs.inflight;
            }))
        × (m'.sent
            ≡ (m.sent ++ (self.ref, answer_of host p.packet_id Kind.pubrec buff) ∷ [])
              ++ (self.ref, answer_of host p.packet_id Kind.pubrec buff') ∷ [])
  publish_handler_repeated pkt again p p' buff buff' m self cs body body' same qos qos' size there
        new =
      let first : ClientSession = record cs {
        last_activity = m.now;
        inflight = insert p.packet_id pkt cs.inflight;
      } in
      let (m₁, done₁, there₁, sent₁, now₁) =
        publish_handler_step pkt p buff m self cs first body qos there refl
          (keep_inflight_new pkt p (record cs { last_activity = m.now }) body new) in
      let stored : find p'.packet_id first.inflight ≡ some pkt =
        rw
          (
            same,
            find-insert p.packet_id p.packet_id pkt cs.inflight,
            new,
            (nat_beq_iff p.packet_id p.packet_id).1 refl,
          )
          refl in
      let kept : keep_inflight c host again p' (record first { last_activity = m₁.now })
          ≡ done first =
        rw (now₁) (keep_inflight_old again p' first pkt stored size) in
      let (m₂, done₂, there₂, sent₂, now₂) =
        publish_handler_step again p' buff' m₁ self first first body' qos' there₁ refl kept in
      (m₂, rw (done₁, ← same) done₂, there₂, rw (← sent₁, ← same) sent₂)

  -- What `pubrelHandler` does with a PUBREL.
  abbrev pubrel_received : Ack → List ℕ → Manager → MqttSession → Outcome Handled
  pubrel_received a buff m self = do
    cs ← present self.client_id m
    let taken = remove_from_inflight a.packet_id cs
    (code, m₂) ← release c host taken.1 (write_client taken.0 m)
    done (
      code,
      answer_of host a.packet_id Kind.pubcomp buff,
      push_data self (answer_of host a.packet_id Kind.pubcomp buff) m₂,
    )

  pubrel_handler_body :
      (pkt : Packet) (a : Ack) (buff : List ℕ) (m : Manager) (self : MqttSession)
      (cs : ClientSession)
      → pkt.pkt ≡ ack a
      → session_present self.client_id m ≡ some cs
      → pubrel_handler c host pkt buff m self ≡ (do
        let taken = remove_from_inflight a.packet_id (record cs { last_activity = m.now })
        (code, m₂) ←
            release c host taken.1 (write_client taken.0 (update_activity self.client_id m))
        done (
          code,
          answer_of host a.packet_id Kind.pubcomp buff,
          push_data self (answer_of host a.packet_id Kind.pubcomp buff) m₂,
        ))
  unfolding pubrel_handler
  pubrel_handler_body pkt a buff m self cs body there =
      let bytes = answer_of host a.packet_id Kind.pubcomp buff in
      let active = update_activity self.client_id m in
      let rest : ClientSession → Outcome Handled = λ x. (do
        let taken = remove_from_inflight a.packet_id x
        (code, m₂) ← release c host taken.1 (write_client taken.0 active)
        done (code, bytes, push_data self bytes m₂)) in
      ap
        (λ (b : Body). elim b as (λ _. Outcome Handled) [
          | ack a' ↦ pubrel_received a' buff active self
          | _ ↦ done (mqtt_err, buff, m)
        ])
        body
      ∙ ap (λ r. r >>= rest)
          (present_found self.client_id active _ (active_session self.client_id cs m there))

  released :
      (pkt : Packet) (a : Ack) (buff : List ℕ) (m : Manager) (self : MqttSession)
      → pkt.header.kind ≡ Kind.publish
      → (release c host pkt m >>= λ r. done (completed host a buff self r.0 r.1))
        ≡ (route_packet c host pkt none m >>= λ r. done (completed host a buff self mqtt_ok r.0))
  unfolding release
  released pkt a buff m self kind =
      let is_publish : nat_beq pkt.header.kind Kind.publish ≡ true = ground (arith, kind) in
      rw (is_publish) (>>=_assoc (route_packet c host pkt none m) _ _)

  -- A PUBREL whose packet id is not among the stored packets of the client, is answered with a PUBCOMP
  -- and the code of an error, and nothing else is sent, so that nothing is routed; the stored packets
  -- of the client stay.
  pub pubrel_handler_unknown :
      (pkt : Packet) (a : Ack) (buff : List ℕ) (m : Manager) (self : MqttSession)
      (cs : ClientSession)
      → pkt.pkt ≡ ack a
      → session_present self.client_id m ≡ some cs
      → find a.packet_id cs.inflight ≡ none
      → (m' : Manager) × (pubrel_handler c host pkt buff m self
          ≡ done (mqtt_err, answer_of host a.packet_id Kind.pubcomp buff, m'))
        × (session_present self.client_id m' ≡ some (record cs { last_activity = m.now }))
        × (m'.sent ≡ m.sent ++ (self.ref, answer_of host a.packet_id Kind.pubcomp buff) ∷ [])
  pubrel_handler_unknown pkt a buff m self cs body there gone =
      let active : ClientSession = record cs { last_activity = m.now } in
      let bytes = answer_of host a.packet_id Kind.pubcomp buff in
      let nothing : remove_from_inflight a.packet_id active ≡ (active, default_packet) =
        remove_from_inflight_absent a.packet_id active gone in
      let there₁ = active_session self.client_id cs m there in
      (
        push_data self bytes (write_client active (update_activity self.client_id m)),
        pubrel_handler_body pkt a buff m self cs body there ∙ rw (nothing) (unfold release in refl),
        unfold session_present in
            session_present-write_client self.client_id active active
              (update_activity self.client_id m) there₁ refl,
        rw (update_activity_found self.client_id cs m there) refl,
      )

  -- A PUBLISH packet of QoS 2 and then the PUBREL with its packet id, from a client that has no packet
  -- with this id stored: the first is answered with a PUBREC and nothing else is sent before the PUBREL;
  -- then the packet is taken from those stored, it is routed as it came, and the PUBREL is answered with
  -- a PUBCOMP.
  pub publish_then_pubrel :
      (pkt rel : Packet) (p : Publish) (a : Ack) (buff buff' : List ℕ) (m : Manager)
      (self : MqttSession) (cs : ClientSession)
      → pkt.pkt ≡ publish p
      → rel.pkt ≡ ack a
      → a.packet_id ≡ p.packet_id
      → pkt.header.kind ≡ Kind.publish
      → 2 ≤ pkt.header.qos
      → session_present self.client_id m ≡ some cs
      → find p.packet_id cs.inflight ≡ none
      → (m₂ : Manager) × ((publish_handler c host pkt buff m self >>= λ h.
            pubrel_handler c host rel buff' h.2 self)
          ≡ (route_packet c host pkt none m₂ >>= λ r.
              done (completed host a buff' self mqtt_ok r.0)))
        × (m₂.sent ≡ m.sent ++ (self.ref, answer_of host p.packet_id Kind.pubrec buff) ∷ [])
        × (session_present self.client_id m₂
            ≡ some (record cs {
              last_activity = m.now;
              inflight = erase p.packet_id (insert p.packet_id pkt cs.inflight);
            }))
  publish_then_pubrel pkt rel p a buff buff' m self cs body body' same kind qos there new =
      let first : ClientSession = record cs {
        last_activity = m.now;
        inflight = insert p.packet_id pkt cs.inflight;
      } in
      let (m₁, done₁, there₁, sent₁, now₁) =
        publish_handler_step pkt p buff m self cs first body qos there refl
          (keep_inflight_new pkt p (record cs { last_activity = m.now }) body new) in
      let active : ClientSession = record first { last_activity = m₁.now } in
      let stored : find a.packet_id active.inflight ≡ some pkt =
        rw
          (
            same,
            find-insert p.packet_id p.packet_id pkt cs.inflight,
            new,
            (nat_beq_iff p.packet_id p.packet_id).1 refl,
          )
          refl in
      let after : ClientSession = record active { inflight = erase a.packet_id active.inflight } in
      let m₂ = write_client after (update_activity self.client_id m₁) in
      (
        m₂,
        ap (λ r. r >>= λ h. pubrel_handler c host rel buff' h.2 self) done₁
            ∙ pubrel_handler_body rel a buff' m₁ self first body' there₁
            ∙ rw (remove_from_inflight_there a.packet_id active pkt stored)
                (released pkt a buff' m₂ self kind),
        rw (update_activity_found self.client_id first m₁ there₁) sent₁,
        session_present-write_client self.client_id active after (update_activity self.client_id m₁)
              (active_session self.client_id first m₁ there₁) refl
            ∙ rw (same, now₁) refl,
      )
