-- ===== src/TestClients/Acknowledging.antt =====
-- What becomes of the test subscriber's acknowledgement of a packet that the broker has built.
use culex_mqtt_broker.Common.{
  ℕ, ◌<◌, ◌≡◌, refl, sym, ap, ◌∙◌, Bool, List, [], ◌∷◌, ◌++◌, some, find, nat_eq, done,
  done-injective, length, arith,
}
use mathlib.Core.Path.{subst}
use culex_mqtt_broker.Core.{Core, Reads, Writes}
use culex_mqtt_broker.Packets.{Publish, publish}
use culex_mqtt_broker.Packets.Flags.{Header, pack_header}
use culex_mqtt_broker.Build.{Host, build_publish}
use culex_mqtt_broker.Build.Publishes.{unnumbered, build_publish_bytes}
use culex_mqtt_broker.Unpack.Wire.{IsShort, frame_bytes, publish_bytes}
use culex_mqtt_broker.ClientSession.{ClientSession}
use culex_mqtt_broker.Manager.{Manager, MqttSession, session_present}
use culex_mqtt_broker.Session.{parse_data}
use culex_mqtt_broker.Session.Acknowledging.{parse_data_puback}
use culex_mqtt_broker.TestClients.{put_id, Reply, answer_qos1}
use culex_mqtt_broker.TestClients.Subscriber.{answer_qos1-publish_lem, ack_header, ack_frame}

abbrev pub one_header : Bool → Bool → Header
one_header dup retain = record { kind = 3; dup = dup; qos = 1; retain = retain }

module _ (c : Core) (host : Host) (reads : Reads c) (writes : Writes c) where
  -- If the functions of culex-core read and write as documented, the subscriber for QoS 1 answers what
  -- `build_publish` writes for a PUBLISH packet of QoS 1 and any packet id, with a topic shorter than
  -- 2 ^ 16 and a remaining length below 128, and when the answer comes from a client that is in the
  -- registry, `parseData` takes it from the receive buffer, but every packet that is stored under a
  -- packet id above 0 is still stored.
  pub acknowledgement_lost :
      (self : MqttSession) (dup retain : Bool) (pkt_len packet_id k : ℕ) (p : Publish)
      (bytes pad rest : List ℕ) (m : Manager) (cs : ClientSession)
      → IsShort p.topic
      → length (publish_bytes (one_header dup retain) (unnumbered p)) < 128
      → build_publish c
          (record { header = one_header dup retain; pkt_len = pkt_len; pkt = publish p })
          packet_id
          []
        ≡ done bytes
      → session_present self.client_id m ≡ some cs
      → 0 < k
      → (r : Reply) × (m' : Manager) × (cs' : ClientSession) × (answer_qos1
            (bytes ++ pad)
            (length bytes)
          ≡ done (some r))
        × (parse_data c host self (r.answer ++ rest) m
            ≡ done (self, c.erase_front 4 (r.answer ++ rest), m'))
        × (session_present self.client_id m' ≡ some cs')
        × (find k cs'.inflight ≡ find k cs.inflight)
  unfolding pack_header
  acknowledgement_lost self dup retain pkt_len packet_id k p bytes pad rest m cs short small built
        there above =
      let h = one_header dup retain in
      let frame = frame_bytes h (publish_bytes h (unnumbered p)) in
      let is : frame ≡ bytes = done-injective _ _ (
        sym (
          build_publish_bytes c writes h pkt_len p packet_id [] (omega arith) (omega arith) short
            (omega (arith, small)))
        ∙ built) in
      let answered =
        answer_qos1-publish_lem h (unnumbered p) pad refl (omega arith) short (omega arith) small in
      let (m', cs', taken, found, left) =
        parse_data_puback c host reads self (ack_header 4 0) 0 rest m cs refl (omega arith)
          (omega arith) there in
      let same = ack_frame 4 0 0x40 0 refl in
      (
        record { printed = p.payload; answer = 0x40 ∷ 0x02 ∷ put_id 0 },
        m',
        cs',
        ap (λ l. answer_qos1 (l ++ pad) (length l)) (sym is) ∙ answered,
        subst
            (λ l.
              parse_data c host self (l ++ rest) m ≡ done (self, c.erase_front 4 (l ++ rest), m'))
            (sym same) taken,
        found,
        left k ∙ ground (arith, above, nat_eq.same_iff 0 k),
      )
