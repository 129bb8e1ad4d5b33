-- ===== src/TestClients/EndToEnd.antt =====
-- The test subscriber and the test publisher for QoS 0, with the broker between them.
use culex_mqtt_broker.Common.{
  ℕ, ◌+◌, ◌^◌, ◌≤◌, ◌<◌, ◌≡◌, refl, sym, true, false, List, [], ◌∷◌, ◌++◌, some, done, length,
  length-append, arith,
}
use mathlib.Core.List.{Memᴰ}
use mathlib.Core.Path.{subst}
use culex_mqtt_broker.Core.{Core, Reads, Writes}
use culex_mqtt_broker.Build.{Host}
use culex_mqtt_broker.Build.Subacks.{suback_bytes}
use culex_mqtt_broker.Unpack.Wire.{frame_bytes, subscribe_bytes}
use culex_mqtt_broker.TopicTree.Refinement.{IsPlain}
use culex_mqtt_broker.ClientSession.{ClientSession}
use culex_mqtt_broker.Manager.{Manager, MqttSession, lock_session, session_present}
use culex_mqtt_broker.Manager.Invariant.{IsValid}
use culex_mqtt_broker.Session.{parse_data}
use culex_mqtt_broker.Session.Publishing.{zero_header, zero_bytes}
use culex_mqtt_broker.Session.Exchange.{subscribe_header, one_filter, subscribe_then_publish}
use culex_mqtt_broker.TestClients.{publish_qos0, send_subscribe, read_qos0}
use culex_mqtt_broker.TestClients.Publisher.{
  news, publish_packet, publish_packet_frame, publish_bytes_small, subscribe_frame,
}
use culex_mqtt_broker.TestClients.Subscriber.{read_qos0-publish_lem}

qos0_frame :
    (topic payload bytes : List ℕ)
    → publish_qos0 topic payload ≡ done bytes
    → (bytes ≡ zero_bytes false false (news topic payload 0))
      × (4 + length topic + length payload ≤ 100)
unfolding publish_packet
qos0_frame topic payload bytes e = publish_packet_frame 0 0 topic payload bytes (omega arith) e

-- What is taken, sent and printed, for the bytes that the two clients have sent.
abbrev IsServed :
    Core
    → Host
    → MqttSession
    → MqttSession
    → MqttSession
    → ℕ
    → ℕ
    → List ℕ
    → List ℕ
    → List ℕ
    → List ℕ
    → List ℕ
    → Manager
    → List ℕ
    → List ℕ
    → Type 0
IsServed c host self other line packet_id qos topic payload rest rest' pad m asked news =
    (m₁ m₂ : Manager) × (out : List (ℕ × List ℕ)) × (parse_data c host self (asked ++ rest) m
      ≡ done (self, c.erase_front (length asked) (asked ++ rest), m₁))
    × (parse_data c host other (news ++ rest') m₁
        ≡ done (other, c.erase_front (length news) (news ++ rest'), m₂))
    × (m₂.sent ≡ (m.sent ++ (self.ref, suback_bytes packet_id (qos ∷ [])) ∷ []) ++ out)
    × Memᴰ (line.ref, news) out
    × (read_qos0 (news ++ pad) (length news) ≡ done (some (topic, payload)))

module _ (c : Core) (host : Host) (reads : Reads c) (writes : Writes c) where
  -- In a valid state, when the connection of a registered client that is connected sends what
  -- `send_subscribe` writes for a topic without wildcards with a QoS below 3, and then any connection
  -- sends what the publisher for QoS 0 writes for that topic and a payload, both are taken from the
  -- receive buffers. After the SUBACK packet that grants the QoS, the publisher's bytes are among what is
  -- sent, to the client's connection, and from these bytes, whatever is behind them in its buffer, the
  -- subscriber for QoS 0 reads the topic and the payload.
  pub test_clients_qos0 :
      (self other line : MqttSession) (packet_id qos : ℕ)
      (topic payload asked published rest rest' pad : List ℕ) (m : Manager) (cs : ClientSession)
      → IsValid m
      → session_present self.client_id m ≡ some cs
      → cs.connected ≡ true
      → lock_session cs.session m ≡ some line
      → packet_id < 2 ^ 16
      → qos < 3
      → IsPlain topic
      → send_subscribe packet_id qos topic ≡ done asked
      → publish_qos0 topic payload ≡ done published
      → (m₁ m₂ : Manager) × (out : List (ℕ × List ℕ)) × (parse_data c host self (asked ++ rest) m
          ≡ done (self, c.erase_front (length asked) (asked ++ rest), m₁))
        × (parse_data c host other (published ++ rest') m₁
            ≡ done (other, c.erase_front (length published) (published ++ rest'), m₂))
        × (m₂.sent ≡ (m.sent ++ (self.ref, suback_bytes packet_id (qos ∷ [])) ∷ []) ++ out)
        × Memᴰ (line.ref, published) out
        × (read_qos0 (published ++ pad) (length published) ≡ done (some (topic, payload)))
  test_clients_qos0 self other line packet_id qos topic payload asked sent rest rest' pad m cs v
        there up linked id small plain asks publishes =
      let (is_asked, _) = subscribe_frame packet_id qos topic asked asks in
      let (is_news, fits) = qos0_frame topic payload sent publishes in
      let p = news topic payload 0 in
      let frame = frame_bytes subscribe_header (subscribe_bytes (one_filter packet_id topic qos)) in
      let served = IsServed c host self other line packet_id qos topic payload rest rest' pad m in
      let (m₁, m₂, first, second, out, among) =
        subscribe_then_publish c host reads writes self other line packet_id qos false false p rest
          rest' m cs v there up linked (omega (arith, id)) small (omega (arith, fits)) plain
          (publish_bytes_small 0 0 topic payload fits) in
      let read =
        read_qos0-publish_lem (zero_header false false) p pad refl (omega arith)
          (omega (arith, fits)) (omega arith) (omega (arith, fits, length-append topic payload))
          refl in
      subst (λ a. served a sent) (sym is_asked)
        (subst (λ n. served frame n) (sym is_news) (m₁, m₂, _, first, second, out, among, read))
