-- ===== src/Session/Acknowledging.antt =====
-- PUBACK and PUBCOMP packets from the bytes to the packets that are stored: `parseData` of
-- mqtt/src/mqttsession.cpp with `unpack`, `pubackHandler` and `pubcompHandler`.
use culex_mqtt_broker.Common.{
  ℕ, ◌*◌, ◌≤◌, ◌<◌, ◌≡◌, refl, ap, ◌∙◌, List, [], ◌++◌, none, some, if◌then◌else◌, done, ◌>>=◌,
  ◌==◌, find, nat_eq, get_elem?, length, length-append, arith,
}
use culex_mqtt_broker.Core.{Core, Reads}
use culex_mqtt_broker.Packets.Kind
use culex_mqtt_broker.Packets.{Packet, Ack, ack, mqtt_ok, default_packet}
use culex_mqtt_broker.Packets.Flags.{Header}
use culex_mqtt_broker.Packets.Length.Encode.{base128, base128_small}
use culex_mqtt_broker.Build.{Host, build_ack}
use culex_mqtt_broker.Unpack.Wire.{u16_bytes, frame_bytes}
use culex_mqtt_broker.Unpack.Wire.Publishing.{unpack-ack}
use culex_mqtt_broker.ClientSession.{ClientSession, remove_from_inflight, remove_from_inflight_ack}
use culex_mqtt_broker.Manager.{
  Manager, MqttSession, session_present, update_activity, write_client, push_data,
}
use culex_mqtt_broker.Handlers.{puback_handler, pubrec_handler, pubcomp_handler}
use culex_mqtt_broker.Handlers.Sessions.{active_session, session_present-write_client}
use culex_mqtt_broker.Session.{Handler, parsed, parse_data, handlers}
use culex_mqtt_broker.Session.Publishing.{parsed_ok}
use culex_mqtt_broker.Handlers.Acknowledged.{
  inflight_left, remove_from_inflight_ref, ack_left, remove_from_inflight_ack_rest, with_pubrel,
  puback_handler_found, pubrec_handler_found, pubcomp_handler_found,
}

abbrev pub ack_bytes : Header → ℕ → List ℕ
ack_bytes h packet_id = frame_bytes h (u16_bytes packet_id)

abbrev pub ack_packet : Header → ℕ → Packet
ack_packet h packet_id = record {
  header = h;
  pkt_len = 4;
  pkt = ack (record { packet_id = packet_id });
}

ack_available :
    (h : Header) (packet_id : ℕ) (rest : List ℕ)
    → 4 ≤ length (frame_bytes h (u16_bytes packet_id) ++ rest)
ack_available h packet_id rest = omega (
  arith,
  length-append (frame_bytes h (u16_bytes packet_id)) rest,
  length-append (base128 4 2) (u16_bytes packet_id),
  ap length (base128_small 4 2 (omega arith)),
)

module _ (c : Core) (host : Host) (reads : Reads c) where
  pub parse_data_ack :
      (self : MqttSession) (h : Header) (packet_id : ℕ) (rest reply : List ℕ) (m m' : Manager)
      (handle : Handler)
      → 4 ≤ h.kind
      → h.kind ≤ 7
      → h.qos < 4
      → packet_id < 256 * 256
      → get_elem? (handlers c host) h.kind ≡ some (some handle)
      → handle (ack_packet h packet_id) [] m self ≡ done (mqtt_ok, reply, m')
      → parse_data c host self (ack_bytes h packet_id ++ rest) m
        ≡ done (self, c.erase_front 4 (ack_bytes h packet_id ++ rest), m')
  unfolding parse_data
  parse_data_ack self h packet_id rest reply m m' handle lo hi hq hp found handled =
      let bytes = ack_bytes h packet_id ++ rest in
      let read =
        unpack-ack c reads default_packet h packet_id rest (length bytes) lo hi hq hp
          (ack_available h packet_id rest) in
      ap (λ r. r >>= λ u. parsed c host u.0 u.1 bytes m self) read
      ∙ parsed_ok c host self (ack_packet h packet_id) bytes reply m m' handle found handled

  -- A PUBACK packet from a client that is in the registry, when it has come whole, is taken from the
  -- receive buffer, and exactly the packet that is stored under its packet id is no longer stored.
  pub parse_data_puback :
      (self : MqttSession) (h : Header) (packet_id : ℕ) (rest : List ℕ) (m : Manager)
      (cs : ClientSession)
      → h.kind ≡ 4
      → h.qos < 4
      → packet_id < 256 * 256
      → session_present self.client_id m ≡ some cs
      → (m' : Manager) × (cs' : ClientSession) × (parse_data c host self
            (ack_bytes h packet_id ++ rest)
            m
          ≡ done (self, c.erase_front 4 (ack_bytes h packet_id ++ rest), m'))
        × (session_present self.client_id m' ≡ some cs')
        × ((k : ℕ) → find k cs'.inflight ≡ (if packet_id == k then none else find k cs.inflight))
  parse_data_puback self h packet_id rest m cs hk hq hp there =
      let active : ClientSession = record cs { last_activity = m.now } in
      let cs' = (remove_from_inflight packet_id active).0 in
      let m' = write_client cs' (update_activity self.client_id m) in
      (
        m',
        cs',
        parse_data_ack self h packet_id rest [] m m' (puback_handler c host) (omega (arith, hk))
            (omega (arith, hk)) hq hp
            (ap (get_elem? (handlers c host)) hk ∙ (unfold handlers in refl))
            (puback_handler_found c host (ack_packet h packet_id) (record { packet_id = packet_id })
              m self cs refl there),
        session_present-write_client self.client_id active cs' _
            (active_session self.client_id cs m there) (remove_from_inflight_ref packet_id active),
        λ k. inflight_left packet_id k active,
      )

  -- A PUBREC packet and then a PUBCOMP packet for the same packet id, from a client that is in the
  -- registry, when they have come whole, are taken from the receive buffer. No PUBREL packet is stored
  -- under the id any more, but the PUBLISH packets that were stored all still are.
  pub parse_data_pubrec-pubcomp :
      (self : MqttSession) (h h' : Header) (packet_id : ℕ) (rest rest' : List ℕ) (m : Manager)
      (cs : ClientSession)
      → h.kind ≡ 5
      → h.qos < 4
      → h'.kind ≡ 7
      → h'.qos < 4
      → packet_id < 256 * 256
      → session_present self.client_id m ≡ some cs
      → (m₁ m₂ : Manager) × (cs' : ClientSession) × (parse_data c host self
            (ack_bytes h packet_id ++ rest)
            m
          ≡ done (self, c.erase_front 4 (ack_bytes h packet_id ++ rest), m₁))
        × (parse_data c host self (ack_bytes h' packet_id ++ rest') m₁
            ≡ done (self, c.erase_front 4 (ack_bytes h' packet_id ++ rest'), m₂))
        × (session_present self.client_id m₂ ≡ some cs')
        × (find packet_id cs'.inflight_ack ≡ none)
        × (cs'.inflight ≡ cs.inflight)
  parse_data_pubrec-pubcomp self h h' packet_id rest rest' m cs hk hq hk' hq' hp there =
      let active : ClientSession = record cs { last_activity = m.now } in
      let cs₁ = with_pubrel host packet_id active in
      let reply = (build_ack host packet_id Kind.pubrel []).1 in
      let written = write_client cs₁ (update_activity self.client_id m) in
      let m₁ = push_data self reply written in
      let there₁ : session_present self.client_id m₁ ≡ some cs₁ =
        unfold session_present in
        session_present-write_client self.client_id active cs₁ (update_activity self.client_id m)
          (active_session self.client_id cs m there) refl in
      let active₁ : ClientSession = record cs₁ { last_activity = m₁.now } in
      let cs' = (remove_from_inflight_ack packet_id active₁).0 in
      let m₂ = write_client cs' (update_activity self.client_id m₁) in
      let a : Ack = record { packet_id = packet_id } in
      (
        m₁,
        m₂,
        cs',
        parse_data_ack self h packet_id rest reply m m₁ (pubrec_handler c host) (omega (arith, hk))
            (omega (arith, hk)) hq hp
            (ap (get_elem? (handlers c host)) hk ∙ (unfold handlers in refl))
            (pubrec_handler_found c host (ack_packet h packet_id) a m self cs refl there),
        parse_data_ack self h' packet_id rest' [] m₁ m₂ (pubcomp_handler c host)
            (omega (arith, hk')) (omega (arith, hk')) hq' hp
            (ap (get_elem? (handlers c host)) hk' ∙ (unfold handlers in refl))
            (pubcomp_handler_found c host (ack_packet h' packet_id) a m₁ self cs₁ refl there₁),
        session_present-write_client self.client_id active₁ cs' _
            (active_session self.client_id cs₁ m₁ there₁)
            (remove_from_inflight_ack_rest packet_id active₁).0,
        ack_left packet_id packet_id active₁ ∙ ground (arith, nat_eq.same_iff packet_id packet_id),
        (remove_from_inflight_ack_rest packet_id active₁).1,
      )
