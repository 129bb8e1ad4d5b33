-- ===== src/Session/Stream.antt =====
-- `parseData` of mqtt/src/mqttsession.cpp on bytes as they come from a connection.
use culex_mqtt_broker.Common.{
  ℕ, ◌+◌, ◌*◌, ◌/◌, ◌%◌, ◌^◌, ◌≤◌, ◌<◌, ◌≡◌, refl, List, ◌∷◌, ◌++◌, none, done, faults, All, length,
  length-append, string_eq, arith,
}
use culex_mqtt_broker.Core.{Core, Reads}
use culex_mqtt_broker.Packets.{Unsubscribe, partial_packet, default_packet}
use culex_mqtt_broker.Packets.Flags.{Header, unpack_header}
use culex_mqtt_broker.Packets.Length.Encode.{base128}
use culex_mqtt_broker.Build.{Host}
use culex_mqtt_broker.Unpack.{unpack}
use culex_mqtt_broker.Unpack.Errors.{
  IsHandled, IsNull, unpack_cut_short, unpack_past_end, unpack_null_entry,
}
use culex_mqtt_broker.Unpack.Wire.{IsShort, unsubscribe_bytes, frame_bytes}
use culex_mqtt_broker.Unpack.Wire.Subscribing.{unpack-unsubscribe}
use culex_mqtt_broker.Manager.{Manager, MqttSession, session_present}
use culex_mqtt_broker.Handlers.{unsubscribe_handler}
use culex_mqtt_broker.Handlers.Acknowledging.{present_unknown}
use culex_mqtt_broker.Session.{parsed, parse_data, handlers, answer}

module _ (c : Core) (host : Host) (reads : Reads c) where
  -- A first byte whose type is 11 or more, as a PINGREQ or a DISCONNECT has, leads out of the table
  -- of deserializers, and no handler is called.
  pub parse_data_past_end :
      (self : MqttSession) (b : ℕ) (mem : List ℕ) (m : Manager)
      → b < 256
      → 11 ≤ b / 16
      → parse_data c host self (b ∷ mem) m ≡ faults
  unfolding parse_data
  parse_data_past_end self b mem m h past =
      rw (unpack_past_end c reads default_packet b mem (length (b ∷ mem)) h past)

  cut_short :
      (b n : ℕ) (part : List ℕ)
      → b < 256
      → IsHandled (b / 16)
      → n < 128 ^ 3
      → length part < n
      → unpack c default_packet (b ∷ (base128 4 n ++ part)) (length (b ∷ (base128 4 n ++ part)))
        ≡ done (partial_packet, record default_packet { header = unpack_header b }, part)
  cut_short b n part hb hk small short =
      let size : length (b ∷ (base128 4 n ++ part)) ≡ 1 + length (base128 4 n) + length part =
        omega (arith, length-append (base128 4 n) part) in
      rw (size) (unpack_cut_short c reads default_packet b n part hb hk small short)

  -- A packet of a known type of which the length field is there whole and the rest is not, is kept:
  -- `parseData` leaves the connection, the receive buffer and the manager as they are.
  pub parse_data_partial :
      (self : MqttSession) (b n : ℕ) (part : List ℕ) (m : Manager)
      → b < 256
      → IsHandled (b / 16)
      → n < 128 ^ 3
      → length part < n
      → parse_data c host self (b ∷ (base128 4 n ++ part)) m
        ≡ done (self, b ∷ (base128 4 n ++ part), m)
  unfolding parse_data parsed
  parse_data_partial self b n part m hb hk small short = rw (cut_short b n part hb hk small short)

  -- A packet of a type without a deserializer, from a connection whose client is not in the
  -- registry, as before a CONNECT, makes `parseData` go through a null pointer.
  pub parse_data_null_session :
      (self : MqttSession) (b : ℕ) (mem : List ℕ) (m : Manager)
      → b < 256
      → IsNull (b / 16)
      → session_present self.client_id m ≡ none
      → parse_data c host self (b ∷ mem) m ≡ faults
  unfolding parse_data parsed
  parse_data_null_session self b mem m h null gone = rw (
    unpack_null_entry c reads default_packet b mem (length (b ∷ mem)) h null,
    present_unknown self.client_id m gone,
  )

  -- An UNSUBSCRIBE packet that a connection sends whole, whose QoS bits are 1 or 3, is taken from the
  -- receive buffer and ignored: no subscription is removed, nothing is sent, and nothing else of the
  -- manager changes.
  pub parse_data_unsubscribe :
      (self : MqttSession) (h : Header) (u : Unsubscribe) (rest : List ℕ) (m : Manager)
      → h.kind ≡ 10
      → h.qos < 4
      → h.qos % 2 ≡ 1
      → u.packet_id < 256 * 256
      → All IsShort u.topics
      → length (unsubscribe_bytes u) < 128 ^ 3
      → parse_data c host self (frame_bytes h (unsubscribe_bytes u) ++ rest) m
        ≡ done (
          self,
          c.erase_front
              (length (frame_bytes h (unsubscribe_bytes u)))
              (frame_bytes h (unsubscribe_bytes u) ++ rest),
          m,
        )
  unfolding parse_data parsed handlers unsubscribe_handler answer
  parse_data_unsubscribe self h u rest m hk hq odd hp short small =
      let bytes = frame_bytes h (unsubscribe_bytes u) in
      let read =
        unpack-unsubscribe c reads default_packet h u rest (length (bytes ++ rest)) hk hq odd hp
          short small (omega (arith, length-append bytes rest)) in
      rw (read, hk) refl
