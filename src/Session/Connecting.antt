-- ===== src/Session/Connecting.antt =====
-- A CONNECT packet from the bytes that have come to the new state of the manager: `parseData` of
-- mqtt/src/mqttsession.cpp with `unpack` and `connectHandler`.
use culex_mqtt_broker.Common.{
  ℕ, ◌^◌, ◌<◌, ◌≡◌, refl, ap, ◌∙◌, List, [], ◌++◌, some, none, Outcome, done, ◌>>=◌, length,
  length-append, get_elem?, string_eq, arith,
}
use culex_mqtt_broker.Core.{Core, Reads}
use culex_mqtt_broker.Packets.{
  Packet, Connect, connect, mqtt_ok, connection_accepted, default_packet,
}
use culex_mqtt_broker.Packets.Flags.{Header}
use culex_mqtt_broker.Build.{Host}
use culex_mqtt_broker.Unpack.Wire.{connect_bytes, frame_bytes}
use culex_mqtt_broker.Unpack.Wire.Connecting.{ConnectFits, as_sent, unpack-connect}
use culex_mqtt_broker.Manager.{Manager, MqttSession, session_present, set_client_id, push_data}
use culex_mqtt_broker.Handlers.{Handled}
use culex_mqtt_broker.Handlers.Connecting.{connect_handler}
use culex_mqtt_broker.Handlers.Registration.{expiring, registered, connect_handler_registers}
use culex_mqtt_broker.Session.{
  Parsed, parsed, parse_data, handlers, answer, call_handler, get_connect,
}

set_client_id-session_present :
    (ref : ℕ) (client_id k : List ℕ) (m : Manager)
    → session_present k (set_client_id ref client_id m) ≡ session_present k m
unfolding session_present set_client_id
set_client_id-session_present ref client_id k m = refl

module _ (c : Core) (host : Host) (reads : Reads c) where
  -- A CONNECT packet that is handled by its handler.
  parsed-connect :
      (self : MqttSession) (pkt : Packet) (cn : Connect) (recv bytes : List ℕ) (m m₁ : Manager)
      → pkt.header.kind ≡ 1
      → pkt.pkt ≡ connect cn
      → connect_handler c host pkt [] m self ≡ done (connection_accepted, bytes, m₁)
      → parsed c host mqtt_ok pkt recv m self
        ≡ done (
          record self { client_id = cn.client_id },
          c.erase_front pkt.pkt_len recv,
          push_data
              (record self { client_id = cn.client_id })
              bytes
              (set_client_id self.ref cn.client_id m₁),
        )
  unfolding parsed handlers answer
  parsed-connect self pkt cn recv bytes m m₁ hk body handled =
      let rest = c.erase_front pkt.pkt_len recv in
      let go_on : Outcome Handled → Outcome Parsed = λ r. r >>= answer self pkt rest in
      ap (λ i. go_on (call_handler c host (get_elem? (handlers c host) i) pkt m self)) hk
      ∙ ap go_on handled
      ∙ ap
          (λ b. get_connect b >>= λ cn. done (
            record self { client_id = cn.client_id },
            rest,
            push_data (record self { client_id = cn.client_id }) bytes
                (set_client_id self.ref cn.client_id m₁),
          ))
          body

  -- A CONNECT packet of the protocol level 4 that a connection sends whole, with fields in their
  -- ranges, from a client that is not in the registry: the packet is taken from the receive buffer, the
  -- connection gets the client's id, and the registry holds the client's session with the packet's
  -- fields, attached to this connection.
  pub parse_data_connect :
      (self : MqttSession) (h : Header) (cn : Connect) (rest : List ℕ) (m : Manager)
      → h.kind ≡ 1
      → h.qos < 4
      → ConnectFits cn
      → length (connect_bytes cn) < 128 ^ 3
      → cn.level ≡ 4
      → session_present cn.client_id m ≡ none
      → (m' : Manager) × (parse_data c host self (frame_bytes h (connect_bytes cn) ++ rest) m
          ≡ done (
            record self { client_id = cn.client_id },
            c.erase_front
                (length (frame_bytes h (connect_bytes cn)))
                (frame_bytes h (connect_bytes cn) ++ rest),
            m',
          ))
        × (session_present cn.client_id m' ≡ some (expiring (registered (as_sent cn) m self)))
  unfolding parse_data
  parse_data_connect self h cn rest m hk hq fit small level absent =
      let bytes = frame_bytes h (connect_bytes cn) in
      let pkt : Packet = record {
        header = h;
        pkt_len = length bytes;
        pkt = connect (as_sent cn);
      } in
      let read =
        unpack-connect c reads default_packet h cn rest (length (bytes ++ rest)) hk hq fit small
          (omega (arith, length-append bytes rest)) in
      let (sent, m₁, handled, registers) =
        connect_handler_registers c host pkt (as_sent cn) [] m self refl level absent in
      (
        push_data (record self { client_id = cn.client_id }) sent
            (set_client_id self.ref cn.client_id m₁),
        ap (λ r. r >>= λ u. parsed c host u.0 u.1 (bytes ++ rest) m self) read
            ∙ parsed-connect self pkt (as_sent cn) (bytes ++ rest) sent m m₁ hk refl handled,
        unfold session_present set_client_id in registers,
      )
