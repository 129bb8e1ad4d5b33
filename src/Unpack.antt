-- ===== src/Unpack.antt =====
-- mqtt/src/unpack.cpp: the deserializers. `*buff` is the memory from the pointer on, and comes back
-- as the memory from the moved pointer on. The packet is passed and returned, since the functions
-- write to it before they fail.
pub mod Frame
pub mod Sizes
pub mod Wire
pub mod Errors
pub mod Total
use culex_mqtt_broker.Common.{
  ℕ, zero, suc, ◌+◌, ◌-◌, ◌%◌, ◌^◌, bit_and, Bool, true, false, not, List, [], ◌∷◌, ◌++◌, Option,
  none, some, ltb, leb, nat_beq, string_beq, if◌then◌else◌, Outcome, done, throws, faults, stuck,
  length_error, ◌>>=◌, length, get_elem?, take, drop,
}
use culex_mqtt_broker.Core.{Core}
use culex_mqtt_broker.Packets.Flags.{pack_header, unpack_header, unpack_flags}
use culex_mqtt_broker.Packets.{
  Packet, Connect, Publish, TopicFilter, Subscribe, Unsubscribe, ReturnCode, mqtt_ok, mqtt_err,
  partial_packet, ack, connect, publish, subscribe, unsubscribe,
}
use culex_mqtt_broker.Packets.Length.{decode_length}

abbrev pub Unpacked : Type 0
Unpacked = ReturnCode × Packet × List ℕ

-- `is_partial`: `none` for true, and `some remaining_len` for false. `*buff - start` is how far the
-- pointer has moved.
unfoldable pub is_partial : List ℕ → ℕ → Outcome (Option ℕ × List ℕ)
is_partial mem available_bytes = if leb available_bytes 1 then done (none, mem) else do
  (remaining_len, after) ← decode_length mem available_bytes
  elim remaining_len [
    | none ↦ done (none, after)
    | some n ↦
        if ltb available_bytes (1 + (length mem - length after) + n)
        then done (none, after)
        else done (some n, after)
  ]

-- The opening lines of each deserializer: a partial packet is reported, and otherwise `body` goes
-- on with `remaining_len` and the memory behind it.
abbrev pub framed_body :
    Packet → (ℕ → List ℕ → Outcome Unpacked) → Option ℕ → List ℕ → Outcome Unpacked
framed_body packet body none after = done (partial_packet, packet, after)
framed_body packet body (some n) after = body n after

unfoldable pub framed : Packet → List ℕ → ℕ → (ℕ → List ℕ → Outcome Unpacked) → Outcome Unpacked
framed packet mem available_bytes body = do
  (remaining_len, after) ← is_partial mem available_bytes
  framed_body packet body remaining_len after

-- `packet.pkt_len = sizeof(uint8_t) + length_of_remaining_len + remaining_len`
abbrev pub set_pkt_len : Packet → List ℕ → List ℕ → ℕ → Packet
set_pkt_len packet mem after remaining_len = record packet {
  pkt_len = 1 + (length mem - length after) + remaining_len;
}

abbrev pub mqtt_name : List ℕ
mqtt_name = b'M' ∷ b'Q' ∷ b'T' ∷ b'T' ∷ []

-- A call through an entry of the jump table. Past the end of the array it is undefined behaviour;
-- a null entry is reported.
abbrev pub dispatch :
    Option (Option (Packet → List ℕ → ℕ → Outcome Unpacked))
    → Packet
    → List ℕ
    → ℕ
    → Outcome Unpacked
dispatch none pkt mem available_bytes = faults
dispatch (some none) pkt mem available_bytes = done (mqtt_err, pkt, mem)
dispatch (some (some handler)) pkt mem available_bytes = handler pkt mem available_bytes

module _ (c : Core) where
  abbrev pub string_if : Bool → List ℕ → Outcome (List ℕ × List ℕ)
  string_if true mem = c.unpack_string16 mem
  string_if false mem = done ([], mem)

  abbrev pub two_strings_if : Bool → List ℕ → Outcome (List ℕ × List ℕ × List ℕ)
  two_strings_if true mem = do
    (topic, mem₁) ← c.unpack_string16 mem
    (msg, mem₂) ← c.unpack_string16 mem₁
    done (topic, msg, mem₂)
  two_strings_if false mem = done ([], [], mem)

  unfoldable pub connect_rest : Packet → List ℕ → Outcome Unpacked
  connect_rest packet mem = do
    (level, mem₁) ← c.unpack_u8 mem
    (byte, mem₂) ← c.unpack_u8 mem₁
    let cf = unpack_flags byte
    (keep_alive, mem₃) ← c.unpack_u16 mem₂
    (client_id, mem₄) ← c.unpack_string16 mem₃
    (will_topic, will_msg, mem₅) ← two_strings_if cf.will mem₄
    (username, mem₆) ← string_if cf.username mem₅
    (passwd, mem₇) ← string_if cf.passwd mem₆
    let cn : Connect = record {
      level = level;
      cf = cf;
      keep_alive = keep_alive;
      client_id = client_id;
      will_topic = will_topic;
      will_msg = will_msg;
      username = username;
      passwd = passwd;
    }
    done (mqtt_ok, record packet { pkt = connect cn }, mem₇)

  unfoldable pub connect_body : Packet → List ℕ → ℕ → List ℕ → Outcome Unpacked
  unfolding connect_rest
  connect_body packet mem remaining_len after = do
    let packet₁ = set_pkt_len packet mem after remaining_len
    (protocol_name, mem₁) ← c.unpack_string16 after
    (if string_beq protocol_name mqtt_name
        then connect_rest packet₁ mem₁
        else done (mqtt_err, packet₁, mem₁))

  unfoldable pub unpack_connect : Packet → List ℕ → ℕ → Outcome Unpacked
  unfolding connect_body
  unpack_connect packet mem available_bytes =
      framed packet mem available_bytes (connect_body packet mem)

  abbrev pub packet_id_if : Bool → List ℕ → Outcome (ℕ × ℕ × List ℕ)
  packet_id_if true mem = do (packet_id, mem₁) ← c.unpack_u16 mem; done (packet_id, 2, mem₁)
  packet_id_if false mem = done (0, 0, mem)

  -- `payload.resize` throws on a negative size; `memcpy` reads `size` bytes.
  abbrev pub take_payload : ℕ → ℕ → List ℕ → Outcome (List ℕ × List ℕ)
  take_payload remaining_len used mem =
      if ltb remaining_len used
      then throws length_error
      else if ltb (length mem) (remaining_len - used)
      then faults
      else done (take (remaining_len - used) mem, drop (remaining_len - used) mem)

  unfoldable pub publish_body : Packet → List ℕ → ℕ → List ℕ → Outcome Unpacked
  publish_body packet mem remaining_len after = do
    let packet₁ = set_pkt_len packet mem after remaining_len
    (topic, mem₁) ← c.unpack_string16 after
    (packet_id, id_size, mem₂) ← packet_id_if (ltb 0 packet.header.qos) mem₁
    (payload, mem₃) ← take_payload remaining_len (length topic + 2 + id_size) mem₂
    let pub_pkt : Publish = record { topic = topic; packet_id = packet_id; payload = payload }
    done (mqtt_ok, record packet₁ { pkt = publish pub_pkt }, mem₃)

  unfoldable pub unpack_publish : Packet → List ℕ → ℕ → Outcome Unpacked
  unfolding publish_body
  unpack_publish packet mem available_bytes =
      framed packet mem available_bytes (publish_body packet mem)

  unfoldable pub ack_body : Packet → List ℕ → ℕ → List ℕ → Outcome Unpacked
  ack_body packet mem remaining_len after = do
    let packet₁ = set_pkt_len packet mem after remaining_len
    (packet_id, mem₁) ← c.unpack_u16 after
    done (mqtt_ok, record packet₁ { pkt = ack (record { packet_id = packet_id }) }, mem₁)

  unfoldable pub unpack_ack : Packet → List ℕ → ℕ → Outcome Unpacked
  unfolding ack_body
  unpack_ack packet mem available_bytes = framed packet mem available_bytes (ack_body packet mem)

  -- `while (payload_len > 0)` of `unpack_subscribe`. `payload_len` is an `int`: below 0 the loop
  -- ends as at 0. Each round takes 3 from it at least, so it is fuel enough.
  unfoldable pub filters_loop :
      ℕ → ℕ → List ℕ → List TopicFilter → Outcome (List TopicFilter × List ℕ)
  filters_loop zero payload_len mem filters =
      if ltb 0 payload_len then stuck else done (filters, mem)
  filters_loop (suc fuel) payload_len mem filters = elim (ltb 0 payload_len) [
    | false ↦ done (filters, mem)
    | true ↦ do
      (topic, mem₁) ← c.unpack_string16 mem
      (qos, mem₂) ← c.unpack_u8 mem₁
      filters_loop fuel (payload_len - (2 + length topic + 1)) mem₂
          (filters ++ record { topic = topic; qos = qos } ∷ [])
  ]

  unfoldable pub subscribe_body : Packet → List ℕ → ℕ → List ℕ → Outcome Unpacked
  subscribe_body packet mem remaining_len after = do
    let packet₁ = set_pkt_len packet mem after remaining_len
    (packet_id, mem₁) ← c.unpack_u16 after
    (filters, mem₂) ← filters_loop (remaining_len - 2) (remaining_len - 2) mem₁ []
    let sub : Subscribe = record { packet_id = packet_id; payload = filters }
    done (mqtt_ok, record packet₁ { pkt = subscribe sub }, mem₂)

  unfoldable pub unpack_subscribe : Packet → List ℕ → ℕ → Outcome Unpacked
  unfolding subscribe_body
  unpack_subscribe packet mem available_bytes =
      framed packet mem available_bytes (subscribe_body packet mem)

  -- `while (payload_len)` of `unpack_unsubscribe`. `payload_len` is a `size_t`, and wraps. Each round
  -- takes bytes from the memory, so one round more than there are bytes is enough fuel.
  unfoldable pub topics_loop : ℕ → ℕ → List ℕ → List (List ℕ) → Outcome (List (List ℕ) × List ℕ)
  topics_loop zero payload_len mem topics =
      if nat_beq payload_len 0 then done (topics, mem) else stuck
  topics_loop (suc fuel) payload_len mem topics = elim (nat_beq payload_len 0) [
    | true ↦ done (topics, mem)
    | false ↦ do
      (topic, mem₁) ← c.unpack_string16 mem
      topics_loop fuel ((payload_len + 2 ^ 64 - (2 + length topic)) % 2 ^ 64) mem₁
          (topics ++ topic ∷ [])
  ]

  unfoldable pub unsubscribe_body : Packet → List ℕ → ℕ → List ℕ → Outcome Unpacked
  unsubscribe_body packet mem remaining_len after =
      if not (nat_beq (bit_and (pack_header packet.header) 0x02) 0x02)
      then done (mqtt_err, packet, after)
      else do
        let packet₁ = set_pkt_len packet mem after remaining_len
        (packet_id, mem₁) ← c.unpack_u16 after
        (topics, mem₂) ←
            topics_loop (suc (length mem₁)) ((remaining_len + 2 ^ 64 - 2) % 2 ^ 64) mem₁ []
        let unsub : Unsubscribe = record { packet_id = packet_id; topics = topics }
        done (mqtt_ok, record packet₁ { pkt = unsubscribe unsub }, mem₂)

  unfoldable pub unpack_unsubscribe : Packet → List ℕ → ℕ → Outcome Unpacked
  unfolding unsubscribe_body
  unpack_unsubscribe packet mem available_bytes =
      framed packet mem available_bytes (unsubscribe_body packet mem)

  -- The array of 11 handlers; `none` is a null one.
  unfoldable pub unpack_handlers : List (Option (Packet → List ℕ → ℕ → Outcome Unpacked))
  unpack_handlers =
      none
      ∷ some unpack_connect
      ∷ none
      ∷ some unpack_publish
      ∷ some unpack_ack
      ∷ some unpack_ack
      ∷ some unpack_ack
      ∷ some unpack_ack
      ∷ some unpack_subscribe
      ∷ none
      ∷ some unpack_unsubscribe
      ∷ []

  -- The index is any value of four bits.
  unfoldable pub unpack : Packet → List ℕ → ℕ → Outcome Unpacked
  unpack pkt mem available_bytes = do
    (byte, after) ← c.unpack_u8 mem
    let pkt₁ = record pkt { header = unpack_header byte }
    dispatch (get_elem? unpack_handlers pkt₁.header.kind) pkt₁ after available_bytes
