-- ===== src/TestClients.antt =====
-- The test clients, mqtt/test/publisher and mqtt/test/subscriber: the packets that they write into
-- their buffers, and what they read from and answer to the packets that come.
pub mod Publisher
pub mod Subscriber
pub mod Exchange
pub mod Acknowledging
pub mod EndToEnd
use culex_mqtt_broker.Common.{
  ℕ, ◌+◌, ◌-◌, ◌*◌, ◌/◌, ◌%◌, ◌^◌, List, [], ◌∷◌, ◌++◌, Option, none, some, ltb, leb, nat_beq,
  if◌then◌else◌, Outcome, done, throws, faults, length_error, ◌>>=◌, length, get_elem?, take, drop,
}

-- `uint8_t packet[100]`: a write past the end is undefined behaviour.
abbrev pub packet_size : ℕ
packet_size = 100

abbrev pub fill : List ℕ → Outcome (List ℕ)
fill bytes = if leb (length bytes) packet_size then done bytes else faults

-- `packet_id >> 8` and `packet_id & 0xFF` of a `uint16_t`.
abbrev pub put_id : ℕ → List ℕ
put_id packet_id = (packet_id / 2 ^ 8) ∷ (packet_id % 2 ^ 8) ∷ []

-- The length of a string in one byte, behind a zero, and the string.
abbrev pub put_topic : List ℕ → List ℕ
put_topic topic = 0x00 ∷ (length topic % 2 ^ 8) ∷ topic

-- The packets that `main` of publisher/qos0.cpp, qos1.cpp and qos2.cpp write, for any topic and payload.
unfoldable pub publish_qos0 : List ℕ → List ℕ → Outcome (List ℕ)
publish_qos0 topic payload =
    let remaining = 2 + length topic + length payload in
    fill (0x30 ∷ (remaining % 2 ^ 8) ∷ (put_topic topic ++ payload))

unfoldable pub publish_qos1 : List ℕ → List ℕ → ℕ → Outcome (List ℕ)
publish_qos1 topic payload packet_id =
    let remaining = 2 + length topic + 2 + length payload in
    fill (0x32 ∷ (remaining % 2 ^ 8) ∷ (put_topic topic ++ (put_id packet_id ++ payload)))

unfoldable pub publish_qos2 : List ℕ → List ℕ → ℕ → Outcome (List ℕ)
publish_qos2 topic payload packet_id =
    let remaining = 2 + length topic + 2 + length payload in
    fill (0x34 ∷ (remaining % 2 ^ 8) ∷ (put_topic topic ++ (put_id packet_id ++ payload)))

-- `packet_id++`
abbrev pub next_id : ℕ → ℕ
next_id packet_id = (packet_id + 1) % 2 ^ 16

-- What publisher/qos2.cpp sends when `resp` has come, of four bytes: a PUBREL packet if it is a PUBREC
-- packet.
unfoldable pub pubrel_after : ℕ → List ℕ → Option (List ℕ)
pubrel_after packet_id [] = none
pubrel_after packet_id (first ∷ resp) =
    if nat_beq (first / 2 ^ 4) 5 then some (0x62 ∷ 0x02 ∷ put_id packet_id) else none

-- `send_connect` of publisher/common.h and of subscriber/common.h
abbrev pub publisher_connect : List ℕ
publisher_connect =
    0x10 ∷ 0x10 ∷ 0x00 ∷ 0x04 ∷ b'M' ∷ b'Q' ∷ b'T' ∷ b'T' ∷ 0x04 ∷ 0x02 ∷ 0x00 ∷ 0x05 ∷ 0x00 ∷ 0x04
    ∷ b't' ∷ b'e' ∷ b's' ∷ b't' ∷ []

abbrev pub subscriber_connect : List ℕ
subscriber_connect =
    0x10 ∷ 0x11 ∷ 0x00 ∷ 0x04 ∷ b'M' ∷ b'Q' ∷ b'T' ∷ b'T' ∷ 0x04 ∷ 0x02 ∷ 0x00 ∷ 0x3C ∷ 0x00 ∷ 0x05
    ∷ b't' ∷ b'e' ∷ b's' ∷ b't' ∷ b'1' ∷ []

-- `send_subscribe` of subscriber/common.h
unfoldable pub send_subscribe : ℕ → ℕ → List ℕ → Outcome (List ℕ)
send_subscribe packet_id qos topic =
    let remaining = 2 + 2 + length topic + 1 in
    fill (0x82 ∷ (remaining % 2 ^ 8) ∷ (put_id packet_id ++ (put_topic topic ++ qos ∷ [])))

-- `buffer[i]`
unfoldable pub read_at : List ℕ → ℕ → Outcome ℕ
read_at buffer i = elim (get_elem? buffer i) [ none ↦ faults | some b ↦ done b ]

-- `(buffer[i] << 8) | buffer[i + 1]`
unfoldable pub read_u16 : List ℕ → ℕ → Outcome ℕ
read_u16 buffer i = do hi ← read_at buffer i; lo ← read_at buffer (i + 1); done (hi * 2 ^ 8 + lo)

-- `std::string((char*)&buffer[start], size)`
unfoldable pub string_at : List ℕ → ℕ → ℕ → Outcome (List ℕ)
string_at buffer start size =
    if leb (start + size) (length buffer) then done (take size (drop start buffer)) else faults

-- `std::string((char*)&buffer[start], n - start)`: a negative size is one beyond the largest.
unfoldable pub rest_from : List ℕ → ℕ → ℕ → Outcome (List ℕ)
rest_from buffer n start =
    if ltb n start then throws length_error else string_at buffer start (n - start)

abbrev pub text_of : List ℕ → ℕ → Outcome (Option (List ℕ × List ℕ))
text_of buffer n = do
  topic_len ← read_u16 buffer 2
  topic ← string_at buffer 4 topic_len
  payload ← rest_from buffer n (4 + topic_len)
  done (some (topic, payload))

-- What a pass of the loop in `main` of subscriber/qos0.cpp prints of the `n` bytes that have come, and
-- nothing for a packet of another type.
unfoldable pub read_qos0 : List ℕ → ℕ → Outcome (Option (List ℕ × List ℕ))
read_qos0 buffer n = do
  first ← read_at buffer 0
  if nat_beq (first / 2 ^ 4) 3 then text_of buffer n else done none

-- What a pass of the loop in `main` of subscriber/qos1.cpp and of qos2.cpp prints and sends.
pub record Reply : Type 0 where
  pub printed : List ℕ
  pub answer : List ℕ

-- The packet id, and where the payload starts.
abbrev pub id_if : List ℕ → ℕ → ℕ → Outcome (ℕ × ℕ)
id_if buffer qos idx =
    let read = read_u16 buffer idx >>= λ packet_id. done (packet_id, idx + 2) in
    if ltb 0 qos then read else done (0, idx)

abbrev pub puback_for : List ℕ → ℕ → ℕ → Outcome (Option Reply)
puback_for buffer n qos = do
  topic_len ← read_u16 buffer 2
  (packet_id, idx) ← id_if buffer qos (4 + topic_len)
  payload ← rest_from buffer n idx
  done (some (record { printed = payload; answer = 0x40 ∷ 0x02 ∷ put_id packet_id }))

unfoldable pub answer_qos1 : List ℕ → ℕ → Outcome (Option Reply)
answer_qos1 buffer n = do
  first ← read_at buffer 0
  if nat_beq (first / 2 ^ 4) 3 then puback_for buffer n (first / 2 % 4) else done none

abbrev pub pubrec_for : List ℕ → ℕ → Outcome (Option Reply)
pubrec_for buffer n = do
  topic_len ← read_u16 buffer 2
  packet_id ← read_u16 buffer (4 + topic_len)
  payload ← rest_from buffer n (4 + topic_len + 2)
  done (some (record { printed = payload; answer = 0x50 ∷ 0x02 ∷ put_id packet_id }))

abbrev pub pubcomp_for : List ℕ → Outcome (Option Reply)
pubcomp_for buffer = do
  packet_id ← read_u16 buffer 2
  done (some (record { printed = []; answer = 0x70 ∷ 0x02 ∷ put_id packet_id }))

-- A PUBREL packet has a message of its own printed, which is left out.
unfoldable pub answer_qos2 : List ℕ → ℕ → Outcome (Option Reply)
answer_qos2 buffer n = do
  first ← read_at buffer 0
  (if nat_beq (first / 2 ^ 4) 3
      then pubrec_for buffer n
      else if nat_beq (first / 2 ^ 4) 6
      then pubcomp_for buffer
      else done none)
