-- ===== src/Packets.antt =====
-- mqtt/include/packets.h and mqtt/src/packets.cpp: the control packets, the bytes of flags, and the
-- variable length encoding. A `uint8_t` or `uint16_t` is a number, a `std::string` and a
-- `std::vector<uint8_t>` a list of bytes.
pub mod Kind
pub mod Flags
pub mod FlagsRoundTrip
pub mod Length
use culex_mqtt_broker.Common.{ℕ, false, List, []}
use Flags.{Header, ConnectFlags}

pub record Connect : Type 0 where
  pub level : ℕ
  pub cf : ConnectFlags
  pub keep_alive : ℕ
  pub client_id : List ℕ
  pub will_topic : List ℕ
  pub will_msg : List ℕ
  pub username : List ℕ
  pub passwd : List ℕ

pub record Connack : Type 0 where
  pub ack_flags : ℕ
  pub return_code : ℕ

pub record Publish : Type 0 where
  pub topic : List ℕ
  pub packet_id : ℕ
  pub payload : List ℕ

-- `Puback`, `Pubrec`, `Pubrel`, `Pubcomp` and `Unsuback` are this type too.
pub record Ack : Type 0 where
  pub packet_id : ℕ

-- `struct tuple`: a topic filter and the QoS asked for.
pub record TopicFilter : Type 0 where
  pub topic : List ℕ
  pub qos : ℕ

pub record Subscribe : Type 0 where
  pub packet_id : ℕ
  pub payload : List TopicFilter

pub record Suback : Type 0 where
  pub packet_id : ℕ
  pub return_codes : List ℕ

pub record Unsubscribe : Type 0 where
  pub packet_id : ℕ
  pub topics : List (List ℕ)

-- `std::variant<Connack, Ack, Connect, Publish, Subscribe, Unsubscribe>`
pub data Body : Type 0 where
  connack : Connack → Body
  ack : Ack → Body
  connect : Connect → Body
  publish : Publish → Body
  subscribe : Subscribe → Body
  unsubscribe : Unsubscribe → Body

pub record Packet : Type 0 where
  pub header : Header
  pub pkt_len : ℕ
  pub pkt : Body

-- The internal return codes, `#define MQTT_OK 0` and so on; `mqtt_err` is `-MQTT_ERR`.
pub data ReturnCode : Type 0 where
  mqtt_ok mqtt_err partial_packet connection_accepted unacceptable_protocol_version : ReturnCode

abbrev pub default_header : Header
default_header = record { kind = 1; dup = false; qos = 0; retain = false }

-- `Packet{}`: the variant holds its first alternative.
abbrev pub default_packet : Packet
default_packet = record {
  header = default_header;
  pkt_len = 0;
  pkt = connack (record { ack_flags = 0; return_code = 0 });
}

abbrev pub default_flags : ConnectFlags
default_flags = record {
  username = false;
  passwd = false;
  will_retain = false;
  will_qos = 0;
  will = false;
  cleansession = false;
}

abbrev pub default_connect : Connect
default_connect = record {
  level = 4;
  cf = default_flags;
  keep_alive = 0;
  client_id = [];
  will_topic = [];
  will_msg = [];
  username = [];
  passwd = [];
}
