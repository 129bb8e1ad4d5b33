-- ===== src/ClientSession.antt =====
-- `ClientSession` of mqtt/include/mqttsession.h: the state of a client that outlives a connection.
-- Its set `subscriptions` is never used and left out, and its locks are not modelled: a method is one
-- step. Times are milliseconds of the steady clock.
pub mod PacketIds
pub mod Inflight
use culex_mqtt_broker.Common.{
  ℕ, ◌+◌, ◌%◌, ◌^◌, Bool, false, List, [], ◌∷◌, ◌++◌, Option, none, some, nat_beq, nat_eq,
  if◌then◌else◌, Outcome, done, ◌>>=◌, find, insert, erase, value_or,
}
use culex_mqtt_broker.Packets.Kind
use culex_mqtt_broker.Packets.Kind.{PacketType}
use culex_mqtt_broker.Packets.{Packet, default_packet}
use culex_mqtt_broker.Build.{get_publish, get_ack}

-- `ref` is the identity of the object, by which weak pointers find it; `session` is the weak pointer
-- to the connection.
pub record ClientSession : Type 0 where
  pub ref : ℕ
  pub client_id : List ℕ
  pub keep_alive : ℕ
  pub cleansession : Bool
  pub connected : Bool
  pub session : Option ℕ
  pub expiry_ms : ℕ
  pub last_activity : ℕ
  pub inflight : List (ℕ × Packet)
  pub inflight_ack : List (ℕ × Packet)
  pub message_queue : List Packet
  pub next_packet_id : ℕ

-- `std::make_shared<ClientSession>()`
abbrev pub new_client_session : ℕ → ClientSession
new_client_session ref = record {
  ref = ref;
  client_id = [];
  keep_alive = 0;
  cleansession = false;
  connected = false;
  session = none;
  expiry_ms = 0;
  last_activity = 0;
  inflight = [];
  inflight_ack = [];
  message_queue = [];
  next_packet_id = 1;
}

-- `allocatePacketId`; the field is a `uint16_t`.
unfoldable pub allocate_packet_id : ClientSession → ClientSession × ℕ
allocate_packet_id cs =
    let next = (cs.next_packet_id + 1) % 2 ^ 16 in
    if nat_beq next 0
    then (record cs { next_packet_id = 1 }, 1)
    else (record cs { next_packet_id = next }, next)

-- `storeInflight`
unfoldable pub store_inflight : Packet → ClientSession → Outcome ClientSession
store_inflight packet cs = do
  pub_pkt ← get_publish packet.pkt
  done (record cs { inflight = insert pub_pkt.packet_id packet cs.inflight })

-- `storeInflightAcknowlegement`
unfoldable pub store_inflight_ack : Packet → ClientSession → Outcome ClientSession
store_inflight_ack packet cs = do
  ack_pkt ← get_ack packet.pkt
  done (record cs { inflight_ack = insert ack_pkt.packet_id packet cs.inflight_ack })

-- `removeFromInflight`; a missing packet is returned as `Packet{}`.
unfoldable pub remove_from_inflight : ℕ → ClientSession → ClientSession × Packet
remove_from_inflight packet_id cs = elim (find packet_id cs.inflight) [
  | some pkt ↦ (record cs { inflight = erase packet_id cs.inflight }, pkt)
  | none ↦ (cs, default_packet)
]

-- `removeFromInflightAcknowlegement`
unfoldable pub remove_from_inflight_ack : ℕ → ClientSession → ClientSession × Packet
remove_from_inflight_ack packet_id cs = elim (find packet_id cs.inflight_ack) [
  | some pkt ↦ (record cs { inflight_ack = erase packet_id cs.inflight_ack }, pkt)
  | none ↦ (cs, default_packet)
]

-- `getPacket`
unfoldable pub get_packet : ℕ → PacketType → ClientSession → Packet
get_packet packet_id kind cs =
    if nat_beq kind Kind.publish
    then value_or (find packet_id cs.inflight) default_packet
    else value_or (find packet_id cs.inflight_ack) default_packet

-- `storeMessage`
unfoldable pub store_message : Packet → ClientSession → ClientSession
store_message packet cs = record cs { message_queue = cs.message_queue ++ packet ∷ [] }
