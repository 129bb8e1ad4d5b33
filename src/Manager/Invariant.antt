-- ===== src/Manager/Invariant.antt =====
-- What holds of `ManageSessions` and of the objects that it keeps, and which every operation keeps.
pub mod Registry
pub mod Lookup
pub mod Receivers
pub mod Sends
pub mod Recipients
pub mod Resending
pub mod Overdue
pub mod Clients
pub mod Kept
pub mod Timers
pub mod Routing
pub mod Retransmission
use culex_mqtt_broker.Common.{ℕ, ◌+◌, ◌≤◌, ◌<◌, ◌≡◌, ◌≢◌, List, [], ◌∷◌, All}
use culex_mqtt_broker.Packets.{Packet, Publish, Ack, publish, ack}
use culex_mqtt_broker.ClientSession.{ClientSession}
use culex_mqtt_broker.ClientSession.PacketIds.{IsPacketId}
use culex_mqtt_broker.Manager.{Manager, MqttSession}
use culex_mqtt_broker.Manager.Heap.{IsSorted}

-- A PUBLISH packet under its own id, and an acknowledgement under its own.
abbrev pub IsPublishAt : ℕ × Packet → Type 0
IsPublishAt e = (p : Publish) × (e.1.pkt ≡ publish p) × (p.packet_id ≡ e.0)

abbrev pub IsAckAt : ℕ × Packet → Type 0
IsAckAt e = (a : Ack) × (e.1.pkt ≡ ack a) × (a.packet_id ≡ e.0)

pub record ClientValid (next_ref : ℕ) (cs : ClientSession) : Type 0 where
  pub numbered : IsPacketId cs.next_packet_id
  pub made : cs.ref < next_ref
  pub stored : All IsPublishAt cs.inflight
  pub acknowledged : All IsAckAt cs.inflight_ack

-- Another entry has another key and another object.
abbrev pub IsApart : List ℕ × ClientSession → List ℕ × ClientSession → Type 0
IsApart e e' = (e'.0 ≢ e.0) × (e'.1.ref ≢ e.1.ref)

-- Each client stands under its id, and once.
abbrev pub RegistryValid : ℕ → List (List ℕ × ClientSession) → Type 0
RegistryValid next_ref [] = Unit {0}
RegistryValid next_ref (e ∷ r) =
    (e.1.client_id ≡ e.0) × ClientValid next_ref e.1 × All (IsApart e) r × RegistryValid next_ref r

-- Each connection stands under its descriptor.
abbrev pub SessionValid : ℕ → ℕ × MqttSession → Type 0
SessionValid next_ref e = (e.1.fd ≡ e.0) × (e.1.ref < next_ref)

pub record IsValid (m : Manager) : Type 0 where
  pub clients : RegistryValid m.next_ref m.registry
  pub expiries : IsSorted (λ e. e.expiry_ms) m.expiry_heap
  pub retries : IsSorted (λ e. e.retry_ms) m.retransmit_heap
  pub connections : All (SessionValid m.next_ref) m.sessions
