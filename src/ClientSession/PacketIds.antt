-- ===== src/ClientSession/PacketIds.antt =====
-- The packet ids that a session hands out.
use culex_mqtt_broker.Common.{ℕ, zero, suc, ◌+◌, ◌%◌, ◌≤◌, ◌<◌, ◌≡◌, ◌≢◌, arith}
use culex_mqtt_broker.ClientSession.{ClientSession, allocate_packet_id}

-- The session after a number of allocations.
unfoldable pub allocate_many : ℕ → ClientSession → ClientSession
allocate_many zero cs = cs
allocate_many (suc k) cs = allocate_many k (allocate_packet_id cs).0

-- The id that is handed out after `k` others.
abbrev pub nth_packet_id : ℕ → ClientSession → ℕ
nth_packet_id k cs = (allocate_packet_id (allocate_many k cs)).1

abbrev pub IsPacketId : ℕ → Type 0
IsPacketId n = (1 ≤ n) × (n < 65536)

allocate_once :
    (cs : ClientSession)
    → IsPacketId cs.next_packet_id
    → ((allocate_packet_id cs).1 ≡ cs.next_packet_id % 65535 + 1)
      × ((allocate_packet_id cs).0.next_packet_id ≡ (allocate_packet_id cs).1)
unfolding allocate_packet_id
allocate_once cs h = ground arith

-- After `k` others comes the id at distance `k` in the cycle 1, ..., 65535.
pub nth_packet_id_cycle :
    (k : ℕ) (cs : ClientSession)
    → IsPacketId cs.next_packet_id
    → nth_packet_id k cs ≡ (cs.next_packet_id + k) % 65535 + 1
unfolding allocate_many
nth_packet_id_cycle zero cs h = omega (arith, allocate_once cs h)
nth_packet_id_cycle (suc k) cs h =
    let a = allocate_once cs h in
    omega (arith, nth_packet_id_cycle k (allocate_packet_id cs).0 (omega arith))

-- If the counter of a session stands at 1 to 65535, as at the start, every id that the session
-- hands out is a 16-bit number other than 0, and 65535 in a row are all different.
pub packet_ids_distinct :
    (i j : ℕ) (cs : ClientSession)
    → IsPacketId cs.next_packet_id
    → i < j
    → j < i + 65535
    → IsPacketId (nth_packet_id i cs) × (nth_packet_id i cs ≢ nth_packet_id j cs)
packet_ids_distinct i j cs h lt near =
    let a = nth_packet_id_cycle i cs h in
    let b = nth_packet_id_cycle j cs h in (omega arith, λ e. omega arith)
