-- ===== src/ClientSession/Inflight.antt =====
-- The packets that a session keeps until they are acknowledged.
use culex_mqtt_broker.Common.{◌≡◌, none, nat_eq, done, find, find-insert, find-erase, arith}
use culex_mqtt_broker.Packets.{Packet, Publish, publish, default_packet}
use culex_mqtt_broker.ClientSession.{
  ClientSession, store_inflight, remove_from_inflight, get_packet,
}

-- Of two PUBLISH packets stored under one id the first is kept: `getPacket` and `removeFromInflight`
-- return it, and once it is removed there is none.
pub store-remove_inflight :
    (first again : Packet) (p q : Publish) (cs cs₁ cs₂ : ClientSession)
    → first.pkt ≡ publish p
    → again.pkt ≡ publish q
    → q.packet_id ≡ p.packet_id
    → find p.packet_id cs.inflight ≡ none
    → store_inflight first cs ≡ done cs₁
    → store_inflight again cs₁ ≡ done cs₂
    → (get_packet p.packet_id 3 cs₂ ≡ first)
      × ((remove_from_inflight p.packet_id cs₂).1 ≡ first)
      × (get_packet p.packet_id 3 (remove_from_inflight p.packet_id cs₂).0 ≡ default_packet)
unfolding store_inflight get_packet remove_from_inflight
store-remove_inflight first again p q cs cs₁ cs₂ e e' same free s₁ s₂ =
    let k = p.packet_id in
    ground (
      arith,
      find-insert k k first cs.inflight,
      find-insert k q.packet_id again cs₁.inflight,
      find-erase k k cs₂.inflight,
    )
