-- ===== src/Build/Acks.antt =====
-- The acknowledgements that the broker builds.
use culex_mqtt_broker.Common.{
  ℕ, ◌*◌, ◌/◌, ◌%◌, ◌^◌, ◌≤◌, ◌<◌, ◌≡◌, refl, inl, inr, bit_and, List, [], ◌∷◌, ◌++◌, done, length,
  arith,
}
use mathlib.Core.List.{append_assoc}
use culex_mqtt_broker.Core.{Core, Reads}
use culex_mqtt_broker.Packets.Flags.{pack_header, unpack_header}
use culex_mqtt_broker.Packets.FlagsRoundTrip.{pack_header_sum}
use culex_mqtt_broker.Packets.{Packet, ack, default_header, partial_packet}
use culex_mqtt_broker.Build.{Host, little_endian, big_endian, htons, build_ack}
use culex_mqtt_broker.Unpack.{unpack}
use culex_mqtt_broker.Unpack.Errors.{unpack_cut_short}
use culex_mqtt_broker.Packets.Length.Encode.{base128_small}

-- The one byte of the packet id that is sent.
abbrev pub sent_id_byte : Host → ℕ → ℕ
sent_id_byte little_endian packet_id = packet_id / 256 % 256
sent_id_byte big_endian packet_id = packet_id % 256

htons_byte : (host : Host) (v : ℕ) → htons host v % 2 ^ 8 ≡ sent_id_byte host v
htons_byte little_endian v = omega arith
htons_byte big_endian v = refl

plain_byte :
    (kind : ℕ) → kind < 16 → pack_header (record default_header { kind = kind }) % 2 ^ 8 ≡ kind * 16
plain_byte kind h =
    omega (arith, pack_header_sum (record default_header { kind = kind }) h (omega arith))

pubrel_byte : (kind : ℕ) → kind ≡ 6 → bit_and (kind * 2 ^ 4) 0xF2 % 2 ^ 8 ≡ kind * 16
pubrel_byte kind e = rw e

-- An acknowledgement of any type below 16 is built as three bytes: the type with all flags 0, the
-- remaining length 2, and one byte of the packet id, the higher on a little-endian host and the
-- lower on another. The packet that is returned has the whole id, the type, and the length 4.
pub build_ack_bytes :
    (host : Host) (packet_id kind : ℕ) (buff : List ℕ)
    → kind < 16
    → ((build_ack host packet_id kind buff).1
        ≡ buff ++ (kind * 16) ∷ 2 ∷ sent_id_byte host packet_id ∷ [])
      × ((build_ack host packet_id kind buff).0 ≡ record {
        header = record default_header { kind = kind };
        pkt_len = 4;
        pkt = ack (record { packet_id = packet_id });
      })
unfolding build_ack
build_ack_bytes host packet_id kind buff h = (
  ground (
    arith,
    htons_byte host packet_id,
    plain_byte kind h,
    pubrel_byte kind,
    append_assoc buff ((kind * 16) ∷ []) (2 ∷ []),
    append_assoc buff ((kind * 16) ∷ 2 ∷ []) (sent_id_byte host packet_id ∷ []),
  ),
  refl,
)

-- A receiver with this program's deserializer, and with reading functions of culex-core as
-- documented, finds each PUBACK, PUBREC, PUBREL or PUBCOMP that the broker builds unfinished,
-- whatever its packet id.
pub unpack-build_ack :
    (c : Core) (reads : Reads c) (host : Host) (packet : Packet) (packet_id kind : ℕ)
    → 4 ≤ kind
    → kind ≤ 7
    → unpack c packet
        (build_ack host packet_id kind []).1
        (length (build_ack host packet_id kind []).1)
      ≡ done (
        partial_packet,
        record packet { header = unpack_header (kind * 16) },
        sent_id_byte host packet_id ∷ [],
      )
unpack-build_ack c reads host packet packet_id kind lo hi =
    let x = sent_id_byte host packet_id in
    let cut =
      unpack_cut_short c reads packet (kind * 16) 2 (x ∷ []) (omega arith)
        (inr (inl (omega arith, omega arith))) (omega arith) (omega arith) in
    rw (build_ack_bytes host packet_id kind [] (omega arith)).0
      (rw (base128_small 4 2 (omega arith)) at cut)
