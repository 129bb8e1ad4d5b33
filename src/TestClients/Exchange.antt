-- ===== src/TestClients/Exchange.antt =====
-- The packets that a test publisher and a test subscriber send each other over a publication.
use culex_mqtt_broker.Common.{
  ℕ, ◌*◌, ◌≤◌, ◌<◌, ◌≡◌, refl, List, [], ◌∷◌, ◌++◌, some, ltb, if◌then◌else◌, done, length, arith,
}
use culex_mqtt_broker.Core.{Core, Reads}
use culex_mqtt_broker.Packets.{Packet, Publish, ack, mqtt_ok}
use culex_mqtt_broker.Packets.Flags.{Header, pack_header}
use culex_mqtt_broker.Unpack.{unpack}
use culex_mqtt_broker.Unpack.Wire.{IsShort, frame_bytes, publish_bytes}
use culex_mqtt_broker.TestClients.{put_id, Reply, answer_qos1, answer_qos2, pubrel_after}
use culex_mqtt_broker.TestClients.Subscriber.{
  read_at-append, read_u16-append, answer_qos1-publish_lem, answer_qos2-publish_lem, ack_header,
  unpack-answer,
}

-- The bytes are read as an acknowledgement of a packet id.
abbrev pub IsAckOf : Core → ℕ → ℕ → ℕ → List ℕ → Packet → List ℕ → ℕ → Type 0
IsAckOf c kind qos packet_id bytes packet rest available =
    unpack c packet (bytes ++ rest) available
    ≡ done (
      mqtt_ok,
      record {
        header = ack_header kind qos;
        pkt_len = 4;
        pkt = ack (record { packet_id = packet_id });
      },
      rest,
    )

pubrel_answered :
    (packet_id : ℕ) (pad : List ℕ) (n : ℕ)
    → packet_id < 256 * 256
    → answer_qos2 ((0x62 ∷ 0x02 ∷ put_id packet_id) ++ pad) n
      ≡ done (some (record { printed = []; answer = 0x70 ∷ 0x02 ∷ put_id packet_id }))
unfolding answer_qos2
pubrel_answered packet_id pad n hp =
    rw
      (
        read_at-append [] (0x02 ∷ (put_id packet_id ++ pad)) 0x62 0 refl,
        read_u16-append (0x62 ∷ 0x02 ∷ []) pad packet_id 2 refl,
      )
      refl

module _ (c : Core) (reads : Reads c) where
  -- The subscriber for QoS 1, when it has received a PUBLISH packet whole whose remaining length is
  -- below 128, prints the payload, whatever is left in its buffer behind the packet, and answers bytes
  -- that `unpack`, when the four bytes are available, reads as a PUBACK packet for the packet's id, or for 0 if the packet's QoS is 0.
  pub answer_qos1-publish :
      (h : Header) (p : Publish) (pad : List ℕ) (packet : Packet) (rest : List ℕ) (available : ℕ)
      → h.kind ≡ 3
      → h.qos < 4
      → IsShort p.topic
      → p.packet_id < 256 * 256
      → length (publish_bytes h p) < 128
      → 4 ≤ available
      → (r : Reply) × (answer_qos1
            (frame_bytes h (publish_bytes h p) ++ pad)
            (length (frame_bytes h (publish_bytes h p)))
          ≡ done (some r))
        × (r.printed ≡ p.payload)
        × IsAckOf c 4 0 (if ltb 0 h.qos then p.packet_id else 0) r.answer packet rest available
  unfolding pack_header
  answer_qos1-publish h p pad packet rest available hk hq short hp small all =
      let packet_id = if ltb 0 h.qos then p.packet_id else 0 in
      let id_small : packet_id < 256 * 256 = ground (arith, hp) in
      (
        record { printed = p.payload; answer = 0x40 ∷ 0x02 ∷ put_id packet_id },
        answer_qos1-publish_lem h p pad hk hq short hp small,
        refl,
        unpack-answer c reads 4 0 0x40 packet_id packet rest available refl (omega arith)
            (omega arith) (omega arith) id_small all,
      )

  -- The test clients' part of a delivery at QoS 2. The subscriber, when it has received a PUBLISH
  -- packet of a QoS above 0 whole whose remaining length is below 128, prints the payload and answers a
  -- PUBREC packet for the packet's id. The publisher, at a PUBREC packet, sends a PUBREL packet for the
  -- id that it has published last. The subscriber answers those bytes with a PUBCOMP packet for that
  -- id. Each of the three is read so by `unpack`, when its four bytes are available, and what is left
  -- in the buffers does not matter.
  pub answer_qos2-exchange :
      (h : Header) (p : Publish) (pad pad' : List ℕ) (resp : List ℕ) (n : ℕ) (packet : Packet)
      (rest : List ℕ) (available : ℕ)
      → h.kind ≡ 3
      → 0 < h.qos
      → h.qos < 4
      → IsShort p.topic
      → p.packet_id < 256 * 256
      → length (publish_bytes h p) < 128
      → 4 ≤ available
      → (rec comp : Reply) × (rel : List ℕ) × (answer_qos2
            (frame_bytes h (publish_bytes h p) ++ pad)
            (length (frame_bytes h (publish_bytes h p)))
          ≡ done (some rec))
        × (rec.printed ≡ p.payload)
        × IsAckOf c 5 0 p.packet_id rec.answer packet rest available
        × (pubrel_after p.packet_id (rec.answer ++ resp) ≡ some rel)
        × IsAckOf c 6 1 p.packet_id rel packet rest available
        × (answer_qos2 (rel ++ pad') n ≡ done (some comp))
        × IsAckOf c 7 0 p.packet_id comp.answer packet rest available
  unfolding pubrel_after pack_header
  answer_qos2-exchange h p pad pad' resp n packet rest available hk above hq short hp small all = (
    record { printed = p.payload; answer = 0x50 ∷ 0x02 ∷ put_id p.packet_id },
    record { printed = []; answer = 0x70 ∷ 0x02 ∷ put_id p.packet_id },
    0x62 ∷ 0x02 ∷ put_id p.packet_id,
    answer_qos2-publish_lem h p pad hk hq short hp small above,
    refl,
    unpack-answer c reads 5 0 0x50 p.packet_id packet rest available refl (omega arith)
        (omega arith) (omega arith) hp all,
    refl,
    unpack-answer c reads 6 1 0x62 p.packet_id packet rest available refl (omega arith)
        (omega arith) (omega arith) hp all,
    pubrel_answered p.packet_id pad' n hp,
    unpack-answer c reads 7 0 0x70 p.packet_id packet rest available refl (omega arith)
        (omega arith) (omega arith) hp all,
  )
