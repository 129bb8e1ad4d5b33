-- ===== src/TestClients/Subscriber.antt =====
-- What the test subscribers read and answer, on packets in the standard's format.
use culex_mqtt_broker.Common.{
  ℕ, ◌+◌, ◌-◌, ◌*◌, ◌/◌, ◌%◌, ◌^◌, ◌≤◌, ◌<◌, ◌≡◌, refl, sym, ap, ◌∙◌, true, false, List, [], ◌∷◌,
  ◌++◌, some, ltb, leb, nat_beq, Bool-cases, inl, inr, if◌then◌else◌, done, length, length-append,
  get_elem?, take-append, drop-append, arith,
}
use mathlib.Core.List.{append_assoc}
use culex_mqtt_broker.Core.{Core, Reads}
use culex_mqtt_broker.Packets.{Packet, Publish, ack, mqtt_ok}
use culex_mqtt_broker.Packets.Flags.{Header, pack_header}
use culex_mqtt_broker.Packets.FlagsRoundTrip.{bit-lt, pack_header_sum}
use culex_mqtt_broker.Packets.Length.Encode.{base128, base128_small}
use culex_mqtt_broker.Unpack.{unpack}
use culex_mqtt_broker.Unpack.Wire.{IsShort, u16_bytes, bytes_if, frame_bytes, publish_bytes}
use culex_mqtt_broker.Unpack.Wire.Publishing.{unpack-ack, length-bytes_if}
use culex_mqtt_broker.TestClients.{
  put_id, read_at, read_u16, string_at, rest_from, id_if, read_qos0, answer_qos1, answer_qos2,
}

get_elem?-append {ℓ} :
    {A : Type ℓ} (xs ys : List A) (y : A) → get_elem? (xs ++ (y ∷ ys)) (length xs) ≡ some y
get_elem?-append [] ys y = refl
get_elem?-append (x ∷ xs) ys y = get_elem?-append xs ys y

-- Reads at the end of the first part of the buffer.
pub read_at-append :
    (front back : List ℕ) (b i : ℕ) → i ≡ length front → read_at (front ++ (b ∷ back)) i ≡ done b
unfolding read_at
read_at-append front back b i at = rw (read_at, at, get_elem?-append front back b) refl

pub read_u16-append :
    (front back : List ℕ) (v i : ℕ)
    → i ≡ length front
    → read_u16 (front ++ (u16_bytes v ++ back)) i ≡ done v
unfolding read_u16
read_u16-append front back v i at =
    let hi = read_at-append front ((v % 256) ∷ back) (v / 256) i at in
    let lo =
      read_at-append (front ++ (v / 256) ∷ []) back (v % 256) (i + 1)
        (omega (arith, at, length-append front ((v / 256) ∷ []))) in
    let lo' : read_at (front ++ (u16_bytes v ++ back)) (i + 1) ≡ done (v % 256) =
      ap (λ l. read_at l (i + 1)) (sym (append_assoc front ((v / 256) ∷ []) ((v % 256) ∷ back)))
      ∙ lo in
    rw (hi, lo') (ap done (omega arith))

string_at-append :
    (front s back : List ℕ) (i size : ℕ)
    → i ≡ length front
    → size ≡ length s
    → string_at (front ++ (s ++ back)) i size ≡ done s
unfolding string_at
string_at-append front s back i size at is =
    let inside : leb (i + size) (length (front ++ (s ++ back))) ≡ true =
      ground (arith, at, is, length-append front (s ++ back), length-append s back) in
    rw (inside, at, drop-append front (s ++ back), is, take-append s back) refl

rest_from-append :
    (front payload back : List ℕ) (n i : ℕ)
    → i ≡ length front
    → n ≡ i + length payload
    → rest_from (front ++ (payload ++ back)) n i ≡ done payload
unfolding rest_from
rest_from-append front payload back n i at all =
    let ahead : ltb n i ≡ false = ground (arith, all) in
    rw (ahead) (string_at-append front payload back i (n - i) at (omega (arith, all)))

-- A PUBLISH packet whose remaining length takes one byte, and whatever is behind it in the buffer.
module _ (h : Header) (p : Publish) (pad : List ℕ) (hk : h.kind ≡ 3) (hq : h.qos < 4)
    (short : IsShort p.topic) (hp : p.packet_id < 256 * 256)
    (small : length (publish_bytes h p) < 128) where
  abbrev numbered : List ℕ
  numbered = bytes_if (ltb 0 h.qos) (u16_bytes p.packet_id)

  abbrev frame : List ℕ
  frame = frame_bytes h (publish_bytes h p)

  abbrev opening : List ℕ
  opening = pack_header h ∷ length (publish_bytes h p) ∷ []

  laid_out :
      frame ++ pad
      ≡ opening ++ (u16_bytes (length p.topic) ++ (p.topic ++ (numbered ++ (p.payload ++ pad))))
  laid_out = rw (base128_small 4 (length (publish_bytes h p)) small) (simp append_assoc)

  topic_len : read_u16 (frame ++ pad) 2 ≡ done (length p.topic)
  topic_len =
      ap (λ l. read_u16 l 2) laid_out
      ∙ read_u16-append opening (p.topic ++ (numbered ++ (p.payload ++ pad))) (length p.topic) 2
          refl

  kind_nibble : pack_header h / 2 ^ 4 ≡ 3
  kind_nibble =
      omega (arith, hk, pack_header_sum h (omega (arith, hk)) hq, bit-lt h.dup, bit-lt h.retain)

  qos_bits : pack_header h / 2 % 4 ≡ h.qos
  qos_bits =
      omega (arith, hk, pack_header_sum h (omega (arith, hk)) hq, bit-lt h.dup, bit-lt h.retain)

  first_byte : read_at (frame ++ pad) 0 ≡ done (pack_header h)
  first_byte = read_at-append [] _ (pack_header h) 0 refl

  abbrev front : List ℕ
  front = (opening ++ u16_bytes (length p.topic)) ++ p.topic

  front-length : 4 + length p.topic ≡ length front
  front-length = omega arith

  at_id : frame ++ pad ≡ front ++ (numbered ++ (p.payload ++ pad))
  at_id = laid_out ∙ simp append_assoc

  at_payload : frame ++ pad ≡ (front ++ numbered) ++ (p.payload ++ pad)
  at_payload = at_id ∙ sym (append_assoc front numbered (p.payload ++ pad))

  topic_text : string_at (frame ++ pad) 4 (length p.topic) ≡ done p.topic
  topic_text =
      ap (λ l. string_at l 4 (length p.topic)) laid_out
      ∙ string_at-append (opening ++ u16_bytes (length p.topic)) p.topic
          (numbered ++ (p.payload ++ pad)) 4 (length p.topic) refl refl

  frame_size : length frame ≡ 4 + length p.topic + length numbered + length p.payload
  frame_size = omega (
    arith,
    ap length (base128_small 4 (length (publish_bytes h p)) small),
    length-append (base128 4 (length (publish_bytes h p))) (publish_bytes h p),
    length-append p.topic (numbered ++ p.payload),
    length-append numbered p.payload,
  )

  payload_text :
      (i : ℕ)
      → i ≡ 4 + length p.topic + length numbered
      → rest_from (frame ++ pad) (length frame) i ≡ done p.payload
  payload_text i at =
      ap (λ l. rest_from l (length frame) i) at_payload
      ∙ rest_from-append (front ++ numbered) p.payload pad (length frame) i
          (omega (arith, at, length-append front numbered)) (omega (arith, at, frame_size))

  id_text : 0 < h.qos → read_u16 (frame ++ pad) (4 + length p.topic) ≡ done p.packet_id
  id_text above =
      let b : ltb 0 h.qos ≡ true = ground (arith, above) in
      ap (λ l. read_u16 l (4 + length p.topic))
        (at_id ∙ ap (λ b. front ++ (bytes_if b (u16_bytes p.packet_id) ++ (p.payload ++ pad))) b)
      ∙ read_u16-append front (p.payload ++ pad) p.packet_id (4 + length p.topic) front-length

  id_read :
      id_if (frame ++ pad) h.qos (4 + length p.topic)
      ≡ done (if ltb 0 h.qos then p.packet_id else 0, 4 + length p.topic + length numbered)
  id_read = elim (Bool-cases (ltb 0 h.qos)) [
    | inl above ↦ rw (id_text (ground (arith, above)), above) refl
    | inr zero_qos ↦ rw (zero_qos) (ap (λ i. done (0, i)) (omega arith))
  ]

  pub read_qos0-publish_lem :
      h.qos ≡ 0 → read_qos0 (frame ++ pad) (length frame) ≡ done (some (p.topic, p.payload))
  unfolding read_qos0
  read_qos0-publish_lem zero_qos =
      let is_publish : nat_beq (pack_header h / 2 ^ 4) 3 ≡ true = ground (arith, kind_nibble) in
      let none_sent : length numbered ≡ 0 =
        length-bytes_if (ltb 0 h.qos) p.packet_id ∙ ground (arith, zero_qos) in
      rw
        (
          first_byte,
          is_publish,
          topic_len,
          topic_text,
          payload_text (4 + length p.topic) (omega (arith, none_sent)),
        )
        refl

  pub answer_qos1-publish_lem :
      answer_qos1 (frame ++ pad) (length frame)
      ≡ done (
          some (record {
            printed = p.payload;
            answer = 0x40 ∷ 0x02 ∷ put_id (if ltb 0 h.qos then p.packet_id else 0);
          }))
  unfolding answer_qos1
  answer_qos1-publish_lem =
      let is_publish : nat_beq (pack_header h / 2 ^ 4) 3 ≡ true = ground (arith, kind_nibble) in
      rw
        (
          first_byte,
          is_publish,
          topic_len,
          qos_bits,
          id_read,
          payload_text (4 + length p.topic + length numbered) refl,
        )
        refl

  pub answer_qos2-publish_lem :
      0 < h.qos
      → answer_qos2 (frame ++ pad) (length frame)
        ≡ done (some (record { printed = p.payload; answer = 0x50 ∷ 0x02 ∷ put_id p.packet_id }))
  unfolding answer_qos2
  answer_qos2-publish_lem above =
      let is_publish : nat_beq (pack_header h / 2 ^ 4) 3 ≡ true = ground (arith, kind_nibble) in
      let two_sent : length numbered ≡ 2 =
        length-bytes_if (ltb 0 h.qos) p.packet_id ∙ ground (arith, above) in
      rw
        (
          first_byte,
          is_publish,
          topic_len,
          id_text above,
          payload_text (4 + length p.topic + 2) (omega (arith, two_sent)),
        )
        refl

-- An acknowledgement in four bytes.
abbrev pub ack_header : ℕ → ℕ → Header
ack_header kind qos = record { kind = kind; dup = false; qos = qos; retain = false }

pub ack_frame :
    (kind qos first packet_id : ℕ)
    → pack_header (ack_header kind qos) ≡ first
    → first ∷ 0x02 ∷ put_id packet_id ≡ frame_bytes (ack_header kind qos) (u16_bytes packet_id)
ack_frame kind qos first packet_id packed = rw (sym packed, base128_small 4 2 (omega arith)) refl

module _ (c : Core) (reads : Reads c) where
  pub unpack-answer :
      (kind qos first packet_id : ℕ) (packet : Packet) (rest : List ℕ) (available : ℕ)
      → pack_header (ack_header kind qos) ≡ first
      → 4 ≤ kind
      → kind ≤ 7
      → qos < 4
      → packet_id < 256 * 256
      → 4 ≤ available
      → unpack c packet ((first ∷ 0x02 ∷ put_id packet_id) ++ rest) available
        ≡ done (
          mqtt_ok,
          record {
            header = ack_header kind qos;
            pkt_len = 4;
            pkt = ack (record { packet_id = packet_id });
          },
          rest,
        )
  unpack-answer kind qos first packet_id packet rest available packed lo hi hq hp all =
      ap (λ l. unpack c packet (l ++ rest) available) (ack_frame kind qos first packet_id packed)
      ∙ unpack-ack c reads packet (ack_header kind qos) packet_id rest available lo hi hq hp all
