-- ===== src/Packets/FlagsRoundTrip.antt =====
-- Packing and unpacking the two bytes of flags are inverse to one another.
use culex_mqtt_broker.Common.{
  ℕ, ◌+◌, ◌*◌, ◌/◌, ◌%◌, ◌^◌, ◌<◌, ◌≡◌, refl, bit_and, Bool, true, false, arith, agree_below,
  eq_below,
}
use culex_mqtt_broker.Packets.Flags.{
  Header, ConnectFlags, bit, or_byte, test_bits, pack_header, unpack_header, pack_flags,
  unpack_flags,
}

header_byte : ℕ → ℕ → ℕ → ℕ → ℕ
header_byte kind dup qos retain =
    or_byte (or_byte (or_byte (or_byte 0 (kind * 2 ^ 4)) (dup * 2 ^ 3)) (qos * 2 ^ 1)) retain

header_byte_table : (c : ℕ) → c < 256 → header_byte (c / 16) (c / 8 % 2) (c / 2 % 4) (c % 2) ≡ c
unfolding agree_below header_byte
header_byte_table =
    eq_below 256 (λ c. header_byte (c / 16) (c / 8 % 2) (c / 2 % 4) (c % 2)) (λ c. c) refl

header_byte_sum :
    (k d q r : ℕ)
    → k < 16
    → d < 2
    → q < 4
    → r < 2
    → header_byte k d q r ≡ k * 16 + d * 8 + q * 2 + r
header_byte_sum k d q r hk hd hq hr =
    let c : ℕ = k * 16 + d * 8 + q * 2 + r in
    let ek : c / 16 ≡ k = omega arith in
    let ed : c / 8 % 2 ≡ d = omega arith in
    let eq : c / 2 % 4 ≡ q = omega arith in
    let er : c % 2 ≡ r = omega arith in cc (header_byte_table c (omega arith), ek, ed, eq, er)

pub bit-lt : (b : Bool) → bit b < 2
bit-lt true = omega arith
bit-lt false = omega arith

-- The header's fields, added up at their places, are its byte.
pub pack_header_sum :
    (h : Header)
    → h.kind < 16
    → h.qos < 4
    → pack_header h ≡ h.kind * 16 + bit h.dup * 8 + h.qos * 2 + bit h.retain
unfolding pack_header header_byte
pack_header_sum h hk hq =
    header_byte_sum h.kind (bit h.dup) h.qos (bit h.retain) hk (bit-lt h.dup) hq (bit-lt h.retain)

kind_bits : (b : ℕ) → b < 256 → bit_and (b / 2 ^ 4) 0x0F ≡ b / 16
unfolding agree_below
kind_bits = eq_below 256 (λ b. bit_and (b / 2 ^ 4) 0x0F) (λ b. b / 16) refl

qos_bits : (b : ℕ) → b < 256 → bit_and (b / 2 ^ 1) 0x03 ≡ b / 2 % 4
unfolding agree_below
qos_bits = eq_below 256 (λ b. bit_and (b / 2 ^ 1) 0x03) (λ b. b / 2 % 4) refl

dup_bit : (b : ℕ) → b < 256 → bit (test_bits b 0x08) ≡ b / 8 % 2
unfolding agree_below
dup_bit = eq_below 256 (λ b. bit (test_bits b 0x08)) (λ b. b / 8 % 2) refl

retain_bit : (b : ℕ) → b < 256 → bit (test_bits b 0x01) ≡ b % 2
unfolding agree_below
retain_bit = eq_below 256 (λ b. bit (test_bits b 0x01)) (λ b. b % 2) refl

pub unpack_header_fields :
    (b : ℕ)
    → b < 256
    → ((unpack_header b).kind ≡ b / 16)
      × (bit (unpack_header b).dup ≡ b / 8 % 2)
      × ((unpack_header b).qos ≡ b / 2 % 4)
      × (bit (unpack_header b).retain ≡ b % 2)
unfolding unpack_header
unpack_header_fields b h = (kind_bits b h, dup_bit b h, qos_bits b h, retain_bit b h)

bit-injective : (a b : Bool) → bit a ≡ bit b → a ≡ b
bit-injective a b e = ground arith

-- A header with a type below 16 and a QoS below 4 packs to one byte, and unpacking that byte gives
-- the header back.
pub unpack_header-pack_header :
    (h : Header)
    → h.kind < 16
    → h.qos < 4
    → (pack_header h < 256) × (unpack_header (pack_header h) ≡ h)
unpack_header-pack_header h hk hq =
    let s = pack_header_sum h hk hq in
    let d = bit-lt h.dup in
    let r = bit-lt h.retain in
    let small : pack_header h < 256 = omega arith in
    let f = unpack_header_fields (pack_header h) small in
    let back = unpack_header (pack_header h) in
    let ek : back.kind ≡ h.kind = omega arith in
    let ed : back.dup ≡ h.dup = bit-injective _ _ (omega arith) in
    let eq : back.qos ≡ h.qos = omega arith in
    let er : back.retain ≡ h.retain = bit-injective _ _ (omega arith) in
    (small, λ i. record { kind = ek i; dup = ed i; qos = eq i; retain = er i })

-- Unpacking any byte and packing the header again gives the byte.
pub pack_header-unpack_header : (b : ℕ) → b < 256 → pack_header (unpack_header b) ≡ b
unfolding agree_below pack_header unpack_header
pack_header-unpack_header = eq_below 256 (λ b. pack_header (unpack_header b)) (λ b. b) refl

flags_byte : ℕ → ℕ → ℕ → ℕ → ℕ → ℕ → ℕ
flags_byte u p wr wq w cs =
    or_byte
      (or_byte
        (or_byte (or_byte (or_byte (or_byte 0 (u * 2 ^ 7)) (p * 2 ^ 6)) (wr * 2 ^ 5)) (wq * 2 ^ 3))
        (w * 2 ^ 2))
      (cs * 2 ^ 1)

flags_byte_table :
    (c : ℕ)
    → c < 256
    → flags_byte (c / 128) (c / 64 % 2) (c / 32 % 2) (c / 8 % 4) (c / 4 % 2) (c / 2 % 2) ≡ c / 2 * 2
unfolding agree_below flags_byte
flags_byte_table =
    eq_below 256
      (λ c. flags_byte (c / 128) (c / 64 % 2) (c / 32 % 2) (c / 8 % 4) (c / 4 % 2) (c / 2 % 2))
      (λ c. c / 2 * 2) refl

flags_byte_sum :
    (u p wr wq w cs : ℕ)
    → u < 2
    → p < 2
    → wr < 2
    → wq < 4
    → w < 2
    → cs < 2
    → flags_byte u p wr wq w cs ≡ u * 128 + p * 64 + wr * 32 + wq * 8 + w * 4 + cs * 2
flags_byte_sum u p wr wq w cs hu hp hwr hwq hw hcs =
    let c : ℕ = u * 128 + p * 64 + wr * 32 + wq * 8 + w * 4 + cs * 2 in
    let eu : c / 128 ≡ u = omega arith in
    let ep : c / 64 % 2 ≡ p = omega arith in
    let ewr : c / 32 % 2 ≡ wr = omega arith in
    let ewq : c / 8 % 4 ≡ wq = omega arith in
    let ew : c / 4 % 2 ≡ w = omega arith in
    let ecs : c / 2 % 2 ≡ cs = omega arith in
    let even : c / 2 * 2 ≡ c = omega arith in
    cc (flags_byte_table c (omega arith), eu, ep, ewr, ewq, ew, ecs, even)

pub unpack_flags_fields :
    (b : ℕ)
    → b < 256
    → (bit (unpack_flags b).username ≡ b / 128)
      × (bit (unpack_flags b).passwd ≡ b / 64 % 2)
      × (bit (unpack_flags b).will_retain ≡ b / 32 % 2)
      × ((unpack_flags b).will_qos ≡ b / 8 % 4)
      × (bit (unpack_flags b).will ≡ b / 4 % 2)
      × (bit (unpack_flags b).cleansession ≡ b / 2 % 2)
unfolding unpack_flags agree_below
unpack_flags_fields b h = (
  eq_below 256 (λ b. bit (test_bits b 0x80)) (λ b. b / 128) refl b h,
  eq_below 256 (λ b. bit (test_bits b 0x40)) (λ b. b / 64 % 2) refl b h,
  eq_below 256 (λ b. bit (test_bits b 0x20)) (λ b. b / 32 % 2) refl b h,
  eq_below 256 (λ b. bit_and (b / 2 ^ 3) 0x03) (λ b. b / 8 % 4) refl b h,
  eq_below 256 (λ b. bit (test_bits b 0x04)) (λ b. b / 4 % 2) refl b h,
  eq_below 256 (λ b. bit (test_bits b 0x02)) (λ b. b / 2 % 2) refl b h,
)

pack_flags_sum :
    (f : ConnectFlags)
    → f.will_qos < 4
    → pack_flags f
      ≡ bit f.username * 128
        + bit f.passwd * 64
        + bit f.will_retain * 32
        + f.will_qos * 8
        + bit f.will * 4
        + bit f.cleansession * 2
unfolding pack_flags flags_byte
pack_flags_sum f h =
    flags_byte_sum (bit f.username) (bit f.passwd) (bit f.will_retain) f.will_qos (bit f.will)
      (bit f.cleansession) (bit-lt f.username) (bit-lt f.passwd) (bit-lt f.will_retain) h
      (bit-lt f.will) (bit-lt f.cleansession)

-- Connect flags with a will QoS below 4 pack to one byte, and unpacking that byte gives the flags
-- back.
pub unpack_flags-pack_flags :
    (f : ConnectFlags) → f.will_qos < 4 → (pack_flags f < 256) × (unpack_flags (pack_flags f) ≡ f)
unpack_flags-pack_flags f h =
    let s = pack_flags_sum f h in
    let lu = bit-lt f.username in
    let lp = bit-lt f.passwd in
    let lr = bit-lt f.will_retain in
    let lw = bit-lt f.will in
    let lc = bit-lt f.cleansession in
    let small : pack_flags f < 256 = omega arith in
    let g = unpack_flags_fields (pack_flags f) small in
    let back = unpack_flags (pack_flags f) in
    let eu : back.username ≡ f.username = bit-injective _ _ (omega arith) in
    let ep : back.passwd ≡ f.passwd = bit-injective _ _ (omega arith) in
    let er : back.will_retain ≡ f.will_retain = bit-injective _ _ (omega arith) in
    let eq : back.will_qos ≡ f.will_qos = omega arith in
    let ew : back.will ≡ f.will = bit-injective _ _ (omega arith) in
    let ec : back.cleansession ≡ f.cleansession = bit-injective _ _ (omega arith) in
    (
      small,
      λ i. record {
        username = eu i;
        passwd = ep i;
        will_retain = er i;
        will_qos = eq i;
        will = ew i;
        cleansession = ec i;
      },
    )

-- Unpacking any byte of connect flags and packing them again clears the reserved lowest bit and
-- changes no other.
pub pack_flags-unpack_flags : (b : ℕ) → b < 256 → pack_flags (unpack_flags b) ≡ b / 2 * 2
unfolding agree_below pack_flags unpack_flags
pack_flags-unpack_flags = eq_below 256 (λ b. pack_flags (unpack_flags b)) (λ b. b / 2 * 2) refl
