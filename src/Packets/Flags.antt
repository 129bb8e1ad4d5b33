-- ===== src/Packets/Flags.antt =====
-- `Header` and `ConnectFlags` of mqtt/include/packets.h: one byte each, packed and unpacked.
use culex_mqtt_broker.Common.{
  ℕ, ◌*◌, ◌/◌, ◌%◌, ◌^◌, bit_and, bit_or, Bool, not, nat_beq, if◌then◌else◌,
}
use culex_mqtt_broker.Packets.Kind.{PacketType}

-- The field `type` of the source is `kind` here.
pub record Header : Type 0 where
  pub kind : PacketType
  pub dup : Bool
  pub qos : ℕ
  pub retain : Bool

pub record ConnectFlags : Type 0 where
  pub username : Bool
  pub passwd : Bool
  pub will_retain : Bool
  pub will_qos : ℕ
  pub will : Bool
  pub cleansession : Bool

-- A `bool` in arithmetic.
abbrev pub bit : Bool → ℕ
bit b = if b then 1 else 0

-- `byte |= x` on a `uint8_t`.
abbrev pub or_byte : ℕ → ℕ → ℕ
or_byte byte x = bit_or byte x % 2 ^ 8

-- `(byte & mask) != 0`
abbrev pub test_bits : ℕ → ℕ → Bool
test_bits byte mask = not (nat_beq (bit_and byte mask) 0)

unfoldable pub pack_header : Header → ℕ
pack_header h =
    or_byte (or_byte (or_byte (or_byte 0 (h.kind * 2 ^ 4)) (bit h.dup * 2 ^ 3)) (h.qos * 2 ^ 1))
      (bit h.retain)

unfoldable pub unpack_header : ℕ → Header
unpack_header byte = record {
  kind = bit_and (byte / 2 ^ 4) 0x0F;
  dup = test_bits byte 0x08;
  qos = bit_and (byte / 2 ^ 1) 0x03;
  retain = test_bits byte 0x01;
}

unfoldable pub pack_flags : ConnectFlags → ℕ
pack_flags f =
    or_byte
      (or_byte
        (or_byte
          (or_byte (or_byte (or_byte 0 (bit f.username * 2 ^ 7)) (bit f.passwd * 2 ^ 6))
            (bit f.will_retain * 2 ^ 5))
          (f.will_qos * 2 ^ 3))
        (bit f.will * 2 ^ 2))
      (bit f.cleansession * 2 ^ 1)

unfoldable pub unpack_flags : ℕ → ConnectFlags
unpack_flags byte = record {
  username = test_bits byte 0x80;
  passwd = test_bits byte 0x40;
  will_retain = test_bits byte 0x20;
  will_qos = bit_and (byte / 2 ^ 3) 0x03;
  will = test_bits byte 0x04;
  cleansession = test_bits byte 0x02;
}
