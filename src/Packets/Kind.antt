-- ===== src/Packets/Kind.antt =====
-- `PacketType` of mqtt/include/packets.h.
use culex_mqtt_broker.Common.{ℕ}

-- `enum class PacketType : uint8_t`. A cast from a byte may yield a value with no name, so the type
-- is that of its values.
abbrev pub PacketType : Type 0
PacketType = ℕ

abbrev pub connect : PacketType
connect = 1

abbrev pub connack : PacketType
connack = 2

abbrev pub publish : PacketType
publish = 3

abbrev pub puback : PacketType
puback = 4

abbrev pub pubrec : PacketType
pubrec = 5

abbrev pub pubrel : PacketType
pubrel = 6

abbrev pub pubcomp : PacketType
pubcomp = 7

abbrev pub subscribe : PacketType
subscribe = 8

abbrev pub suback : PacketType
suback = 9

abbrev pub unsubscribe : PacketType
unsubscribe = 10

abbrev pub unsuback : PacketType
unsuback = 11

abbrev pub pingreq : PacketType
pingreq = 12

abbrev pub pingresp : PacketType
pingresp = 13

abbrev pub disconnect : PacketType
disconnect = 14
