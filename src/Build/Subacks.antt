-- ===== src/Build/Subacks.antt =====
-- The SUBACK packets of `build_suback` of mqtt/src/packethandlers.cpp.
use culex_mqtt_broker.Common.{ℕ, ◌+◌, ◌*◌, ◌^◌, ◌<◌, ◌≡◌, List, [], ◌∷◌, ◌++◌, length}
use mathlib.Core.List.{append_assoc}
use culex_mqtt_broker.Core.{Core, Writes}
use culex_mqtt_broker.Packets.Length.Encode.{encode_length-base128, base128}
use culex_mqtt_broker.Build.{build_suback}
use culex_mqtt_broker.Unpack.Wire.{u16_bytes}

-- The first byte is the type itself, 9, where the standard has 0x90.
abbrev pub suback_bytes : ℕ → List ℕ → List ℕ
suback_bytes packet_id codes = 9 ∷ (base128 4 (2 + length codes) ++ (u16_bytes packet_id ++ codes))

-- If the functions of culex-core that write do so as documented, `build_suback` writes behind what the
-- buffer holds a SUBACK packet with the packet id of 16 bits and all the return codes, in the standard's
-- format but for the first byte, which is 9, and for a length of 128 ^ 4 and more, which takes five bytes
-- where the standard allows four. The length is below 2 ^ 31.
pub build_suback_bytes :
    (c : Core) (packet_id : ℕ) (codes buff : List ℕ)
    → Writes c
    → packet_id < 256 * 256
    → 2 + length codes < 2 ^ 31
    → build_suback c packet_id codes buff ≡ buff ++ suback_bytes packet_id codes
unfolding build_suback
build_suback_bytes c packet_id codes buff writes hp small =
    rw (encode_length-base128 (2 + length codes) [] small, writes.u16 _ packet_id hp)
      (simp append_assoc)
