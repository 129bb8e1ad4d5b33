-- ===== src/Examples/Packing.antt =====
-- Flags and lengths of mqtt/src/packets.cpp at concrete values.
use culex_mqtt_broker.Common.{
  ℕ, ◌+◌, ◌^◌, ◌≤◌, ◌<◌, ◌≡◌, ◌↔◌, true, false, List, [], ◌∷◌, ◌++◌, some, done, faults, length,
  arith,
}
use culex_mqtt_broker.Packets.Flags.{Header, ConnectFlags}
use culex_mqtt_broker.Packets.Length.{encode_length, decode_length}
use culex_mqtt_broker.Packets.Length.Encode.{base128, encode_length_bytes}
use culex_mqtt_broker.Packets.Length.RoundTrip.{decode_length-base128}
use culex_mqtt_broker.Packets.Length.Bounds.{decode_length_bounds, decode_length_overread}

abbrev retained_header : Header
retained_header = record { kind = 3; dup = true; qos = 2; retain = true }

abbrev some_flags : ConnectFlags
some_flags = record {
  username = true;
  passwd = false;
  will_retain = true;
  will_qos = 2;
  will = true;
  cleansession = false;
}

-- The least length that takes five bytes.
encode_length_bytes_example :
    (encode_length (128 ^ 4) (7 ∷ []) ≡ (0, (7 ∷ []) ++ base128 4 (128 ^ 4)))
    × (length (base128 4 (128 ^ 4)) ≤ 5)
    × ((length (base128 4 (128 ^ 4)) ≡ 5) ↔ (128 ^ 4 ≤ 128 ^ 4))
encode_length_bytes_example = encode_length_bytes (128 ^ 4) (7 ∷ []) (omega arith)

length_of_321 : length (base128 4 321) ≤ 2
unfolding base128
length_of_321 = omega arith

abbrev nine : List ℕ
nine = 9 ∷ []

decode_321 : decode_length (193 ∷ 2 ∷ nine) 3 ≡ done (some 321, nine)
unfolding base128
decode_321 = decode_length-base128 321 3 (9 ∷ []) (omega arith) (omega arith)

decode_length_bounds_example :
    (321 < 128 ^ 3)
    × (length nine < length (193 ∷ 2 ∷ nine))
    × (length (193 ∷ 2 ∷ nine) ≤ length nine + 3)
    × (length (193 ∷ 2 ∷ nine) ≤ length nine + 3)
decode_length_bounds_example =
    decode_length_bounds (193 ∷ 2 ∷ nine) 3 321 nine (omega arith, (omega arith, (omega arith, tt)))
      decode_321

decode_length_overread_example : decode_length (193 ∷ []) 2 ≡ faults
decode_length_overread_example =
    decode_length_overread (193 ∷ []) 2 ((omega arith, omega arith), tt) (omega arith) (omega arith)
