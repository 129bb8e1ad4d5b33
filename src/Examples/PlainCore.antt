-- ===== src/Examples/PlainCore.antt =====
-- A concrete choice of the functions of culex-core, of which the hypotheses about them hold.
use culex_mqtt_broker.Common.{
  ℕ, zero, suc, ◌+◌, ◌*◌, ◌/◌, ◌%◌, ◌≤◌, ◌≡◌, ◌≢◌, refl, List, [], ◌∷◌, ◌++◌, leb, if◌then◌else◌,
  Outcome, done, faults, stuck, length, take, drop, take-append, drop-append, length-append, arith,
}
use culex_mqtt_broker.Core.{Core, Reads, Ends, Writes}

abbrev read_u8 : List ℕ → Outcome (ℕ × List ℕ)
read_u8 [] = faults
read_u8 (b ∷ rest) = done (b, rest)

abbrev read_u16 : List ℕ → Outcome (ℕ × List ℕ)
read_u16 (hi ∷ lo ∷ rest) = done (hi * 256 + lo, rest)
read_u16 _ = faults

abbrev read_string : ℕ → List ℕ → Outcome (List ℕ × List ℕ)
read_string n rest = if leb n (length rest) then done (take n rest, drop n rest) else faults

abbrev read_string16 : List ℕ → Outcome (List ℕ × List ℕ)
read_string16 (hi ∷ lo ∷ rest) = read_string (hi * 256 + lo) rest
read_string16 _ = faults

abbrev pub plain_core : Core
plain_core = record {
  unpack_u8 = read_u8;
  unpack_u16 = read_u16;
  unpack_string16 = read_string16;
  pack_u16 = λ buff v. buff ++ (v / 256) ∷ (v % 256) ∷ [];
  pack_string16 = λ buff s. buff ++ s;
  erase_front = drop;
}

read_string-append :
    (n : ℕ) (s rest : List ℕ) → length s ≡ n → read_string n (s ++ rest) ≡ done (s, rest)
read_string-append n s rest h =
    rw (← h) (ground (arith, take-append s rest, drop-append s rest, length-append s rest))

take-drop-length :
    (n : ℕ) (l : List ℕ) → n ≤ length l → length l ≡ length (drop n l) + length (take n l)
take-drop-length zero l h = omega arith
take-drop-length (suc n) [] h = omega arith
take-drop-length (suc n) (x ∷ l) h = omega (arith, take-drop-length n l)

read_string_moves :
    (n : ℕ) (mem s rest : List ℕ)
    → read_string n mem ≡ done (s, rest)
    → length mem ≡ length rest + length s
read_string_moves n mem s rest e = ground (arith, take-drop-length n mem)

read_string16_moves :
    (mem s rest : List ℕ)
    → read_string16 mem ≡ done (s, rest)
    → length mem ≡ length rest + 2 + length s
read_string16_moves [] s rest e = cc
read_string16_moves (hi ∷ []) s rest e = cc
read_string16_moves (hi ∷ lo ∷ mem) s rest e =
    omega (arith, read_string_moves (hi * 256 + lo) mem s rest e)

pub plain_core-Reads : Reads plain_core
plain_core-Reads = record {
  u8 = λ b rest. refl;
  u16 = λ hi lo rest hh hl. refl;
  string16 = λ hi lo s rest hh hl h. read_string-append (hi * 256 + lo) s rest h;
  string16_moves = read_string16_moves;
}

read_u8-ne-stuck : (mem : List ℕ) → read_u8 mem ≢ stuck
read_u8-ne-stuck [] e = cc
read_u8-ne-stuck (b ∷ mem) e = cc

read_u16-ne-stuck : (mem : List ℕ) → read_u16 mem ≢ stuck
read_u16-ne-stuck [] e = cc
read_u16-ne-stuck (hi ∷ []) e = cc
read_u16-ne-stuck (hi ∷ lo ∷ mem) e = cc

read_string16-ne-stuck : (mem : List ℕ) → read_string16 mem ≢ stuck
read_string16-ne-stuck [] e = cc
read_string16-ne-stuck (hi ∷ []) e = cc
read_string16-ne-stuck (hi ∷ lo ∷ mem) e = ground arith

pub plain_core-Ends : Ends plain_core
plain_core-Ends = record {
  u8 = read_u8-ne-stuck;
  u16 = read_u16-ne-stuck;
  string16 = read_string16-ne-stuck;
}

pub plain_core-Writes : Writes plain_core
plain_core-Writes = record { u16 = λ buff v h. refl; string16 = λ buff s. refl }
