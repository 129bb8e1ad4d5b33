-- ===== src/Core.antt =====
-- What the broker takes from the library culex-core, whose sources are not in the repository: the
-- functions that read and write single values, and the receive buffer. Memory is the list of the
-- bytes from a pointer on; a read past its end is the outcome `faults`.
use culex_mqtt_broker.Common.{
  ℕ, ◌+◌, ◌*◌, ◌%◌, ◌/◌, ◌<◌, ◌≡◌, ◌≢◌, List, ◌∷◌, ◌++◌, Outcome, done, stuck, length,
}

pub record Core : Type 0 where
  pub unpack_u8 : List ℕ → Outcome (ℕ × List ℕ)
  pub unpack_u16 : List ℕ → Outcome (ℕ × List ℕ)
  pub unpack_string16 : List ℕ → Outcome (List ℕ × List ℕ)
  pub pack_u16 : List ℕ → ℕ → List ℕ
  pub pack_string16 : List ℕ → List ℕ → List ℕ
  -- `m_recvBuff.erase(n)`
  pub erase_front : ℕ → List ℕ → List ℕ

-- Reading: a byte; two bytes, the higher first; a string behind the two bytes of its length. What
-- is read is what the pointer moves over.
pub record Reads (c : Core) : Type 0 where
  pub u8 : (b : ℕ) (rest : List ℕ) → c.unpack_u8 (b ∷ rest) ≡ done (b, rest)
  pub u16 :
      (hi lo : ℕ) (rest : List ℕ)
      → hi < 256
      → lo < 256
      → c.unpack_u16 (hi ∷ lo ∷ rest) ≡ done (hi * 256 + lo, rest)
  pub string16 :
      (hi lo : ℕ) (s rest : List ℕ)
      → hi < 256
      → lo < 256
      → length s ≡ hi * 256 + lo
      → c.unpack_string16 (hi ∷ lo ∷ (s ++ rest)) ≡ done (s, rest)
  pub string16_moves :
      (mem s rest : List ℕ)
      → c.unpack_string16 mem ≡ done (s, rest)
      → length mem ≡ length rest + 2 + length s

-- The functions that read return, or fault.
pub record Ends (c : Core) : Type 0 where
  pub u8 : (mem : List ℕ) → c.unpack_u8 mem ≢ stuck
  pub u16 : (mem : List ℕ) → c.unpack_u16 mem ≢ stuck
  pub string16 : (mem : List ℕ) → c.unpack_string16 mem ≢ stuck

-- Writing: two bytes, the higher first, behind what the buffer holds.
pub record Writes (c : Core) : Type 0 where
  pub u16 :
      (buff : List ℕ) (v : ℕ)
      → v < 256 * 256
      → c.pack_u16 buff v ≡ buff ++ (v / 256) ∷ (v % 256) ∷ List.[]
  -- The text alone: `build_publish` writes the length itself.
  pub string16 : (buff s : List ℕ) → c.pack_string16 buff s ≡ buff ++ s
