-- ===== src/TopicTree/Split.antt =====
-- `TopicTree::split` as the inverse of joining levels by slashes.
use culex_mqtt_broker.Common.{
  ℕ, suc, ◌+◌, ◌<◌, ◌≡◌, ◌≢◌, refl, sym, ap, ◌∙◌, List, [], ◌∷◌, ◌++◌, length, length-append, All,
  arith,
}
use mathlib.Core.Path.{ap₂}
use mathlib.Core.List.{append_assoc, append-nil}
use culex_mqtt_broker.TopicTree.{split_step, split_loop, split, slash}

abbrev pub HasNoSlash : List ℕ → Type 0
HasNoSlash = All (λ c. c ≢ b'/')

-- The levels' texts, each behind a slash.
unfoldable pub join : List (List ℕ) → List ℕ
join [] = []
join (w ∷ ws) = b'/' ∷ (w ++ join ws)

-- The last level is not empty.
abbrev pub EndsNonEmpty : List (List ℕ) → Type 0
EndsNonEmpty [] = Unit {0}
EndsNonEmpty (w ∷ []) = 0 < length w
EndsNonEmpty (w ∷ v ∷ ws) = EndsNonEmpty (v ∷ ws)

module _ (len i : ℕ) (temp : List ℕ) (words : List (List ℕ)) (hi : 0 < i) where
  step_slash : split_step len i temp b'/' words ≡ ([], words ++ temp ∷ [])
  step_slash = ground arith

  step_last :
      (c : ℕ)
      → c ≢ b'/'
      → i + 1 ≡ len
      → split_step len i temp c words ≡ ([], words ++ (temp ++ c ∷ []) ∷ [])
  step_last c hc hl = ground arith

  step_inner :
      (c : ℕ) → c ≢ b'/' → i + 1 < len → split_step len i temp c words ≡ (temp ++ c ∷ [], words)
  step_inner c hc hl = ground arith

  split_loop_step :
      (c : ℕ) (rest temp' : List ℕ) (words' : List (List ℕ))
      → split_step len i temp c words ≡ (temp', words')
      → split_loop len i temp (c ∷ rest) words ≡ split_loop len (i + 1) temp' rest words'
  unfolding split_loop
  split_loop_step c rest temp' words' e =
      ap (λ (n : List ℕ × List (List ℕ)). split_loop len (i + 1) n.0 rest n.1) e

-- A level with a slash behind it.
split_loop_level :
    (w : List ℕ) (len i : ℕ) (temp rest : List ℕ) (words : List (List ℕ))
    → HasNoSlash w
    → 0 < i
    → i + length w < len
    → split_loop len i temp (w ++ b'/' ∷ rest) words
      ≡ split_loop len (i + length w + 1) [] rest (words ++ (temp ++ w) ∷ [])
unfolding split_loop
split_loop_level [] len i temp rest words hw hi hl =
    split_loop_step len i temp words hi b'/' rest _ _ (step_slash len i temp words hi)
    ∙ ap₂ (λ (n : ℕ) (t : List ℕ). split_loop len n [] rest (words ++ t ∷ [])) (omega arith)
        (sym (append-nil temp))
split_loop_level (c ∷ w) len i temp rest words hw hi hl =
    split_loop_step len i temp words hi c (w ++ b'/' ∷ rest) _ _
      (step_inner len i temp words hi c hw.0 (omega arith))
    ∙ split_loop_level w len (i + 1) (temp ++ c ∷ []) rest words hw.1 (omega arith) (omega arith)
    ∙ ap₂ (λ (n : ℕ) (t : List ℕ). split_loop len n [] rest (words ++ t ∷ [])) (omega arith)
        (append_assoc temp (c ∷ []) w)

-- The last level.
split_loop_last :
    (w : List ℕ) (len i : ℕ) (temp : List ℕ) (words : List (List ℕ))
    → HasNoSlash w
    → 0 < i
    → 0 < length w
    → len ≡ i + length w
    → split_loop len i temp w words ≡ words ++ (temp ++ w) ∷ []
unfolding split_loop
split_loop_last [] len i temp words hw hi hn hl = absurd (omega arith)
split_loop_last (c ∷ []) len i temp words hw hi hn hl =
    split_loop_step len i temp words hi c [] _ _
      (step_last len i temp words hi c hw.0 (omega arith))
split_loop_last (c ∷ d ∷ w) len i temp words hw hi hn hl =
    split_loop_step len i temp words hi c (d ∷ w) _ _
      (step_inner len i temp words hi c hw.0 (omega arith))
    ∙ split_loop_last (d ∷ w) len (i + 1) (temp ++ c ∷ []) words hw.1 (omega arith) (omega arith)
        (omega arith)
    ∙ ap (λ (t : List ℕ). words ++ t ∷ []) (append_assoc temp (c ∷ []) (d ∷ w))

split_loop-join :
    (w : List ℕ) (ws : List (List ℕ)) (len i : ℕ) (words : List (List ℕ))
    → All HasNoSlash (w ∷ ws)
    → EndsNonEmpty (w ∷ ws)
    → 0 < i
    → len ≡ i + length (w ++ join ws)
    → split_loop len i [] (w ++ join ws) words ≡ words ++ w ∷ ws
unfolding join
split_loop-join w [] len i words hs hn hi hl =
    rw append-nil
      (split_loop_last w len i [] words hs.0 hi hn (omega (arith, ap length (append-nil w))))
split_loop-join w (v ∷ ws) len i words hs hn hi hl =
    let l = length-append w (b'/' ∷ (v ++ join ws)) in
    split_loop_level w len i [] (v ++ join ws) words hs.0 hi (omega arith)
    ∙ split_loop-join v ws len (i + length w + 1) (words ++ w ∷ []) hs.1 hn (omega arith)
        (omega arith)
    ∙ append_assoc words (w ∷ []) (v ∷ ws)

-- Levels without slashes, the last of them not empty, are read back from the topic that joins them,
-- behind the level `/` that stands for the first character.
pub split-join :
    (w : List ℕ) (ws : List (List ℕ))
    → All HasNoSlash (w ∷ ws)
    → EndsNonEmpty (w ∷ ws)
    → split (join (w ∷ ws)) ≡ slash ∷ w ∷ ws
unfolding split join split_loop
split-join w ws hs hn =
    split_loop-join w ws (suc (length (w ++ join ws))) 1 (slash ∷ []) hs hn (omega arith)
      (omega arith)

-- The first character of a topic is never looked at.
pub split_first : (c d : ℕ) (str : List ℕ) → split (c ∷ str) ≡ split (d ∷ str)
unfolding split split_loop
split_first c d str = refl
