-- ===== src/Manager/Heap.antt =====
-- `std::priority_queue` with `std::greater`, as `ManageSessions` uses it for its two heaps: a list
-- with the earliest time first. Of equal times the older entry comes first.
use culex_mqtt_broker.Common.{
  ℕ, suc, ◌≤◌, ◌<◌, ◌≡◌, refl, List, [], ◌∷◌, ltb, leb, if◌then◌else◌, if-cases, All-map, length,
  All, arith,
}

module _ {A : Type 0} (time : A → ℕ) where
  unfoldable pub push : A → List A → List A
  push e [] = e ∷ []
  push e (x ∷ h) = if ltb (time e) (time x) then e ∷ x ∷ h else x ∷ push e h

  abbrev pub IsSorted : List A → Type 0
  IsSorted [] = Unit {0}
  IsSorted (x ∷ h) = All (λ y. time x ≤ time y) h × IsSorted h

  pub push-All : (P : A → Type 0) (e : A) (h : List A) → P e → All P h → All P (push e h)
  unfolding push
  push-All P e [] p q = (p, tt)
  push-All P e (x ∷ h) p q =
      if-cases (All P) (ltb (time e) (time x)) _ _ (λ early. (p, q))
        (λ late. (q.0, push-All P e h p q.1))

  pub push-IsSorted : (e : A) (h : List A) → IsSorted h → IsSorted (push e h)
  unfolding push
  push-IsSorted e [] s = (tt, tt)
  push-IsSorted e (x ∷ h) s =
      if-cases IsSorted (ltb (time e) (time x)) _ _
        (λ early.
          let below : time e ≤ time x = ground arith in
          ((below, All-map _ _ h (λ (y : A) (le : time x ≤ time y). omega arith) s.0), s))
        (λ late.
          let above : time x ≤ time e = ground arith in
          (push-All _ e h above s.0, push-IsSorted e h s.1))

  -- The entries that are due, as many as there are.
  unfoldable pub due_count : ℕ → List A → ℕ
  due_count now [] = 0
  due_count now (x ∷ h) = if leb (time x) now then suc (due_count now h) else due_count now h

  pub due_count-push :
      (now : ℕ) (e : A) (h : List A) → now < time e → due_count now (push e h) ≡ due_count now h
  unfolding due_count push
  due_count-push now e [] late = ground arith
  due_count-push now e (x ∷ h) late = ground (arith, due_count-push now e h)

  pub due_count-le-length : (now : ℕ) (h : List A) → due_count now h ≤ length h
  unfolding due_count
  due_count-le-length now [] = omega arith
  due_count-le-length now (x ∷ h) = ground (arith, due_count-le-length now h)

  -- In a heap in order, nothing is due behind an entry that is not.
  due_count_late :
      (now : ℕ) (x : A) (h : List A)
      → now < time x
      → All (λ y. time x ≤ time y) h
      → due_count now h ≡ 0
  unfolding due_count
  due_count_late now x [] late above = refl
  due_count_late now x (y ∷ h) late above =
      ground (arith, above.0, due_count_late now x h late above.1)

  -- Taking the top of a heap in order that has due entries leaves one due entry less.
  pub due_count-tail :
      (now : ℕ) (x : A) (h : List A)
      → IsSorted (x ∷ h)
      → 0 < due_count now (x ∷ h)
      → due_count now (x ∷ h) ≡ suc (due_count now h)
  unfolding due_count
  due_count-tail now x h sorted some_due = ground (arith, due_count_late now x h, sorted.0)
