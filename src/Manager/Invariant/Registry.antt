-- ===== src/Manager/Invariant/Registry.antt =====
-- The registry of clients under its operations.
use culex_mqtt_broker.Common.{
  ℕ, ◌≤◌, ◌≡◌, ◌≢◌, refl, sym, ap, ◌∙◌, ◌⊎◌, inl, inr, List, [], ◌∷◌, some, nat_beq, nat_beq_iff,
  if-cases, All, All-map, All-zip, ◌==◌, string_eq, string_beq_iff, find, assign, erase, erase-All,
  arith,
}
use mathlib.Core.Path.{subst}
use mathlib.Core.Option.{some-injective}
use culex_mqtt_broker.ClientSession.{ClientSession}
use culex_mqtt_broker.Manager.{find_ref, replace_ref}
use culex_mqtt_broker.Manager.Invariant.{ClientValid, IsApart, RegistryValid}

abbrev pub Registry : Type 0
Registry = List (List ℕ × ClientSession)

-- The object is in the registry.
abbrev pub Has : ClientSession → Registry → Type 0
Has cs [] = ⊥
Has cs (e ∷ r) = (e.1 ≡ cs) ⊎ Has cs r

pub find-Has : (k : List ℕ) (cs : ClientSession) (r : Registry) → find k r ≡ some cs → Has cs r
unfolding find
find-Has k cs [] e = cc
find-Has k cs ((j, c) ∷ r) e =
    if-cases (λ o. o ≡ some cs → Has cs ((j, c) ∷ r)) (j == k) _ _
      (λ same e. inl (some-injective c cs e)) (λ other e. inr (find-Has k cs r e)) e

pub find_ref-Has :
    (ref : ℕ) (cs : ClientSession) (r : Registry) → find_ref ref r ≡ some cs → Has cs r
unfolding find_ref
find_ref-Has ref cs [] e = cc
find_ref-Has ref cs ((j, c) ∷ r) e =
    if-cases (λ o. o ≡ some cs → Has cs ((j, c) ∷ r)) (nat_beq c.ref ref) _ _
      (λ same e. inl (some-injective c cs e)) (λ other e. inr (find_ref-Has ref cs r e)) e

pub Has-All :
    (P : ClientSession → Type 0) (cs : ClientSession) (r : Registry)
    → All (λ e. P e.1) r
    → Has cs r
    → P cs
Has-All P cs [] h m = elim m [ ]
Has-All P cs (e ∷ r) h (inl same) = subst P same h.0
Has-All P cs (e ∷ r) h (inr later) = Has-All P cs r h.1 later

pub Has-ClientValid :
    (next : ℕ) (cs : ClientSession) (r : Registry)
    → RegistryValid next r
    → Has cs r
    → ClientValid next cs
Has-ClientValid next cs [] v m = elim m [ ]
Has-ClientValid next cs (e ∷ r) v (inl same) = subst (ClientValid next) same v.1
Has-ClientValid next cs (e ∷ r) v (inr later) = Has-ClientValid next cs r v.3 later

pub find-client_id :
    (next : ℕ) (k : List ℕ) (cs : ClientSession) (r : Registry)
    → RegistryValid next r
    → find k r ≡ some cs
    → cs.client_id ≡ k
unfolding find
find-client_id next k cs [] v e = cc
find-client_id next k cs ((j, c) ∷ r) v e =
    if-cases (λ o. o ≡ some cs → cs.client_id ≡ k) (j == k) _ _
      (λ same e.
        subst (λ x. x.client_id ≡ k) (some-injective c cs e) (v.0 ∙ (string_beq_iff j k).0 same))
      (λ other e. find-client_id next k cs r v.3 e) e

-- `cs` may be written: the object with its identity, if it is registered, stands under its id.
abbrev pub Fits : ClientSession → Registry → Type 0
Fits cs r = All (λ e. e.1.ref ≡ cs.ref → e.0 ≡ cs.client_id) r

-- An object that is in the registry may be written, if its identity and its id are left.
pub Has-Fits :
    (next : ℕ) (old cs : ClientSession) (r : Registry)
    → RegistryValid next r
    → Has old r
    → old.ref ≡ cs.ref
    → old.client_id ≡ cs.client_id
    → Fits cs r
Has-Fits next old cs [] v m same_ref same_id = elim m [ ]
Has-Fits next old cs (e ∷ r) v (inl same) same_ref same_id =
    let e_ref : e.1.ref ≡ cs.ref = ap (λ (x : ClientSession). x.ref) same ∙ same_ref in
    let e_id : e.1.client_id ≡ cs.client_id =
      ap (λ (x : ClientSession). x.client_id) same ∙ same_id in
    (
      λ _. sym v.0 ∙ e_id,
      All-map _ _ r (λ (x : List ℕ × ClientSession) apart h. absurd (apart.1 (h ∙ sym e_ref))) v.2,
    )
Has-Fits next old cs (e ∷ r) v (inr later) same_ref same_id =
    let apart : old.ref ≢ e.1.ref =
      Has-All (λ x. x.ref ≢ e.1.ref) old r (All-map _ _ r (λ x (h : IsApart e x). h.1) v.2) later in
    (λ h. absurd (apart (same_ref ∙ sym h)), Has-Fits next old cs r v.3 later same_ref same_id)

replace_ref-IsApart :
    (e : List ℕ × ClientSession) (cs : ClientSession) (r : Registry)
    → All (IsApart e) r
    → All (IsApart e) (replace_ref cs r)
unfolding replace_ref
replace_ref-IsApart e cs [] h = tt
replace_ref-IsApart e cs ((j, c) ∷ r) h = (
  if-cases (λ x. IsApart e (j, x)) (nat_beq c.ref cs.ref) _ _
      (λ same. (h.0.0, ground (arith, h.0.1))) (λ other. h.0),
  replace_ref-IsApart e cs r h.1,
)

pub replace_ref-RegistryValid :
    (next : ℕ) (cs : ClientSession) (r : Registry)
    → ClientValid next cs
    → Fits cs r
    → RegistryValid next r
    → RegistryValid next (replace_ref cs r)
unfolding replace_ref
replace_ref-RegistryValid next cs [] ok fits v = tt
replace_ref-RegistryValid next cs ((j, c) ∷ r) ok fits v =
    let kept = replace_ref-RegistryValid next cs r ok fits.1 v.3 in
    let apart = replace_ref-IsApart (j, c) cs r v.2 in
    if-cases (λ x. RegistryValid next ((j, x) ∷ replace_ref cs r)) (nat_beq c.ref cs.ref) _ _
      (λ same.
        let e = (nat_beq_iff c.ref cs.ref).0 same in
        (
          sym (fits.0 e),
          ok,
          All-map _ _ (replace_ref cs r)
              (λ (x : List ℕ × ClientSession) (h : IsApart (j, c) x). (h.0, λ d. h.1 (d ∙ sym e)))
              apart,
          kept,
        ))
      (λ other. (v.0, v.1, apart, kept))

pub replace_ref-Fits : (a cs : ClientSession) (r : Registry) → Fits a r → Fits a (replace_ref cs r)
unfolding replace_ref
replace_ref-Fits a cs [] h = tt
replace_ref-Fits a cs ((j, c) ∷ r) h = (
  if-cases (λ (x : ClientSession). x.ref ≡ a.ref → j ≡ a.client_id) (nat_beq c.ref cs.ref) _ _
      (λ same e. h.0 ((nat_beq_iff c.ref cs.ref).0 same ∙ e)) (λ other. h.0),
  replace_ref-Fits a cs r h.1,
)

pub erase-Fits : (cs : ClientSession) (k : List ℕ) (r : Registry) → Fits cs r → Fits cs (erase k r)
erase-Fits cs k r h = erase-All _ k r h

pub erase-RegistryValid :
    (next : ℕ) (k : List ℕ) (r : Registry) → RegistryValid next r → RegistryValid next (erase k r)
unfolding erase
erase-RegistryValid next k [] v = tt
erase-RegistryValid next k ((j, c) ∷ r) v =
    if-cases (RegistryValid next) (j == k) _ _ (λ same. erase-RegistryValid next k r v.3)
      (λ other. (v.0, v.1, erase-All _ k r v.2, erase-RegistryValid next k r v.3))

-- Nothing in the registry has this identity.
abbrev pub IsUnknown : ℕ → Registry → Type 0
IsUnknown ref r = All (λ e. e.1.ref ≢ ref) r

assign-IsApart :
    (e : List ℕ × ClientSession) (k : List ℕ) (cs : ClientSession) (r : Registry)
    → IsApart e (k, cs)
    → All (IsApart e) r
    → All (IsApart e) (assign k cs r)
unfolding assign
assign-IsApart e k cs [] a h = (a, tt)
assign-IsApart e k cs ((j, c) ∷ r) a h =
    if-cases (All (IsApart e)) (j == k) _ _ (λ same. ((h.0.0, a.1), h.1))
      (λ other. (h.0, assign-IsApart e k cs r a h.1))

pub assign-RegistryValid :
    (next : ℕ) (cs : ClientSession) (r : Registry)
    → ClientValid next cs
    → IsUnknown cs.ref r
    → RegistryValid next r
    → RegistryValid next (assign cs.client_id cs r)
unfolding assign
assign-RegistryValid next cs [] ok new v = (refl, ok, tt, tt)
assign-RegistryValid next cs ((j, c) ∷ r) ok new v =
    if-cases (RegistryValid next) (j == cs.client_id) _ _
      (λ same. (
        sym ((string_beq_iff j cs.client_id).0 same),
        ok,
        All-zip _ _ r (All-map _ _ r (λ x (h : IsApart (j, c) x). h.0) v.2) new.1,
        v.3,
      ))
      (λ other. (
        v.0,
        v.1,
        assign-IsApart (j, c) cs.client_id cs r
            (λ e. cc ((string_beq_iff j cs.client_id).1 (sym e)), λ e. new.0 (sym e)) v.2,
        assign-RegistryValid next cs r ok new.1 v.3,
      ))

-- Later identities are higher.
pub RegistryValid-mono :
    (next next' : ℕ) (r : Registry) → next ≤ next' → RegistryValid next r → RegistryValid next' r
RegistryValid-mono next next' [] le v = tt
RegistryValid-mono next next' (e ∷ r) le v = (
  v.0,
  record {
    numbered = v.1.numbered;
    made = omega (arith, v.1.made);
    stored = v.1.stored;
    acknowledged = v.1.acknowledged;
  },
  v.2,
  RegistryValid-mono next next' r le v.3,
)

pub RegistryValid-IsUnknown : (next : ℕ) (r : Registry) → RegistryValid next r → IsUnknown next r
RegistryValid-IsUnknown next [] v = tt
RegistryValid-IsUnknown next (e ∷ r) v =
    (λ h. omega (arith, v.1.made), RegistryValid-IsUnknown next r v.3)

pub replace_ref-IsUnknown :
    (ref : ℕ) (cs : ClientSession) (r : Registry)
    → IsUnknown ref r
    → IsUnknown ref (replace_ref cs r)
unfolding replace_ref
replace_ref-IsUnknown ref cs [] h = tt
replace_ref-IsUnknown ref cs ((j, c) ∷ r) h = (
  if-cases (λ (x : ClientSession). x.ref ≢ ref) (nat_beq c.ref cs.ref) _ _
      (λ same e. h.0 ((nat_beq_iff c.ref cs.ref).0 same ∙ e)) (λ other. h.0),
  replace_ref-IsUnknown ref cs r h.1,
)

pub replace_ref-Has :
    (old cs : ClientSession) (r : Registry)
    → Has old r
    → old.ref ≡ cs.ref
    → Has cs (replace_ref cs r)
unfolding replace_ref
replace_ref-Has old cs [] m e = elim m [ ]
replace_ref-Has old cs ((j, c) ∷ r) (inl same) e =
    if-cases (λ (x : ClientSession). (x ≡ cs) ⊎ Has cs (replace_ref cs r)) (nat_beq c.ref cs.ref) _
      _ (λ here. inl refl)
      (λ other. cc ((nat_beq_iff c.ref cs.ref).1 (ap (λ (x : ClientSession). x.ref) same ∙ e)))
replace_ref-Has old cs ((j, c) ∷ r) (inr later) e = inr (replace_ref-Has old cs r later e)
