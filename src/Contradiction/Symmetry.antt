-- ===== src/Contradiction/Symmetry.antt =====
-- The order of the two reports that internal/ai/contradiction compares.
use signa.Contradiction.{
  Evidence, Claim, Field, Assessment, validate_pair, validate_input, Normalization,
}
use signa.Contradiction.Evaluator.{
  evaluate, assess, compare_claim, compare_event, compare_values, compare_location, compare_places,
  recency,
}
use signa.Prelude.{
  ℕ, String, ◌≡◌, refl, sym, ◌∙◌, inl, inr, Bool, ◌&&◌, List, [], ◌∷◌, arith, ◌==◌, str_eq, eq_iff,
  Bool-cases, subst, ◌||◌, Option, none, some, if◌then◌else◌, true, false,
}
use signa.Prelude.Int.{ltb_ℤ, eq_ℤ}
use signa.Prelude.Result.{ok, ok_inj, >>=-eq-ok}
use signa.Prelude.Text.{equal_codes, codes, trim_space}
use signa.Prelude.Time.{Time}

pub str_eq_sym : (a b : String) → str_eq a b ≡ str_eq b a
str_eq_sym a b = elim (Bool-cases (str_eq a b)) [
  | inl e ↦ rw ((eq_iff a b).0 e) refl
  | inr e ↦ elim (Bool-cases (str_eq b a)) [
    | inl e2 ↦ rw ((eq_iff b a).0 e2) refl
    | inr e2 ↦ e ∙ sym e2
  ]
]

equal_codes_sym : (a b : List ℕ) → equal_codes a b ≡ equal_codes b a
unfolding equal_codes
equal_codes_sym [] [] = refl
equal_codes_sym [] (y ∷ b) = refl
equal_codes_sym (x ∷ a) [] = refl
equal_codes_sym (x ∷ a) (y ∷ b) =
    let same : (x == y) ≡ (y == x) = ground arith in rw (same, equal_codes_sym a b) refl

and_comm : (a b : Bool) → (a && b) ≡ (b && a)
and_comm a b = ground arith

opposite_sym : (p q r s : Bool) → ((p && q) || (r && s)) ≡ ((s && r) || (q && p))
opposite_sym p q r s = ground arith

compare_claim_sym : (l r : Claim) → compare_claim l r ≡ compare_claim r l
unfolding compare_claim
compare_claim_sym l r = elim (Bool-cases (str_eq l.subject r.subject)) [
  | inl same ↦
      rw
        (
          (eq_iff l.subject r.subject).0 same,
          str_eq_sym l.state r.state,
          opposite_sym (str_eq l.state "blocked") (str_eq r.state "open") (str_eq l.state "open")
              (str_eq r.state "blocked"),
          opposite_sym (str_eq l.state "ongoing") (str_eq r.state "stopped")
              (str_eq l.state "stopped") (str_eq r.state "ongoing"),
        )
        refl
  | inr apart ↦ rw (apart, sym (str_eq_sym l.subject r.subject) ∙ apart) refl
]

-- The order of the two times, read from the other side.
abbrev pub mirror : String → String
mirror order =
    if str_eq order "left_newer"
    then "right_newer"
    else if str_eq order "right_newer"
    then "left_newer"
    else order

recency_sym : (l r : Option Time) → recency r l ≡ mirror (recency l r)
unfolding recency
recency_sym none none = refl
recency_sym none (some r) = refl
recency_sym (some l) none = refl
recency_sym (some l) (some r) = elim (Bool-cases (eq_ℤ l r)) [
  | inl same ↦ let same2 : eq_ℤ r l ≡ true = ground arith in rw (same, same2) refl
  | inr apart ↦
      let apart2 : eq_ℤ r l ≡ false = ground arith in
      elim (Bool-cases (ltb_ℤ r l)) [
        | inl newer ↦
            let older : ltb_ℤ l r ≡ false = ground arith in rw (apart, apart2, newer, older) refl
        | inr older ↦
            let newer : ltb_ℤ l r ≡ true = ground arith in rw (apart, apart2, older, newer) refl
      ]
]

module _ (equal_fold : String → String → Bool)
    (fold_sym : (a b : String) → equal_fold a b ≡ equal_fold b a) where
  compare_places_sym :
      (l r : List String) → compare_places equal_fold l r ≡ compare_places equal_fold r l
  compare_places_sym (a ∷ []) (b ∷ []) = rw (fold_sym a b) refl
  compare_places_sym [] [] = refl
  compare_places_sym [] (b ∷ []) = refl
  compare_places_sym [] (b ∷ (c ∷ r)) = refl
  compare_places_sym (a ∷ []) [] = refl
  compare_places_sym (a ∷ []) (b ∷ (c ∷ r)) = refl
  compare_places_sym (a ∷ (b ∷ l)) [] = refl
  compare_places_sym (a ∷ (b ∷ l)) (c ∷ []) = refl
  compare_places_sym (a ∷ (b ∷ l)) (c ∷ (d ∷ r)) = refl

  compare_location_sym :
      (l r : Normalization) → compare_location equal_fold l r ≡ compare_location equal_fold r l
  unfolding compare_location
  compare_location_sym l r =
      rw
        (
          and_comm (str_eq l.location_state "identified") (str_eq r.location_state "identified"),
          compare_places_sym l.candidates r.candidates,
        )
        refl

  compare_values_sym :
      (l r : Option String) → compare_values equal_fold l r ≡ compare_values equal_fold r l
  compare_values_sym none none = refl
  compare_values_sym none (some r) = refl
  compare_values_sym (some l) none = refl
  compare_values_sym (some l) (some r) = rw (fold_sym l r) refl

  compare_event_sym : (l r : Field) → compare_event equal_fold l r ≡ compare_event equal_fold r l
  unfolding compare_event
  compare_event_sym l r =
      rw
        (
          and_comm (str_eq l.status "identified") (str_eq r.status "identified"),
          compare_values_sym l.value r.value,
        )
        refl

  validate_pair_sym : (l r : Evidence) → validate_pair l r ≡ ok tt → validate_pair r l ≡ ok tt
  unfolding validate_pair
  validate_pair_sym l r e =
      let (tt, valid, rest) = >>=-eq-ok (validate_input l) _ e in
      let (tt, valid2, distinct) = >>=-eq-ok (validate_input r) _ rest in
      let turned = equal_codes_sym (trim_space (codes r.id)) (trim_space (codes l.id)) in
      rw (validate_pair, valid2, valid, turned) distinct

  assess_sym :
      (l r : Evidence)
      → ((assess equal_fold r l).factors ≡ (assess equal_fold l r).factors)
        × ((assess equal_fold r l).contradiction_state
            ≡ (assess equal_fold l r).contradiction_state)
        × ((assess equal_fold r l).recency_order ≡ mirror (assess equal_fold l r).recency_order)
  assess_sym l r =
      rw
        (
          compare_event_sym r.event_type l.event_type,
          compare_location_sym r.location l.location,
          compare_claim_sym r.claim l.claim,
        )
        (refl, refl, recency_sym l.observed_at r.observed_at)

  -- The order of the two reports does not matter: if the evaluator assesses them, it assesses them the other way round too, with the same state and the same factors, and with the order of the observations read from the other side; `strings.EqualFold` must not depend on the order of its arguments.
  pub evaluate_sym :
      (l r : Evidence) (a : Assessment)
      → evaluate equal_fold l r ≡ ok a
      → (b : Assessment) × (evaluate equal_fold r l ≡ ok b)
        × (b.factors ≡ a.factors)
        × (b.contradiction_state ≡ a.contradiction_state)
        × (b.recency_order ≡ mirror a.recency_order)
  unfolding evaluate
  evaluate_sym l r a e =
      let (tt, valid, assessed) = >>=-eq-ok (validate_pair l r) _ e in
      let (factors, state, order) = assess_sym l r in
      subst
        (λ (x : Assessment).
          (b : Assessment) × (evaluate equal_fold r l ≡ ok b)
          × (b.factors ≡ x.factors)
          × (b.contradiction_state ≡ x.contradiction_state)
          × (b.recency_order ≡ mirror x.recency_order))
        (ok_inj assessed)
        (
          assess equal_fold r l,
          rw (evaluate, validate_pair_sym l r valid) refl,
          factors,
          state,
          order,
        )
