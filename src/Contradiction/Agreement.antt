-- ===== src/Contradiction/Agreement.antt =====
-- The evaluator of internal/ai/contradiction, against its validator.
-- A factor of this name with an outcome that the validator allows it.
use signa.Contradiction.{
  Error, Evidence, Claim, Factor, Field, Assessment, validate_pair, Normalization,
}
use signa.Contradiction.Evaluator.{
  evaluate, state_of, both_identified, assess, compare_claim, compare_event, either_incomparable,
  incomparable, compare_values, compare_location, compare_places, recency,
}
use signa.Contradiction.Validator.{
  process, validate_assessment, check_state, is_context_outcome, nothing_found, add_factors,
}
use signa.Prelude.{
  String, ◌≡◌, if_case, refl, Bool, not, List, [], ◌∷◌, str_eq, true, false, ◌&&◌, ◌||◌, some,
  eq_refl, inl, inr, Option, none, if◌then◌else◌, Bool-cases,
}
use signa.Prelude.Result.{ok, Result, err, Result-cases}

abbrev IsContext : String → Factor → Type 0
IsContext name x = (x.name ≡ name) × (is_context_outcome x.outcome ≡ true)

abbrev IsClaim : Factor → Type 0
IsClaim x =
    (x.name ≡ "claim_state")
    × ((is_context_outcome x.outcome || str_eq x.outcome "contradiction") ≡ true)

module _ (equal_fold : String → String → Bool) where
  compare_values-IsContext :
      (l r : Option String) → IsContext "event_type" (compare_values equal_fold l r)
  compare_values-IsContext none none = (refl, refl)
  compare_values-IsContext none (some b) = (refl, refl)
  compare_values-IsContext (some a) none = (refl, refl)
  compare_values-IsContext (some a) (some b) =
      if_case (IsContext "event_type") (equal_fold a b) (refl, refl) (refl, refl)

  compare_event-IsContext : (l r : Field) → IsContext "event_type" (compare_event equal_fold l r)
  unfolding compare_event
  compare_event-IsContext l r =
      if_case (IsContext "event_type") (not (both_identified equal_fold l r)) (refl, refl)
        (compare_values-IsContext l.value r.value)

  compare_places-IsContext :
      (l r : List String) → IsContext "location_reference" (compare_places equal_fold l r)
  compare_places-IsContext (a ∷ []) (b ∷ []) =
      if_case (IsContext "location_reference") (equal_fold a b) (refl, refl) (refl, refl)
  compare_places-IsContext [] r = (refl, refl)
  compare_places-IsContext (a ∷ (b ∷ l)) r = (refl, refl)
  compare_places-IsContext (a ∷ []) [] = (refl, refl)
  compare_places-IsContext (a ∷ []) (b ∷ (c ∷ r)) = (refl, refl)

  compare_location-IsContext :
      (l r : Normalization) → IsContext "location_reference" (compare_location equal_fold l r)
  unfolding compare_location
  compare_location-IsContext l r =
      if_case (IsContext "location_reference") (not _) (refl, refl)
        (compare_places-IsContext l.candidates r.candidates)

compare_claim-IsClaim : (l r : Claim) → IsClaim (compare_claim l r)
unfolding compare_claim
compare_claim-IsClaim l r =
    if_case IsClaim (not (str_eq l.subject r.subject)) (refl, refl)
      (if_case IsClaim (str_eq l.state r.state) (refl, refl)
        (if_case IsClaim _ (refl, refl) (refl, refl)))

-- The three factors are found, whatever the claim's was before.
found_lem :
    (event place claim : Factor)
    → IsContext "event_type" event
    → IsContext "location_reference" place
    → IsClaim claim
    → add_factors (event ∷ place ∷ claim ∷ []) nothing_found
      ≡ ok (record { event = some event; place = some place; claim = some claim })
unfolding add_factors
found_lem event place claim (en, eo) (pn, po) (cn, co) = rw (en, eo, pn, po, cn, co) refl

check_state-accepts :
    (a : Assessment) (event place claim : Factor)
    → (either_incomparable event place && not (str_eq claim.outcome "not_comparable")) ≡ false
    → a.contradiction_state ≡ state_of event.outcome place.outcome claim.outcome
    → check_state a event place claim ≡ ok a
check_state-accepts a event place claim fits state =
    rw (fits, state, eq_refl (state_of event.outcome place.outcome claim.outcome)) refl

-- The claim's factor as the evaluator reports it.
abbrev reported : Factor → Factor → Factor → Factor
reported event place claim = if either_incomparable event place then incomparable else claim

reported-fits :
    (event place claim : Factor)
    → (either_incomparable event place
        && not (str_eq (reported event place claim).outcome "not_comparable"))
      ≡ false
reported-fits event place claim = elim (Bool-cases (either_incomparable event place)) [
  | inl e ↦ rw e refl
  | inr e ↦ rw e refl
]

reported-state_of :
    (event place claim : Factor)
    → state_of event.outcome place.outcome claim.outcome
      ≡ state_of event.outcome place.outcome (reported event place claim).outcome
reported-state_of event place claim = elim (Bool-cases (either_incomparable event place)) [
  | inl e ↦ rw e refl
  | inr e ↦ rw e refl
]

abbrev pub answer_of : Result Error Assessment → Option Assessment
answer_of (ok a) = some a
answer_of (err e) = none

module _ (equal_fold : String → String → Bool) where
  assess-validated :
      (left right : Evidence)
      → validate_assessment (assess equal_fold left right) ≡ ok (assess equal_fold left right)
  unfolding validate_assessment
  assess-validated left right =
      let event = compare_event equal_fold left.event_type right.event_type in
      let place = compare_location equal_fold left.location right.location in
      let claim = compare_claim left.claim right.claim in
      let last = reported event place claim in
      let last-IsClaim =
        if_case IsClaim (either_incomparable event place) (refl, refl)
          (compare_claim-IsClaim left.claim right.claim) in
      rw
        (found_lem event place last
          (compare_event-IsContext equal_fold left.event_type right.event_type)
          (compare_location-IsContext equal_fold left.location right.location) last-IsClaim)
        (check_state-accepts (assess equal_fold left right) event place last
          (reported-fits event place claim) (reported-state_of event place claim))

  -- The processor accepts every assessment of the rule-based evaluator: with that evaluator as its provider, decoded as it was encoded, it returns what the evaluator returns, and refuses the same pairs with the same error.
  pub process-evaluate :
      (left right : Evidence)
      → process (λ l r. answer_of (evaluate equal_fold l r)) left right
        ≡ evaluate equal_fold left right
  unfolding process evaluate
  process-evaluate left right = elim (Result-cases (validate_pair left right)) [
    | inl (tt, valid) ↦
        rw
          (
            valid,
            assess-validated left right,
            eq_refl left.id,
            eq_refl right.id,
            eq_refl (recency left.observed_at right.observed_at),
          )
          refl
    | inr (e, refused) ↦ rw refused refl
  ]
