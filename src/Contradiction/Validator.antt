-- ===== src/Contradiction/Validator.antt =====
-- `Validator.Validate` of internal/ai/contradiction/validator.go after the schema, and
-- `Processor.Evaluate` of contradiction.go, whose provider's answer is decoded and fits the schema.
-- The factors that the loop has found; a name is wanted as long as its factor is not found.
use signa.Contradiction.{
  Error, Evidence, missing_factor, claim_not_comparable, Factor, state_mismatch, provider_failed,
  id_mismatch, unsupported_outcome, unsupported_factor, Assessment, validate_pair, recency_mismatch,
}
use signa.Contradiction.Evaluator.{either_incomparable, recency}
use signa.Prelude.{
  String, Bool, not, ◌&&◌, ◌||◌, Option, none, some, List, [], ◌∷◌, if◌then◌else◌, str_eq, is_some,
}
use signa.Prelude.Result.{Result, ok, err, ◌>>=◌, fail_if, ◌>>◌}

pub record Found : Type 0 where
  pub event : Option Factor
  pub place : Option Factor
  pub claim : Option Factor

abbrev pub is_context_outcome : String → Bool
is_context_outcome s = str_eq s "no_signal" || str_eq s "unknown" || str_eq s "not_comparable"

abbrev pub take_factor : Bool → Bool → Found → Result Error Found
take_factor found allowed next =
    if found then err unsupported_factor else if allowed then ok next else err unsupported_outcome

-- One turn of the loop.
abbrev pub add_factor : Factor → Found → Result Error Found
add_factor x found =
    if str_eq x.name "event_type"
    then take_factor (is_some found.event) (is_context_outcome x.outcome)
        (record found { event = some x })
    else if str_eq x.name "location_reference"
    then take_factor (is_some found.place) (is_context_outcome x.outcome)
        (record found { place = some x })
    else if str_eq x.name "claim_state"
    then take_factor (is_some found.claim)
        (is_context_outcome x.outcome || str_eq x.outcome "contradiction")
        (record found { claim = some x })
    else err unsupported_factor

unfoldable pub add_factors : List Factor → Found → Result Error Found
add_factors [] found = ok found
add_factors (x ∷ factors) found = add_factor x found >>= λ next. add_factors factors next

-- `wantState`.
abbrev pub want_state : Factor → Factor → Factor → String
want_state event place claim =
    if either_incomparable event place
    then "not_comparable"
    else if str_eq event.outcome "no_signal" && str_eq place.outcome "no_signal"
    then if str_eq claim.outcome "contradiction"
      then "contradiction_signal"
      else if str_eq claim.outcome "no_signal"
      then "no_signal"
      else "indeterminate"
    else "indeterminate"

abbrev pub check_state : Assessment → Factor → Factor → Factor → Result Error Assessment
check_state a event place claim = do
  fail_if (either_incomparable event place && not (str_eq claim.outcome "not_comparable"))
      claim_not_comparable
  fail_if (not (str_eq a.contradiction_state (want_state event place claim))) state_mismatch
  ok a

abbrev pub check_found : Assessment → Found → Result Error Assessment
check_found a found = elim found.event [
  | none ↦ err missing_factor
  | some event ↦ elim found.place [
    | none ↦ err missing_factor
    | some place ↦ elim found.claim [
      | none ↦ err missing_factor
      | some claim ↦ check_state a event place claim
    ]
  ]
]

abbrev pub nothing_found : Found
nothing_found = record { event = none; place = none; claim = none }

unfoldable pub validate_assessment : Assessment → Result Error Assessment
unfolding add_factors
validate_assessment a = add_factors a.factors nothing_found >>= λ found. check_found a found

abbrev pub or_failed : Option Assessment → Result Error Assessment
or_failed none = err provider_failed
or_failed (some a) = ok a

-- `Processor.Evaluate`.
unfoldable pub process :
    (Evidence → Evidence → Option Assessment) → Evidence → Evidence → Result Error Assessment
unfolding validate_assessment validate_pair recency
process provider left right = do
  validate_pair left right
  answer ← or_failed (provider left right)
  a ← validate_assessment answer
  fail_if (not (str_eq a.left_evidence_id left.id) || not (str_eq a.right_evidence_id right.id))
      id_mismatch
  fail_if (not (str_eq a.recency_order (recency left.observed_at right.observed_at)))
      recency_mismatch
  ok a
