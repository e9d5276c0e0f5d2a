-- ===== src/Contradiction/Evaluator.antt =====
-- The rule-based evaluator of internal/ai/contradiction/contradiction.go.
use signa.Contradiction.{
  Error, Evidence, Factor, Assessment, Normalization, validate_pair, Field, Claim,
}
use signa.Prelude.{
  String, Bool, not, ◌&&◌, ◌||◌, Option, some, List, [], ◌∷◌, if◌then◌else◌, str_eq,
}
use signa.Prelude.Int.{ltb_ℤ, eq_ℤ}
use signa.Prelude.Result.{Result, ok, ◌>>◌}
use signa.Prelude.Time.{Time}

abbrev pub factor : String → String → String → Factor
factor name outcome reason = record { name = name; outcome = outcome; reason = reason }

abbrev pub opposite : String → String → String → String → Bool
opposite left right a b = (str_eq left a && str_eq right b) || (str_eq left b && str_eq right a)

-- `compareClaim`.
unfoldable pub compare_claim : Claim → Claim → Factor
compare_claim left right =
    if not (str_eq left.subject right.subject)
    then factor "claim_state" "unknown" "claim subjects differ and are not directly comparable"
    else if str_eq left.state right.state
    then factor "claim_state" "no_signal" "explicit claim states agree"
    else if (str_eq left.subject "passage" && opposite left.state right.state "blocked" "open")
        || (str_eq left.subject "activity" && opposite left.state right.state "ongoing" "stopped")
    then factor "claim_state" "contradiction"
        "explicit claims state opposite conditions for the same subject"
    else factor "claim_state" "unknown" "claim states are not directly comparable"

-- `recency`.
unfoldable pub recency : Option Time → Option Time → String
recency (some left) (some right) =
    if eq_ℤ left right
    then "same_time"
    else if ltb_ℤ right left
    then "left_newer"
    else "right_newer"
recency _ _ = "unknown"

abbrev pub incomparable : Factor
incomparable =
    factor "claim_state" "not_comparable"
      "claims are not assessed across distinct event or identified location contexts"

abbrev pub either_incomparable : Factor → Factor → Bool
either_incomparable event place =
    str_eq event.outcome "not_comparable" || str_eq place.outcome "not_comparable"

-- The evaluator's `state`.
abbrev pub state_of : String → String → String → String
state_of event place claim =
    if str_eq event "not_comparable" || str_eq place "not_comparable"
    then "not_comparable"
    else if str_eq event "no_signal" && str_eq place "no_signal"
    then if str_eq claim "contradiction"
      then "contradiction_signal"
      else if str_eq claim "no_signal"
      then "no_signal"
      else "indeterminate"
    else "indeterminate"

-- `equal_fold` is `strings.EqualFold` of two texts without the space around them.
module _ (equal_fold : String → String → Bool) where
  abbrev pub both_identified : Field → Field → Bool
  both_identified left right = str_eq left.status "identified" && str_eq right.status "identified"

  abbrev pub unknown_event : Factor
  unknown_event = factor "event_type" "unknown" "one or both event types are unknown or ambiguous"

  abbrev pub compare_values : Option String → Option String → Factor
  compare_values (some l) (some r) =
      if equal_fold l r
      then factor "event_type" "no_signal" "identified event types agree"
      else factor "event_type" "not_comparable" "identified event types differ"
  compare_values _ _ = unknown_event

  -- `compareEvent`.
  unfoldable pub compare_event : Field → Field → Factor
  compare_event left right =
      if not (both_identified left right)
      then unknown_event
      else compare_values left.value right.value

  abbrev pub compare_places : List String → List String → Factor
  compare_places (l ∷ []) (r ∷ []) =
      if equal_fold l r
      then factor "location_reference" "no_signal" "identified normalized location wording agrees"
      else factor "location_reference" "not_comparable" "identified location candidates differ"
  compare_places _ _ =
      factor "location_reference" "unknown" "one or both locations are unknown or ambiguous"

  -- `compareLocation`.
  unfoldable pub compare_location : Normalization → Normalization → Factor
  compare_location left right =
      if not (str_eq left.location_state "identified" && str_eq right.location_state "identified")
      then factor "location_reference" "unknown" "one or both locations are unknown or ambiguous"
      else compare_places left.candidates right.candidates

  abbrev pub assess : Evidence → Evidence → Assessment
  assess left right =
      let event = compare_event left.event_type right.event_type in
      let place = compare_location left.location right.location in
      let claim = compare_claim left.claim right.claim in
      record {
        left_evidence_id = left.id;
        right_evidence_id = right.id;
        contradiction_state = state_of event.outcome place.outcome claim.outcome;
        recency_order = recency left.observed_at right.observed_at;
        factors =
            event ∷ place ∷ (if either_incomparable event place then incomparable else claim) ∷ [];
      }

  -- `RuleBasedEvaluator.Evaluate`, before its result is encoded.
  unfoldable pub evaluate : Evidence → Evidence → Result Error Assessment
  unfolding validate_pair compare_event compare_location compare_claim recency
  evaluate left right = do validate_pair left right; ok (assess left right)
