-- ===== src/Alerts.antt =====
-- internal/alerts/policy.go: whether an incident is worth an alert.
pub mod Eligibility
pub mod Agreement
mod Tests
use signa.Prelude.{
  String, Bool, true, false, not, ◌||◌, Option, none, some, List, [], ◌∷◌, if◌then◌else◌, str_eq,
}
use signa.Prelude.Result.{Result, ok, ◌>>◌, fail_if, ◌>>=◌}
use signa.Prelude.Text.{lower, concat}
use signa.Priority.{Level, p1, p2}

pub data AlertType : Type 0 where
  immediate nearby : AlertType

-- `FreshnessState`; `other` is any string that the package does not name.
pub data FreshnessState : Type 0 where
  fresh stale unknown : FreshnessState
  other : String → FreshnessState

pub record EligibilityInput : Type 0 where
  pub status : String
  pub freshness : FreshnessState
  pub confidence : String
  pub severity : String
  pub priority : Level

-- The zero value of `AlertType`, which an ineligible decision has, is `none`.
pub record Decision : Type 0 where
  pub is_eligible : Bool
  pub alert_type : Option AlertType
  pub reasons : List String

-- All wrap `ErrInvalidEligibilityInput`.
pub data Error : Type 0 where
  unsupported_status unsupported_freshness unsupported_confidence unsupported_severity
        unsupported_priority :
      Error

abbrev pub eligible : AlertType → List String → Decision
eligible alert_type reasons = record {
  is_eligible = true;
  alert_type = some alert_type;
  reasons = reasons;
}

abbrev pub ineligible : String → Decision
ineligible reason = record { is_eligible = false; alert_type = none; reasons = reason ∷ [] }

abbrev pub eligible_confidence : String → Bool
eligible_confidence value =
    str_eq value "EMERGING" || str_eq value "CORROBORATED" || str_eq value "HIGH_CONFIDENCE"

abbrev pub severity_reason : String → String
severity_reason value = concat "severity_" (lower value)

abbrev pub confidence_reason : String → String
confidence_reason value = concat "confidence_" (lower value)

abbrev pub is_terminal : String → Bool
is_terminal status = str_eq status "RESOLVED" || str_eq status "EXPIRED"

abbrev pub supported_status : String → Bool
supported_status s =
    str_eq s "OPEN" || str_eq s "RESOLVING" || str_eq s "RESOLVED" || str_eq s "EXPIRED"

abbrev pub supported_freshness : FreshnessState → Bool
supported_freshness (other _) = false
supported_freshness _ = true

abbrev pub supported_confidence : String → Bool
supported_confidence c =
    str_eq c "UNVERIFIED"
    || str_eq c "EMERGING"
    || str_eq c "CORROBORATED"
    || str_eq c "HIGH_CONFIDENCE"
    || str_eq c "DISPUTED"

abbrev pub supported_severity : String → Bool
supported_severity s =
    str_eq s "LOW" || str_eq s "MODERATE" || str_eq s "HIGH" || str_eq s "CRITICAL"

abbrev pub supported_priority : Level → Bool
supported_priority (Level.other _) = false
supported_priority _ = true

unfoldable pub validate_eligibility_input : EligibilityInput → Result Error (Unit {0})
validate_eligibility_input input = do
  fail_if (not (supported_status input.status)) unsupported_status
  fail_if (not (supported_freshness input.freshness)) unsupported_freshness
  fail_if (not (supported_confidence input.confidence)) unsupported_confidence
  fail_if (not (supported_severity input.severity)) unsupported_severity
  fail_if (not (supported_priority input.priority)) unsupported_priority

abbrev pub is_fresh : FreshnessState → Bool
is_fresh fresh = true
is_fresh _ = false

abbrev pub urgent_severity : String → Bool
urgent_severity s = str_eq s "HIGH" || str_eq s "CRITICAL"

abbrev pub actionable_severity : String → Bool
actionable_severity s = str_eq s "MODERATE" || str_eq s "HIGH" || str_eq s "CRITICAL"

abbrev pub alert_reasons : String → EligibilityInput → List String
alert_reasons level input =
    "incident_active"
    ∷ "incident_fresh"
    ∷ level
    ∷ severity_reason input.severity
    ∷ confidence_reason input.confidence
    ∷ []

-- The tests of `EvaluateEligibility` for each priority.
unfoldable pub by_priority : Level → EligibilityInput → Decision
by_priority p1 input =
    if not (urgent_severity input.severity)
    then ineligible "severity_not_urgent"
    else if not (eligible_confidence input.confidence)
    then ineligible "confidence_not_actionable"
    else eligible immediate (alert_reasons "priority_p1" input)
by_priority p2 input =
    if not (actionable_severity input.severity)
    then ineligible "severity_not_actionable"
    else if not (eligible_confidence input.confidence)
    then ineligible "confidence_not_actionable"
    else eligible nearby (alert_reasons "priority_p2" input)
by_priority _ input = ineligible "priority_not_realtime"

unfoldable pub decide : EligibilityInput → Decision
unfolding by_priority
decide input =
    if is_terminal input.status
    then ineligible "incident_terminal"
    else if not (is_fresh input.freshness)
    then ineligible "incident_not_fresh"
    else by_priority input.priority input

unfoldable pub evaluate_eligibility : EligibilityInput → Result Error Decision
unfolding validate_eligibility_input decide
evaluate_eligibility input = validate_eligibility_input input >> ok (decide input)
