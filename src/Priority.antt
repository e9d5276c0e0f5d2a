-- ===== src/Priority.antt =====
-- internal/priority/policy.go and route_policy.go: the priority of an incident for one user.
-- Distances are over an abstract `float64`.
pub mod Routes
pub mod Levels
pub mod RouteLevels
mod Tests
-- The values of `Level` that the package gives; `other` is any further string of that Go type.
use signa.Prelude.{
  String, Bool, false, not, ◌&&◌, ◌||◌, Option, none, some, List, [], ◌∷◌, ◌++◌, if◌then◌else◌,
  str_eq, is_some,
}
use signa.Prelude.Float.{Float, finite_non_negative, finite_positive}
use signa.Prelude.Int.{pos, ltb_ℤ, leb_ℤ}
use signa.Prelude.Result.{Result, ok, err, ◌>>◌, fail_if, ◌>>=◌}
use signa.Prelude.Text.{lower, concat}
use signa.Prelude.Time.{Time, Duration, is_zero, sub}

pub data Level : Type 0 where
  p1 p2 p3 none_level : Level
  other : String → Level

pub record Policy (F : Type 0) : Type 0 where
  pub p1_radius_meters : F
  pub p2_radius_meters : F
  pub location_max_age : Duration
  pub incident_max_age : Duration

pub record Incident : Type 0 where
  pub status : String
  pub activity_at : Time
  pub severity : String
  pub confidence : String

pub record Proximity (F : Type 0) : Type 0 where
  pub distance_meters : F
  pub accuracy_meters : Option F
  pub observed_at : Time

pub record Input (F : Type 0) : Type 0 where
  pub now : Time
  pub incident : Incident
  pub proximity : Proximity F

pub record Decision : Type 0 where
  pub level : Level
  pub reasons : List String

pub data Error : Type 0 where
  bad_radii radii_not_increasing bad_durations times_required bad_distance bad_accuracy : Error
  unsupported_status unsupported_relevance : String → Error

abbrev pub no_priority : String → Decision
no_priority reason = record { level = none_level; reasons = reason ∷ [] }

unfoldable pub high_immediate_severity : String → Bool
high_immediate_severity value = str_eq value "HIGH" || str_eq value "CRITICAL"

unfoldable pub nearby_severity : String → Bool
unfolding high_immediate_severity
nearby_severity value = str_eq value "MODERATE" || high_immediate_severity value

unfoldable pub immediate_confidence : String → Bool
immediate_confidence value =
    str_eq value "EMERGING" || str_eq value "CORROBORATED" || str_eq value "HIGH_CONFIDENCE"

abbrev pub nearby_confidence : String → Bool
nearby_confidence value = immediate_confidence value

unfoldable pub known_severity : String → Bool
unfolding nearby_severity
known_severity value = str_eq value "LOW" || nearby_severity value

unfoldable pub known_confidence : String → Bool
unfolding immediate_confidence
known_confidence value =
    str_eq value "UNVERIFIED" || immediate_confidence value || str_eq value "DISPUTED"

unfoldable pub severity_reason : String → String
severity_reason value =
    if str_eq value "CRITICAL"
    then "severity_critical"
    else if str_eq value "HIGH"
    then "severity_high"
    else concat "severity_" (lower value)

unfoldable pub confidence_reason : String → String
confidence_reason value =
    if str_eq value "EMERGING"
    then "confidence_emerging"
    else if str_eq value "CORROBORATED"
    then "confidence_corroborated"
    else if str_eq value "HIGH_CONFIDENCE"
    then "confidence_high"
    else concat "confidence_" (lower value)

-- `age < 0 || age > limit`.
abbrev pub is_stale : Duration → Duration → Bool
is_stale age limit = ltb_ℤ age (pos 0) || ltb_ℤ limit age

abbrev pub is_active : String → Bool
is_active status = str_eq status "OPEN" || str_eq status "RESOLVING"

abbrev pub is_disputed : String → Bool
is_disputed confidence = str_eq confidence "DISPUTED"

abbrev pub grade_reasons : Incident → List String
grade_reasons incident =
    severity_reason incident.severity ∷ confidence_reason incident.confidence ∷ []

module _ {F : Type 0} ⦃f : Float F⦄ where
  -- `Policy.Validate`.
  unfoldable pub validate : Policy F → Result Error (Unit {0})
  validate p = do
    fail_if (not (finite_positive p.p1_radius_meters) || not (finite_positive p.p2_radius_meters))
        bad_radii
    fail_if (f.le p.p2_radius_meters p.p1_radius_meters) radii_not_increasing
    fail_if (leb_ℤ p.location_max_age (pos 0) || leb_ℤ p.incident_max_age (pos 0)) bad_durations

  abbrev pub bad_accuracy_value : Option F → Bool
  bad_accuracy_value none = false
  bad_accuracy_value (some a) = not (finite_non_negative a)

  -- The guards of `Evaluate` that return an error before any age is computed.
  unfoldable pub check_input : Policy F → Input F → Result Error (Unit {0})
  unfolding validate
  check_input policy input = do
    validate policy
    fail_if
        (is_zero input.now
          || is_zero input.incident.activity_at
          || is_zero input.proximity.observed_at)
        times_required
    fail_if (not (finite_non_negative input.proximity.distance_meters)) bad_distance
    fail_if (bad_accuracy_value input.proximity.accuracy_meters) bad_accuracy

  abbrev pub accuracy : Proximity F → F
  accuracy p = elim p.accuracy_meters [ none ↦ f.nought | some a ↦ a ]

  -- `knownAccuracy && distance + accuracy <= radius`.
  unfoldable pub definitely_within : Proximity F → F → Bool
  definitely_within p radius =
      is_some p.accuracy_meters && f.le (f.add p.distance_meters (accuracy p)) radius

  unfoldable pub possibly_within : Proximity F → F → Bool
  possibly_within p radius = f.le (f.minus p.distance_meters (accuracy p)) radius

  abbrev pub base_reasons : Proximity F → List String
  base_reasons p =
      "incident_active"
      ∷ "incident_fresh"
      ∷ "location_fresh"
      ∷ (if is_some p.accuracy_meters then [] else "location_uncertain" ∷ [])

  -- The reasons of a decision for P3.
  abbrev pub nearby_reasons : Policy F → Input F → List String
  nearby_reasons policy input =
      let known = is_some input.proximity.accuracy_meters in
      let place =
        if known && definitely_within input.proximity policy.p2_radius_meters
        then "within_p2_radius" ∷ []
        else if not known
        then "possibly_within_p2_radius" ∷ []
        else "location_uncertain" ∷ "possibly_within_p2_radius" ∷ [] in
      (base_reasons input.proximity ++ place)
      ++ (if is_disputed input.incident.confidence
          then "confidence_disputed" ∷ []
          else grade_reasons input.incident)

  -- The spatial part of `Evaluate`, for a fresh active incident of known severity and confidence.
  unfoldable pub grade : Policy F → Input F → Decision
  grade policy input =
      let i = input.incident in
      let reasons = base_reasons input.proximity in
      if definitely_within input.proximity policy.p1_radius_meters
        && high_immediate_severity i.severity
        && immediate_confidence i.confidence
      then record { level = p1; reasons = reasons ++ ("within_p1_radius" ∷ grade_reasons i) }
      else if definitely_within input.proximity policy.p2_radius_meters
          && nearby_severity i.severity
          && nearby_confidence i.confidence
      then record { level = p2; reasons = reasons ++ ("within_p2_radius" ∷ grade_reasons i) }
      else if possibly_within input.proximity policy.p2_radius_meters
      then record { level = p3; reasons = nearby_reasons policy input }
      else no_priority "outside_p2_radius"

  abbrev pub incident_age : Input F → Duration
  incident_age input = sub input.now input.incident.activity_at

  abbrev pub location_age : Input F → Duration
  location_age input = sub input.now input.proximity.observed_at

  -- The rest of `Evaluate`, after the input has been checked.
  unfoldable pub decide : Policy F → Input F → Result Error Decision
  decide policy input =
      let i = input.incident in
      if is_stale (incident_age input) policy.incident_max_age
      then ok (no_priority "incident_stale")
      else if is_stale (location_age input) policy.location_max_age
      then ok (no_priority "location_stale")
      else if str_eq i.status "RESOLVED" || str_eq i.status "EXPIRED"
      then ok (no_priority "incident_terminal")
      else if not (is_active i.status)
      then err (unsupported_status i.status)
      else if not (known_severity i.severity)
      then ok (no_priority "severity_unknown")
      else if not (known_confidence i.confidence)
      then ok (no_priority "confidence_unknown")
      else ok (grade policy input)

  unfoldable pub evaluate : Policy F → Input F → Result Error Decision
  unfolding check_input decide
  evaluate policy input = check_input policy input >> decide policy input
