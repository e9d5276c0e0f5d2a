-- ===== src/Alerts/Agreement.antt =====
-- The alert policy of internal/alerts/policy.go on what the priority policy of internal/priority decides.
use signa.Alerts.{
  decide, Decision, fresh, is_terminal, validate_eligibility_input, supported_status,
  actionable_severity, supported_severity, eligible_confidence, supported_confidence, immediate,
  EligibilityInput, supported_priority, urgent_severity, AlertType, evaluate_eligibility, nearby,
}
use signa.Alerts.Eligibility.{evaluate_eligibility-IsAlert}
use signa.Prelude.{
  String, ◌≡◌, inl, inr, true, false, Option, none, some, arith, str_eq, eq_iff, Bool-cases, refl,
}
use signa.Prelude.Float.{Float}
use signa.Prelude.Result.{ok}
use signa.Priority.{
  Policy, Input, high_immediate_severity, p3, known_confidence, none_level, p2, known_severity, p1,
  Level, nearby_severity, is_active, immediate_confidence,
}
use signa.Priority.Levels.{Warranted, evaluate-Warranted_level}

active-supported :
    (s : String) → is_active s ≡ true → (supported_status s ≡ true) × (is_terminal s ≡ false)
active-supported s h = elim (Bool-cases (str_eq s "OPEN")) [
  | inl e ↦ rw ((eq_iff s "OPEN").0 e) (refl, refl)
  | inr other_status ↦ rw ((eq_iff s "RESOLVING").0 (rw other_status at h)) (refl, refl)
]

known_severity-supported : (s : String) → known_severity s ≡ true → supported_severity s ≡ true
unfolding known_severity
known_severity-supported s h = ground arith

known_confidence-supported :
    (s : String) → known_confidence s ≡ true → supported_confidence s ≡ true
unfolding known_confidence
known_confidence-supported s h = ground arith

immediate_confidence-eligible :
    (s : String) → immediate_confidence s ≡ true → eligible_confidence s ≡ true
unfolding immediate_confidence
immediate_confidence-eligible s h = h

nearby_severity-actionable : (s : String) → nearby_severity s ≡ true → actionable_severity s ≡ true
unfolding nearby_severity
nearby_severity-actionable s h = ground arith

high_immediate_severity-urgent :
    (s : String) → high_immediate_severity s ≡ true → urgent_severity s ≡ true
unfolding high_immediate_severity
high_immediate_severity-urgent s h = h

-- The input that stands for a fresh incident and the level that was decided for a user.
abbrev pub fresh_input : signa.Priority.Incident → Level → EligibilityInput
fresh_input i level = record {
  status = i.status;
  freshness = fresh;
  confidence = i.confidence;
  severity = i.severity;
  priority = level;
}

fresh_input-valid :
    (i : signa.Priority.Incident) (level : Level)
    → is_active i.status ≡ true
    → known_severity i.severity ≡ true
    → known_confidence i.confidence ≡ true
    → supported_priority level ≡ true
    → evaluate_eligibility (fresh_input i level) ≡ ok (decide (fresh_input i level))
unfolding evaluate_eligibility validate_eligibility_input
fresh_input-valid i level a s c l =
    rw
      (
        (active-supported i.status a).0,
        known_severity-supported i.severity s,
        known_confidence-supported i.confidence c,
        l,
      )
      refl

-- The alert that a level calls for.
abbrev pub alert_of : Level → Option AlertType
alert_of p1 = some immediate
alert_of p2 = some nearby
alert_of _ = none

module _ {F : Type 0} ⦃f : Float F⦄ where
  urgent-alerted :
      (policy : Policy F) (input : Input F) (level : Level) (t : AlertType)
      → alert_of level ≡ some t
      → Warranted policy input level
      → (d : Decision) × (evaluate_eligibility (fresh_input input.incident level) ≡ ok d)
        × (d.is_eligible ≡ true)
        × (d.alert_type ≡ some t)
  urgent-alerted policy input p1 immediate h (c, _, s, k) =
      let i = input.incident in
      let valid = fresh_input-valid i p1 c.active c.severity_known c.confidence_known refl in
      let (yes_alert, typed) = (evaluate_eligibility-IsAlert (fresh_input i p1) immediate valid).1 (
        (active-supported i.status c.active).1,
        refl,
        immediate_confidence-eligible i.confidence k,
        (refl, high_immediate_severity-urgent i.severity s),
      ) in
      (decide (fresh_input i p1), valid, yes_alert, typed)
  urgent-alerted policy input p1 nearby h w = absurd (cc)
  urgent-alerted policy input p2 immediate h w = absurd (cc)
  urgent-alerted policy input p2 nearby h (c, _, s, k) =
      let i = input.incident in
      let valid = fresh_input-valid i p2 c.active c.severity_known c.confidence_known refl in
      let (yes_alert, typed) = (evaluate_eligibility-IsAlert (fresh_input i p2) nearby valid).1 (
        (active-supported i.status c.active).1,
        refl,
        immediate_confidence-eligible i.confidence k,
        (refl, nearby_severity-actionable i.severity s),
      ) in
      (decide (fresh_input i p2), valid, yes_alert, typed)
  urgent-alerted policy input p3 t h w = absurd (cc)
  urgent-alerted policy input none_level t h w = absurd (cc)
  urgent-alerted policy input (Level.other s) t h w = absurd (cc)

  -- The two policies agree: when the priority policy decides P1 or P2 for a user, the alert policy, given
  -- the incident as fresh and that level, succeeds with an eligible decision, immediate for P1 and nearby
  -- for P2.
  pub evaluate_priority-alerted :
      (policy : Policy F) (input : Input F) {p : signa.Priority.Decision} (t : AlertType)
      → signa.Priority.evaluate policy input ≡ ok p
      → alert_of p.level ≡ some t
      → (d : Decision) × (evaluate_eligibility (fresh_input input.incident p.level) ≡ ok d)
        × (d.is_eligible ≡ true)
        × (d.alert_type ≡ some t)
  evaluate_priority-alerted policy input {p} t e h =
      urgent-alerted policy input p.level t h (evaluate-Warranted_level policy input e)
