-- ===== src/Alerts/Tests.antt =====
-- The alert policy at concrete incidents.
use signa.Alerts.{
  EligibilityInput, Decision, evaluate_eligibility, fresh, eligible_confidence, immediate,
}
use signa.Alerts.Agreement.{fresh_input, evaluate_priority-alerted}
use signa.Alerts.Eligibility.{IsActive, IsAlert, evaluate_eligibility_iff, Deserves}
use signa.Prelude.{◌≡◌, refl, ◌↔◌, true, some, [], ◌∷◌}
use signa.Prelude.Float.{whole_numbers}
use signa.Prelude.Int.{ℤ, pos, ◌+ℤ◌, ◌-ℤ◌}
use signa.Prelude.Result.{ok}
use signa.Prelude.Text.{lower}
use signa.Prelude.Time.{sub}
use signa.Priority.{
  Policy, Input, high_immediate_severity, known_confidence, known_severity, grade, p1,
  immediate_confidence, definitely_within,
}

abbrev fire : EligibilityInput
fire = record {
  status = "OPEN";
  freshness = fresh;
  confidence = "HIGH_CONFIDENCE";
  severity = "HIGH";
  priority = p1;
}

abbrev fire_alert : Decision
fire_alert = record {
  is_eligible = true;
  alert_type = some immediate;
  reasons =
      "incident_active" ∷ "incident_fresh" ∷ "priority_p1" ∷ "severity_high"
      ∷ "confidence_high_confidence" ∷ [];
}

fire-evaluated : evaluate_eligibility fire ≡ ok fire_alert
unfolding evaluate_eligibility lower
fire-evaluated = refl

evaluate_eligibility_iff_example :
    ((d : Decision) × (evaluate_eligibility fire ≡ ok d) × IsAlert d immediate) ↔ (
      IsActive "OPEN"
      × (fresh ≡ fresh)
      × (eligible_confidence "HIGH_CONFIDENCE" ≡ true)
      × Deserves fire immediate)
evaluate_eligibility_iff_example = evaluate_eligibility_iff fire immediate

abbrev policy : Policy ℤ
policy = record {
  p1_radius_meters = pos 500;
  p2_radius_meters = pos 2000;
  location_max_age = pos 60;
  incident_max_age = pos 600;
}

abbrev near : Input ℤ
near = record {
  now = pos 1000;
  incident = record {
    status = "OPEN";
    activity_at = pos 900;
    severity = "HIGH";
    confidence = "EMERGING";
  };
  proximity = record {
    distance_meters = pos 300;
    accuracy_meters = some (pos 40);
    observed_at = pos 990;
  };
}

abbrev near_decision : signa.Priority.Decision
near_decision = record {
  level = p1;
  reasons =
      "incident_active" ∷ "incident_fresh" ∷ "location_fresh" ∷ "within_p1_radius" ∷ "severity_high"
      ∷ "confidence_emerging" ∷ [];
}

near-evaluated : signa.Priority.evaluate policy near ≡ ok near_decision
unfolding signa.Priority.evaluate definitely_within high_immediate_severity known_severity
    known_confidence immediate_confidence grade signa.Priority.severity_reason
    signa.Priority.confidence_reason sub ◌-ℤ◌ ◌+ℤ◌
near-evaluated = refl

evaluate_priority-alerted_example :
    (d : Decision) × (evaluate_eligibility (fresh_input near.incident p1) ≡ ok d)
    × (d.is_eligible ≡ true)
    × (d.alert_type ≡ some immediate)
evaluate_priority-alerted_example =
    evaluate_priority-alerted policy near immediate near-evaluated refl
