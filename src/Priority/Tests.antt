-- ===== src/Priority/Tests.antt =====
-- The priority policy at concrete incidents, over whole metres.
use signa.Prelude.{ℕ, String, ◌≡◌, refl, true, Option, none, some, [], ◌∷◌}
use signa.Prelude.Float.{whole_numbers}
use signa.Prelude.Int.{ℤ, pos, ◌+ℤ◌, ◌-ℤ◌}
use signa.Prelude.Result.{ok}
use signa.Prelude.Text.{lower}
use signa.Prelude.Time.{sub}
use signa.Priority.{
  Policy, Input, Decision, evaluate, confidence_reason, known_confidence, known_severity, p3,
  definitely_within, immediate_confidence, accuracy, p1, high_immediate_severity, severity_reason,
  none_level, grade, possibly_within,
}
use signa.Priority.Levels.{evaluate-Warranted_level, Warranted, Current}
use signa.Priority.RouteLevels.{evaluate_route-Raised, Raised}
use signa.Priority.Routes.{relevant, route_eligible, evaluate_route}

abbrev policy : Policy ℤ
policy = record {
  p1_radius_meters = pos 500;
  p2_radius_meters = pos 2000;
  location_max_age = pos 60;
  incident_max_age = pos 600;
}

abbrev place : ℕ → Option ℤ → String → String → Input ℤ
place distance accuracy severity confidence = record {
  now = pos 1000;
  incident = record {
    status = "OPEN";
    activity_at = pos 900;
    severity = severity;
    confidence = confidence;
  };
  proximity = record {
    distance_meters = pos distance;
    accuracy_meters = accuracy;
    observed_at = pos 990;
  };
}

abbrev near : Input ℤ
near = place 300 (some (pos 40)) "CRITICAL" "EMERGING"

abbrev near_decision : Decision
near_decision = record {
  level = p1;
  reasons =
      "incident_active" ∷ "incident_fresh" ∷ "location_fresh" ∷ "within_p1_radius"
      ∷ "severity_critical" ∷ "confidence_emerging" ∷ [];
}

near-evaluated : evaluate policy near ≡ ok near_decision
unfolding evaluate definitely_within high_immediate_severity known_severity known_confidence
    immediate_confidence grade severity_reason confidence_reason sub ◌-ℤ◌ ◌+ℤ◌
near-evaluated = refl

abbrev disputed : Input ℤ
disputed = place 2500 none "LOW" "DISPUTED"

disputed-evaluated :
    evaluate policy disputed
    ≡ ok (record { level = none_level; reasons = "outside_p2_radius" ∷ [] })
unfolding evaluate definitely_within possibly_within high_immediate_severity known_severity
    known_confidence immediate_confidence grade severity_reason confidence_reason sub ◌-ℤ◌ ◌+ℤ◌
disputed-evaluated = refl

low_near :
    evaluate policy (place 300 none "LOW" "UNVERIFIED")
    ≡ ok (record {
      level = p3;
      reasons =
          "incident_active" ∷ "incident_fresh" ∷ "location_fresh" ∷ "location_uncertain"
          ∷ "possibly_within_p2_radius" ∷ "severity_low" ∷ "confidence_unverified" ∷ [];
    })
unfolding evaluate definitely_within possibly_within high_immediate_severity known_severity
    known_confidence immediate_confidence grade severity_reason confidence_reason sub lower ◌-ℤ◌
    ◌+ℤ◌
low_near = refl

evaluate-Warranted_level_example : Warranted policy near p1
evaluate-Warranted_level_example = evaluate-Warranted_level policy near near-evaluated

near-Current : Current policy near
unfolding sub ◌-ℤ◌ known_severity known_confidence
near-Current = record {
  incident_fresh = refl;
  location_fresh = refl;
  active = refl;
  severity_known = refl;
  confidence_known = refl;
}

near-within : definitely_within near.proximity policy.p2_radius_meters ≡ true
unfolding definitely_within ◌+ℤ◌
near-within = refl

abbrev route_decision : Decision
route_decision = record {
  level = p3;
  reasons =
      "outside_p2_radius" ∷ "route_relevant" ∷ "route_relevance_p3" ∷ "confidence_disputed" ∷ [];
}

disputed_route-evaluated : evaluate_route policy disputed relevant ≡ ok route_decision
unfolding evaluate_route evaluate route_eligible definitely_within possibly_within
    high_immediate_severity known_severity known_confidence immediate_confidence grade
    severity_reason confidence_reason sub ◌-ℤ◌ ◌+ℤ◌
disputed_route-evaluated = refl

evaluate_route-Raised_example :
    (base : Decision) × (evaluate policy disputed ≡ ok base)
    × Raised policy disputed relevant base.level p3
evaluate_route-Raised_example =
    evaluate_route-Raised policy disputed relevant disputed_route-evaluated
