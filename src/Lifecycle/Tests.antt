-- ===== src/Lifecycle/Tests.antt =====
-- The lifecycle policy at concrete incidents.
use signa.Lifecycle.{
  Policy, Incident, Decision, evaluate, not_increasing, next_status, resolution_time, is_supported,
  validate,
}
use signa.Lifecycle.Sweeps.{evaluate-evaluate, stored}
use signa.Prelude.{◌≡◌, refl, none, some, arith}
use signa.Prelude.Int.{pos, ◌+ℤ◌, ◌-ℤ◌}
use signa.Prelude.Result.{ok, err}
use signa.Prelude.Time.{sub}

abbrev policy : Policy
policy = record { resolving_after = pos 10; resolved_after = pos 20; expired_after = pos 30 }

abbrev quiet : Incident
quiet = record { status = "RESOLVING"; activity_at = pos 5; resolved_at = none; expires_at = none }

abbrev quiet_at_26 : Decision
quiet_at_26 = record {
  status = "RESOLVED";
  activity_at = pos 5;
  age = pos 21;
  expires_at = pos 35;
  resolved_at = some (pos 25);
}

quiet-decided : evaluate (pos 26) quiet policy ≡ ok quiet_at_26
unfolding evaluate validate is_supported next_status resolution_time sub ◌+ℤ◌ ◌-ℤ◌
quiet-decided = refl

quiet-reopened :
    evaluate (pos 14) quiet policy
    ≡ ok (record {
      status = "OPEN";
      activity_at = pos 5;
      age = pos 9;
      expires_at = pos 35;
      resolved_at = none;
    })
unfolding evaluate validate is_supported next_status resolution_time sub ◌+ℤ◌ ◌-ℤ◌
quiet-reopened = refl

bad_policy : evaluate (pos 14) quiet (record policy { expired_after = pos 20 }) ≡ err not_increasing
unfolding evaluate validate
bad_policy = refl

evaluate-evaluate_example :
    (d2 d1 : Decision) × (evaluate (pos 40) (stored quiet quiet_at_26) policy ≡ ok d2)
    × (evaluate (pos 40) quiet policy ≡ ok d1)
    × (d2.status ≡ d1.status)
    × (d2.age ≡ d1.age)
    × (d2.expires_at ≡ d1.expires_at)
evaluate-evaluate_example =
    evaluate-evaluate (pos 26) (pos 40) quiet policy quiet-decided (omega arith)

abbrev quiet_at_30 : Decision
quiet_at_30 = record quiet_at_26 { age = pos 25 }

again : evaluate (pos 30) (stored quiet quiet_at_26) policy ≡ ok quiet_at_30
unfolding evaluate validate is_supported next_status resolution_time sub ◌+ℤ◌ ◌-ℤ◌
again = refl
