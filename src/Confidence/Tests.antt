-- ===== src/Confidence/Tests.antt =====
-- The confidence policy at concrete evidence.
use signa.Confidence.{
  Policy, Evidence, Outcome, evaluate_with_coordination, validate, parse_severity, high, emerging,
  state_of, gather, corroborated, add_item,
}
use signa.Confidence.Counts.{first_reports, IsValid, HasIds, evaluate_iff, first_outcome}
use signa.Confidence.States.{any_contradiction, Warranted, evaluate-Warranted}
use signa.Prelude.{String, ◌≡◌, refl, ◌↔◌, some, List, [], ◌∷◌}
use signa.Prelude.Int.{pos}
use signa.Prelude.Result.{ok}
use signa.Prelude.Text.{contains, trim_space, to_upper, equal_codes}

abbrev policy : Policy
policy = record { emerging_min = pos 1; corroborated_min = pos 2; high_min = pos 4 }

abbrev report : String → String → Evidence
report id independence = record {
  id = id;
  independence_state = independence;
  contradiction_state = "no_signal";
  severity_status = "identified";
  severity_candidate = " High ";
}

abbrev three : List Evidence
three =
    report "a" "indeterminate"
    ∷ report "b" "independence_supported"
    ∷ report "a" "independence_supported"
    ∷ []

abbrev three_outcome : Outcome
three_outcome = record {
  confidence_state = corroborated;
  severity = some high;
  attached_report_count = 3;
  effective_independent_count = 2;
  repeated_evidence_count = 0;
  contradiction_state = "";
  coordination_state = "indeterminate";
}

three-evaluated : evaluate_with_coordination policy three "indeterminate" ≡ ok three_outcome
unfolding evaluate_with_coordination validate gather add_item parse_severity state_of contains
    trim_space to_upper equal_codes
three-evaluated = refl

abbrev two_outcome : Outcome
two_outcome = record three_outcome {
  confidence_state = emerging;
  effective_independent_count = 1;
  repeated_evidence_count = 1;
  coordination_state = "possible_coordination";
}

two-evaluated : evaluate_with_coordination policy three "possible_coordination" ≡ ok two_outcome
unfolding evaluate_with_coordination validate gather add_item parse_severity state_of contains
    trim_space to_upper equal_codes
two-evaluated = refl

evaluate_iff_example :
    (evaluate_with_coordination policy three "indeterminate" ≡ ok three_outcome)
    ↔ (IsValid policy × HasIds three × (first_outcome policy three "indeterminate" ≡ three_outcome))
evaluate_iff_example = evaluate_iff policy three "indeterminate" three_outcome

evaluate-Warranted_example :
    Warranted policy (any_contradiction (first_reports [] three)) 2 corroborated
evaluate-Warranted_example = evaluate-Warranted policy three "indeterminate" three-evaluated
