-- ===== src/Contradiction/Tests.antt =====
-- Two reports on one passage, one blocked and one open, for internal/ai/contradiction.
use signa.Contradiction.{Evidence, Field, Assessment, validate_pair, validate_input}
use signa.Contradiction.Agreement.{answer_of, process-evaluate}
use signa.Contradiction.Evaluator.{
  evaluate, compare_claim, compare_event, compare_location, factor, recency,
}
use signa.Contradiction.Symmetry.{mirror, evaluate_sym, str_eq_sym}
use signa.Contradiction.Validator.{process}
use signa.Prelude.{ℕ, String, ◌≡◌, refl, some, [], ◌∷◌, str_eq}
use signa.Prelude.Int.{pos}
use signa.Prelude.Result.{ok}
use signa.Prelude.Text.{is_blank, trim_space, equal_codes}

abbrev identified : String → Field
identified value = record {
  status = "identified";
  value = some value;
  candidates = [];
  evidence_quotes = "quote" ∷ [];
}

abbrev report : String → String → ℕ → Evidence
report id state seen = record {
  id = id;
  event_type = identified "road_closure";
  location = record {
    location_state = "identified";
    source_location_reference = identified "Third Mainland Bridge";
    candidates = "third mainland bridge" ∷ [];
  };
  claim = record { subject = "passage"; state = state; evidence_quote = "quote" };
  observed_at = some (pos seen);
}

abbrev expected : Assessment
expected = record {
  left_evidence_id = "a";
  right_evidence_id = "b";
  contradiction_state = "contradiction_signal";
  recency_order = "right_newer";
  factors =
      factor "event_type" "no_signal" "identified event types agree"
      ∷ factor "location_reference" "no_signal" "identified normalized location wording agrees"
      ∷ factor "claim_state" "contradiction"
          "explicit claims state opposite conditions for the same subject"
      ∷ [];
}

expected-evaluated : evaluate str_eq (report "a" "blocked" 1) (report "b" "open" 2) ≡ ok expected
unfolding evaluate validate_pair validate_input compare_event compare_location compare_claim recency
    is_blank trim_space equal_codes
expected-evaluated = refl

process-evaluate_example :
    process (λ l r. answer_of (evaluate str_eq l r)) (report "a" "blocked" 1) (report "b" "open" 2)
    ≡ evaluate str_eq (report "a" "blocked" 1) (report "b" "open" 2)
process-evaluate_example = process-evaluate str_eq (report "a" "blocked" 1) (report "b" "open" 2)

evaluate_sym_example :
    (b : Assessment) × (evaluate str_eq (report "b" "open" 2) (report "a" "blocked" 1) ≡ ok b)
    × (b.factors ≡ expected.factors)
    × (b.contradiction_state ≡ "contradiction_signal")
    × (b.recency_order ≡ mirror "right_newer")
evaluate_sym_example =
    evaluate_sym str_eq str_eq_sym (report "a" "blocked" 1) (report "b" "open" 2) expected
      expected-evaluated
