-- ===== src/Confidence.antt =====
-- internal/incidents/confidence/policy.go: confidence and severity from the evidence of an incident.
-- Go's `int` thresholds are integers; the counts never exceed the number of reports.
pub mod Counts
pub mod Severities
pub mod States
mod Tests
use signa.Prelude.{
  ℕ, ◌+◌, String, Bool, ◌||◌, Option, none, some, List, [], ◌∷◌, map, ltb, if◌then◌else◌, str_eq,
  length, is_empty,
}
use signa.Prelude.Int.{ℤ, pos, leb_ℤ}
use signa.Prelude.Result.{Result, ok, err, fail_if, ◌>>=◌, ◌>>◌}
use signa.Prelude.Text.{contains, codes, trim_space, to_upper, equal_codes}

pub data ConfidenceState : Type 0 where
  unverified emerging corroborated high_confidence disputed : ConfidenceState

pub data Severity : Type 0 where
  low moderate high critical : Severity

pub record Policy : Type 0 where
  pub emerging_min : ℤ
  pub corroborated_min : ℤ
  pub high_min : ℤ

pub record Evidence : Type 0 where
  pub id : String
  pub independence_state : String
  pub contradiction_state : String
  pub severity_status : String
  pub severity_candidate : String

-- `Result` of the source.
pub record Outcome : Type 0 where
  pub confidence_state : ConfidenceState
  pub severity : Option Severity
  pub attached_report_count : ℕ
  pub effective_independent_count : ℕ
  pub repeated_evidence_count : ℕ
  pub contradiction_state : String
  pub coordination_state : String

pub data Error : Type 0 where
  not_positive not_increasing id_required : Error

-- `Policy.Validate`.
unfoldable pub validate : Policy → Result Error (Unit {0})
validate p = do
  fail_if
      (leb_ℤ p.emerging_min (pos 0) || leb_ℤ p.corroborated_min (pos 0) || leb_ℤ p.high_min (pos 0))
      not_positive
  fail_if (leb_ℤ p.corroborated_min p.emerging_min || leb_ℤ p.high_min p.corroborated_min)
      not_increasing

unfoldable pub parse_severity : String → Option Severity
unfolding trim_space equal_codes to_upper
parse_severity value =
    let word = map to_upper (trim_space (codes value)) in
    if equal_codes word (codes "LOW")
    then some low
    else if equal_codes word (codes "MODERATE")
    then some moderate
    else if equal_codes word (codes "HIGH")
    then some high
    else if equal_codes word (codes "CRITICAL")
    then some critical
    else none

abbrev pub rank : Severity → ℕ
rank low = 1
rank moderate = 2
rank high = 3
rank critical = 4

-- The variables of the loop over the evidence; `seen` is the set of identifiers so far.
pub record Tally : Type 0 where
  pub independent : ℕ
  pub repeated : ℕ
  pub contradiction : String
  pub severity : Option Severity
  pub severity_rank : ℕ
  pub seen : List String

abbrev pub no_evidence : Tally
no_evidence = record {
  independent = 0;
  repeated = 0;
  contradiction = "";
  severity = none;
  severity_rank = 0;
  seen = [];
}

abbrev pub is_supported : Evidence → Bool
is_supported item = str_eq item.independence_state "independence_supported"

abbrev pub is_repeated : Evidence → Bool
is_repeated item =
    contains ("repetition_risk" ∷ "mixed_signals" ∷ "indeterminate" ∷ "" ∷ "no_signal" ∷ [])
      item.independence_state

abbrev pub is_contradiction : Evidence → Bool
is_contradiction item = str_eq item.contradiction_state "contradiction_signal"

-- The first `if` of the loop body: the contribution to the two counters.
unfoldable pub add_counts : String → Tally → Evidence → Tally
add_counts coordination t item =
    if is_empty t.seen
    then record t { independent = t.independent + 1 }
    else if str_eq coordination "possible_coordination"
    then record t { repeated = t.repeated + 1 }
    else if is_supported item
    then record t { independent = t.independent + 1 }
    else if is_repeated item
    then record t { repeated = t.repeated + 1 }
    else t

unfoldable pub raise_severity : Option Severity → Tally → Tally
raise_severity none t = t
raise_severity (some s) t =
    if ltb t.severity_rank (rank s)
    then record t { severity = some s; severity_rank = rank s }
    else t

-- The severity that an item claims, if it is identified and parses.
unfoldable pub claimed : Evidence → Option Severity
claimed item =
    if str_eq item.severity_status "identified"
    then parse_severity item.severity_candidate
    else none

unfoldable pub add_contradiction : Evidence → Tally → Tally
add_contradiction item t =
    if is_contradiction item then record t { contradiction = "contradiction_signal" } else t

abbrev pub add_seen : Evidence → Tally → Tally
add_seen item t = record t { seen = item.id ∷ t.seen }

-- The loop body for an item that is not a duplicate.
unfoldable pub add_item : String → Tally → Evidence → Tally
unfolding add_counts raise_severity claimed add_contradiction
add_item coordination t item =
    raise_severity (claimed item)
      (add_contradiction item (add_seen item (add_counts coordination t item)))

unfoldable pub gather : String → List Evidence → Tally → Result Error Tally
gather coordination [] t = ok t
gather coordination (item ∷ evidence) t =
    let rest =
      gather coordination evidence
        (if contains t.seen item.id then t else add_item coordination t item) in
    if str_eq item.id "" then err id_required else rest

-- The `switch` at the end of `EvaluateWithCoordination`.
unfoldable pub state_of : Policy → String → ℕ → ConfidenceState
state_of policy contradiction independent =
    if str_eq contradiction "contradiction_signal"
    then disputed
    else if leb_ℤ policy.high_min (pos independent)
    then high_confidence
    else if leb_ℤ policy.corroborated_min (pos independent)
    then corroborated
    else if leb_ℤ policy.emerging_min (pos independent)
    then emerging
    else unverified

abbrev pub outcome : Policy → List Evidence → String → Tally → Outcome
outcome policy evidence coordination t = record {
  confidence_state = state_of policy t.contradiction t.independent;
  severity = t.severity;
  attached_report_count = length evidence;
  effective_independent_count = t.independent;
  repeated_evidence_count = t.repeated;
  contradiction_state = t.contradiction;
  coordination_state = coordination;
}

unfoldable pub evaluate_with_coordination : Policy → List Evidence → String → Result Error Outcome
evaluate_with_coordination policy evidence coordination = do
  validate policy
  t ← gather coordination evidence no_evidence
  ok (outcome policy evidence coordination t)

unfoldable pub evaluate : Policy → List Evidence → Result Error Outcome
unfolding evaluate_with_coordination
evaluate policy evidence = evaluate_with_coordination policy evidence "indeterminate"
