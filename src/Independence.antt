-- ===== src/Independence.antt =====
-- internal/ai/independence/independence.go: whether two observations may repeat one source. Scores
-- are abstract floats; the letter and number tables and the lower case of Unicode are parameters.
pub mod Evaluator
pub mod Validator
pub mod Agreement
pub mod Secrecy
pub mod Completeness
pub mod Tests
use signa.Contradiction.{Field}
use signa.Prelude.{
  String, Bool, false, ◌&&◌, ◌||◌, Option, none, some, List, [], ◌∷◌, ◌++◌, if◌then◌else◌, str_eq,
}
use signa.Prelude.Result.{Result, fail_if}
use signa.Prelude.Text.{concat, is_blank}

pub record Observation : Type 0 where
  pub evidence_id : String
  pub text : String
  pub source_claim : Field
  pub source_origin : Option String
  pub media_fingerprints : List String

pub record Input : Type 0 where
  pub target : Observation
  pub related : Observation

pub record Factor (F : Type 0) : Type 0 where
  pub name : String
  pub outcome : String
  pub score : Option F
  pub reason : String

pub record Assessment (F : Type 0) : Type 0 where
  pub contract_version : String
  pub input_contract_version : String
  pub independence_state : String
  pub similarity_method : String
  pub near_duplicate_cutoff : F
  pub factors : List (Factor F)
  pub supporting_reasons : List String
  pub limiting_reasons : List String

pub data Error : Type 0 where
  ids_not_distinct provider_failed unsupported_factor unsupported_outcome : Error
  missing_factor state_mismatch method_mismatch reasons_mismatch echoed : Error

-- `ValidateInput`.
unfoldable pub validate_input : Input → Result Error (Unit {0})
unfolding is_blank
validate_input input =
    fail_if
      (is_blank (input.target).evidence_id
        || is_blank (input.related).evidence_id
        || str_eq (input.target).evidence_id (input.related).evidence_id)
      ids_not_distinct

-- `plain`, `unknown` and `scored`.
module _ {F : Type 0} where
  abbrev pub plain : String → String → String → Factor F
  plain name outcome reason = record {
    name = name;
    outcome = outcome;
    score = none;
    reason = reason;
  }

  abbrev pub unknown : String → String → Factor F
  unknown name reason = plain name "unknown" reason

  abbrev pub scored : String → String → F → String → Factor F
  scored name outcome score reason = record {
    name = name;
    outcome = outcome;
    score = some score;
    reason = reason;
  }

-- What the loop over the factors gathers, in the evaluator and in the validator.
pub record Summary : Type 0 where
  pub risk : Bool
  pub support : Bool
  pub supporting : List String
  pub limiting : List String

abbrev pub no_summary : Summary
no_summary = record { risk = false; support = false; supporting = []; limiting = [] }

abbrev pub append_if : Bool → List String → String → List String
append_if test lines last = if test then lines ++ (last ∷ []) else lines

module _ {F : Type 0} where
  abbrev pub line : Factor F → String
  line x = concat (concat x.name ": ") x.reason

  -- One turn of the loop.
  unfoldable pub note : Factor F → Summary → Summary
  note x s = record {
    risk = str_eq x.outcome "repetition_risk" || s.risk;
    support = str_eq x.outcome "independence_support" || s.support;
    supporting = append_if (str_eq x.outcome "independence_support") s.supporting (line x);
    limiting = append_if (str_eq x.outcome "unknown") s.limiting (line x);
  }

-- The state that the summary calls for.
abbrev pub state_of : Summary → String
state_of s =
    if s.risk && s.support
    then "mixed_signals"
    else if s.risk
    then "repetition_risk"
    else if s.support
    then "independence_supported"
    else "indeterminate"
