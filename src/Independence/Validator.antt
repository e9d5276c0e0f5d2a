-- ===== src/Independence/Validator.antt =====
-- internal/ai/independence/validator.go after the JSON schema, and `Processor.Assess` of the same
-- file. An answer is the assessment and the document that it was decoded from.
-- A decoded JSON value; the name of a member is not among its texts.
use Prim.Native.String.{len}
use signa.Independence.{
  Assessment, method_mismatch, note, echoed, provider_failed, unsupported_factor, Factor, Error,
  state_mismatch, no_summary, validate_input, Observation, unsupported_outcome, Summary, Input,
  missing_factor, state_of, reasons_mismatch,
}
use signa.Independence.Evaluator.{cutoff}
use signa.Prelude.{
  String, Bool, true, false, not, ◌&&◌, ◌||◌, Option, none, some, List, [], ◌∷◌, ◌++◌, ltb,
  if◌then◌else◌, str_eq, is_empty,
}
use signa.Prelude.Float.{Float, FloatArith}
use signa.Prelude.Result.{Result, ok, err, ◌>>=◌, fail_if, ◌>>◌}
use signa.Prelude.Text.{contains_codes, contains, codes}

mutual
  pub data Json : Type 0 where
    string_value : String → Json
    array : Items → Json
    object : Items → Json
    other : Json

  pub data Items : Type 0 where
    nil : Items
    cons : Json → Items → Items

-- `containsString` of one text.
unfoldable pub text_contains : String → String → Bool
unfolding contains_codes
text_contains current needle =
    if ltb (len needle) 4
    then str_eq current needle
    else contains_codes (codes current) (codes needle)

unfoldable mutual
  unfolding text_contains

  -- `containsString`.
  pub contains_string : Json → String → Bool
  contains_string (string_value s) needle = text_contains s needle
  contains_string (array items) needle = some_contains items needle
  contains_string (object items) needle = some_contains items needle
  contains_string other needle = false

  pub some_contains : Items → String → Bool
  some_contains nil needle = false
  some_contains (cons item items) needle = contains_string item needle || some_contains items needle

pub record Answer (F : Type 0) : Type 0 where
  pub document : Json
  pub assessment : Assessment F

abbrev pub required : List String
required = "text_similarity" ∷ "media_fingerprint" ∷ "source_origin" ∷ "source_claim" ∷ []

-- `allowedOutcomes`.
abbrev pub is_allowed : String → String → Bool
is_allowed name outcome =
    str_eq outcome "repetition_risk"
    || str_eq outcome "unknown"
    || (if str_eq name "source_origin"
        then str_eq outcome "independence_support"
        else str_eq outcome "no_signal")

-- `delete(wanted, name)`.
unfoldable pub delete : String → List String → List String
delete name [] = []
delete name (w ∷ wanted) = if str_eq w name then wanted else w ∷ delete name wanted

unfoldable pub equal_strings : List String → List String → Bool
equal_strings [] [] = true
equal_strings (a ∷ left) (b ∷ right) = str_eq a b && equal_strings left right
equal_strings _ _ = false

module _ {F : Type 0} where
  -- The loop over the factors, with the names that are still wanted.
  unfoldable pub check_factors :
      List (Factor F) → List String → Summary → Result Error (List String × Summary)
  unfolding contains delete note
  check_factors [] wanted s = ok (wanted, s)
  check_factors (x ∷ factors) wanted s = do
    fail_if (not (contains wanted x.name)) unsupported_factor
    fail_if (not (is_allowed x.name x.outcome)) unsupported_outcome
    check_factors factors (delete x.name wanted) (note x s)

  abbrev pub or_failed : Option (Answer F) → Result Error (Answer F)
  or_failed none = err provider_failed
  or_failed (some a) = ok a

abbrev pub tokens_of : Observation → List String
tokens_of o = elim o.source_origin [
  | none ↦ o.media_fingerprints
  | some origin ↦ origin ∷ o.media_fingerprints
]

-- `privateValues`.
abbrev pub private_values : Input → List String
private_values input = tokens_of input.target ++ tokens_of input.related

unfoldable pub echoes : Json → List String → Bool
unfolding contains_string
echoes document [] = false
echoes document (value ∷ values) =
    (not (str_eq value "") && contains_string document value) || echoes document values

module _ {F : Type 0} ⦃f : Float F⦄ ⦃r : FloatArith F⦄ where
  abbrev pub check_summary : Assessment F → List String × Summary → Result Error (Unit {0})
  check_summary a (wanted, s) = do
    fail_if (not (is_empty wanted)) missing_factor
    fail_if (not (str_eq a.independence_state (state_of s))) state_mismatch
    fail_if
        (not (str_eq a.similarity_method "word_set_jaccard.v1")
          || not (f.eq a.near_duplicate_cutoff cutoff))
        method_mismatch
    fail_if
        (not (equal_strings a.supporting_reasons s.supporting)
          || not (equal_strings a.limiting_reasons s.limiting))
        reasons_mismatch

  -- `Validator.Validate` after the schema.
  unfoldable pub validate : Assessment F → Result Error (Unit {0})
  unfolding check_factors equal_strings
  validate a = check_factors a.factors required no_summary >>= λ found. check_summary a found

  -- `ValidateForInput`.
  unfoldable pub validate_for_input : Answer F → Input → Result Error (Answer F)
  unfolding validate echoes
  validate_for_input answer input = do
    validate answer.assessment
    fail_if (echoes answer.document (private_values input)) echoed
    ok answer

  -- `Processor.Assess`.
  unfoldable pub process : (Input → Option (Answer F)) → Input → Result Error (Answer F)
  unfolding validate_input validate_for_input
  process provider input = do
    validate_input input
    answer ← or_failed (provider input)
    validate_for_input answer input
