-- ===== src/Contradiction.antt =====
-- internal/ai/contradiction (contradiction.go and validator.go), with the check of a location reference
-- from internal/ai/location/contract.go: whether two reports contradict each other. An assessment is
-- taken after decoding and after the JSON schema; `strings.EqualFold` is a parameter.
pub mod Evaluator
pub mod Validator
pub mod Agreement
pub mod Symmetry
pub mod Tests
-- `extraction.Field`.
use signa.Prelude.{
  String, Bool, true, false, not, ◌||◌, Option, none, some, List, [], ◌∷◌, ltb, if◌then◌else◌,
  str_eq, is_some, length, is_empty,
}
use signa.Prelude.Result.{Result, fail_if, ◌>>=◌, ◌>>◌}
use signa.Prelude.Text.{is_blank, codes, trim_space, equal_codes}
use signa.Prelude.Time.{Time}

pub record Field : Type 0 where
  pub status : String
  pub value : Option String
  pub candidates : List String
  pub evidence_quotes : List String

-- `location.Normalization`; of a candidate, its normalized text.
pub record Normalization : Type 0 where
  pub location_state : String
  pub source_location_reference : Field
  pub candidates : List String

pub record Claim : Type 0 where
  pub subject : String
  pub state : String
  pub evidence_quote : String

pub record Evidence : Type 0 where
  pub id : String
  pub event_type : Field
  pub location : Normalization
  pub claim : Claim
  pub observed_at : Option Time

pub record Factor : Type 0 where
  pub name : String
  pub outcome : String
  pub reason : String

pub record Assessment : Type 0 where
  pub left_evidence_id : String
  pub right_evidence_id : String
  pub contradiction_state : String
  pub recency_order : String
  pub factors : List Factor

pub data Error : Type 0 where
  blank_id unsupported_event_status bad_event_type unsupported_location_state : Error
  location_mismatch bad_location_reference bad_location unsupported_subject : Error
  unsupported_claim_state blank_quote same_id : Error
  unsupported_factor unsupported_outcome missing_factor claim_not_comparable : Error
  state_mismatch id_mismatch recency_mismatch provider_failed : Error

abbrev pub has_text : Option String → Bool
has_text none = false
has_text (some value) = not (is_blank value)

abbrev pub is_known_status : String → Bool
is_known_status s = str_eq s "identified" || str_eq s "ambiguous" || str_eq s "unknown"

abbrev pub bad_event : Field → Bool
bad_event e =
    if str_eq e.status "identified"
    then not (has_text e.value) || not (is_empty e.candidates)
    else if str_eq e.status "ambiguous"
    then is_some e.value || ltb (length e.candidates) 2
    else is_some e.value || not (is_empty e.candidates)

-- `location.ValidateLocationReference` fails.
abbrev pub bad_reference : Field → Bool
bad_reference r =
    if str_eq r.status "identified"
    then not (has_text r.value) || not (is_empty r.candidates) || is_empty r.evidence_quotes
    else if str_eq r.status "ambiguous"
    then is_some r.value || ltb (length r.candidates) 2 || is_empty r.evidence_quotes
    else if str_eq r.status "unknown"
    then is_some r.value || not (is_empty r.candidates) || not (is_empty r.evidence_quotes)
    else true

abbrev pub one_text : List String → Bool
one_text (c ∷ []) = not (is_blank c)
one_text _ = false

abbrev pub bad_location_candidates : Normalization → Bool
bad_location_candidates l =
    if str_eq l.location_state "identified"
    then not (one_text l.candidates)
    else if str_eq l.location_state "ambiguous"
    then ltb (length l.candidates) 2
    else not (is_empty l.candidates)

abbrev pub is_supported_claim : Claim → Bool
is_supported_claim c =
    if str_eq c.subject "passage"
    then str_eq c.state "blocked" || str_eq c.state "open"
    else str_eq c.state "ongoing" || str_eq c.state "stopped"

-- `ValidateInput`.
unfoldable pub validate_input : Evidence → Result Error (Unit {0})
unfolding is_blank
validate_input input = do
  fail_if (is_blank input.id) blank_id
  fail_if (not (is_known_status (input.event_type).status)) unsupported_event_status
  fail_if (bad_event input.event_type) bad_event_type
  let place = input.location
  fail_if (not (is_known_status place.location_state)) unsupported_location_state
  fail_if (not (str_eq place.location_state (place.source_location_reference).status))
      location_mismatch
  fail_if (bad_reference place.source_location_reference) bad_location_reference
  fail_if (bad_location_candidates place) bad_location
  let claim = input.claim
  fail_if (not (str_eq claim.subject "passage" || str_eq claim.subject "activity"))
      unsupported_subject
  fail_if (not (is_supported_claim claim)) unsupported_claim_state
  fail_if (is_blank claim.evidence_quote) blank_quote

abbrev pub same_trimmed : String → String → Bool
same_trimmed a b = equal_codes (trim_space (codes a)) (trim_space (codes b))

-- `validatePair`.
unfoldable pub validate_pair : Evidence → Evidence → Result Error (Unit {0})
unfolding validate_input trim_space equal_codes
validate_pair left right = do
  validate_input left
  validate_input right
  fail_if (same_trimmed left.id right.id) same_id
