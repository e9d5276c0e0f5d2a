-- ===== src/Independence/Tests.antt =====
-- Two observations of one flood, for internal/ai/independence.
use signa.Contradiction.{Field}
use signa.Independence.{note, Observation, Assessment, Input, validate_input}
use signa.Independence.Agreement.{provider}
use signa.Independence.Evaluator.{
  evaluate, compare_source_claim, intersection, words_from, assess, cutoff, compare_media,
  compare_source_origin, shares, has_word, compare_words, summarize,
}
use signa.Independence.Secrecy.{process-Holds, in_array, first, in_object, here}
use signa.Independence.Validator.{
  validate, cons, process, equal_strings, nil, Items, validate_for_input, Answer, object,
  contains_string, Json, check_factors, echoes, private_values, text_contains, delete, string_value,
  array,
}
use signa.Prelude.{ℕ, String, ◌≡◌, refl, Bool, true, false, ◌&&◌, Option, some, List, [], ◌∷◌, leb}
use signa.Prelude.Float.{whole_numbers, whole_arith}
use signa.Prelude.Int.{ℤ}
use signa.Prelude.Result.{ok}
use signa.Prelude.Text.{contains_codes, contains, is_blank, trim_space, equal_codes}

abbrev claim : String → Field
claim value = record {
  status = "identified";
  value = some value;
  candidates = [];
  evidence_quotes = "quote" ∷ [];
}

abbrev observation : String → String → String → Observation
observation id words origin = record {
  evidence_id = id;
  text = words;
  source_claim = claim "first_hand";
  source_origin = some origin;
  media_fingerprints = "fp-1" ∷ [];
}

abbrev two_floods : Input
two_floods = record {
  target = observation "a" "road under water" "origin-1";
  related = observation "b" "water on the road" "origin-2";
}

abbrev is_letter : ℕ → Bool
is_letter c = leb 97 c && leb c 122

-- The texts of an assessment that could name a token.
abbrev reasons : List String → Items
reasons [] = nil
reasons (s ∷ texts) = cons (string_value s) (reasons texts)

abbrev document : Assessment ℤ → Json
document a =
    object
      (cons (array (reasons a.supporting_reasons)) (cons (array (reasons a.limiting_reasons)) nil))

same_cutoff : whole_numbers.eq (cutoff {F = ℤ}) cutoff ≡ true
same_cutoff = refl

abbrev rules : Input → Option (Answer ℤ)
rules = provider ℤ is_letter (λ s. s) same_cutoff document

abbrev assessed : Assessment ℤ
assessed = assess is_letter (λ s. s) two_floods

assessed-mixed_signals : assessed.independence_state ≡ "mixed_signals"
unfolding words_from has_word equal_codes compare_words intersection compare_media shares contains
    compare_source_origin is_blank trim_space compare_source_claim summarize note
assessed-mixed_signals = refl

abbrev answer : Answer ℤ
answer = record { document = document assessed; assessment = assessed }

answer-accepted : process rules two_floods ≡ ok answer
unfolding process validate_input words_from has_word equal_codes compare_words intersection
    compare_media shares contains compare_source_origin is_blank trim_space compare_source_claim
    summarize note evaluate validate_for_input validate check_factors delete equal_strings echoes
    contains_string text_contains contains_codes
answer-accepted = refl

origin-named : contains (private_values two_floods) "origin-1" ≡ true
unfolding contains
origin-named = refl

process-Holds_example :
    text_contains "source_origin: observations have distinct opaque source origins" "origin-1"
    ≡ false
unfolding summarize compare_source_claim compare_source_origin is_blank compare_media compare_words
    words_from has_word intersection
process-Holds_example =
    process-Holds rules two_floods answer "origin-1"
      "source_origin: observations have distinct opaque source origins" answer-accepted origin-named
      refl (in_object (first (in_array (first (here _)))))
