-- ===== src/Independence/Evaluator.antt =====
-- The rule-based evaluator of internal/ai/independence/independence.go.
-- `_, ok := words[word]`.
use signa.Contradiction.{Field}
use signa.Independence.{
  Assessment, note, Factor, Error, scored, no_summary, validate_input, Observation, Summary,
  unknown, Input, plain, state_of,
}
use signa.Prelude.{
  ℕ, ◌+◌, ◌-◌, String, Bool, false, not, ◌&&◌, ◌||◌, Option, none, some, List, [], ◌∷◌, ◌++◌,
  if◌then◌else◌, str_eq, length, is_empty,
}
use signa.Prelude.Float.{Float, FloatArith}
use signa.Prelude.Result.{Result, ok, ◌>>◌}
use signa.Prelude.Text.{contains, is_blank, codes, equal_codes}

unfoldable pub has_word : List (List ℕ) → List ℕ → Bool
unfolding equal_codes
has_word [] word = false
has_word (w ∷ words) word = equal_codes w word || has_word words word

abbrev pub add_word : List (List ℕ) → List ℕ → List (List ℕ)
add_word words word = if has_word words word then words else words ++ (word ∷ [])

-- The loop over the words of the left text.
unfoldable pub intersection : List (List ℕ) → List (List ℕ) → ℕ
unfolding has_word
intersection [] right = 0
intersection (w ∷ left) right = (if has_word right w then 1 else 0) + intersection left right

-- `compareMedia`: one of the left fingerprints is among the right ones.
unfoldable pub shares : List String → List String → Bool
unfolding contains
shares [] right = false
shares (a ∷ left) right = (not (str_eq a "") && contains right a) || shares left right

-- The value of a claim that `identifiedClaim` accepts.
abbrev pub identified_claim : Field → Option String
identified_claim field = if str_eq field.status "identified" then field.value else none

abbrev pub is_dependent_claim : String → Bool
is_dependent_claim value = str_eq value "second_hand" || str_eq value "forwarded"

abbrev pub is_dependent : Option String → Bool
is_dependent none = false
is_dependent (some value) = is_dependent_claim value

-- `is_word_char` is a letter or a number of Unicode, `to_lower` is `strings.ToLower`.
module _ (is_word_char : ℕ → Bool) (to_lower : List ℕ → List ℕ) where
  -- `flush`.
  abbrev pub flush : List ℕ → List (List ℕ) → List (List ℕ)
  flush [] words = words
  flush (c ∷ word) words = add_word words (to_lower (c ∷ word))

  -- The loop of `wordSet`: the characters left, the word that is read and the words found.
  unfoldable pub words_from : List ℕ → List ℕ → List (List ℕ) → List (List ℕ)
  words_from [] word words = flush word words
  words_from (c ∷ s) word words =
      words_from s (if is_word_char c then word ++ (c ∷ []) else [])
        (if is_word_char c then words else flush word words)

  -- `wordSet`.
  abbrev pub word_set : String → List (List ℕ)
  word_set value = words_from (codes value) [] []

module _ {F : Type 0} where
  -- `compareMedia`.
  unfoldable pub compare_media : List String → List String → Factor F
  unfolding shares
  compare_media left right =
      if is_empty left || is_empty right
      then unknown "media_fingerprint" "media fingerprints are missing for one or both observations"
      else if shares left right
      then plain "media_fingerprint" "repetition_risk" "an opaque media fingerprint is shared"
      else plain "media_fingerprint" "no_signal"
          "supplied media fingerprints differ; different media does not establish independent origin"

  abbrev pub no_origin : Factor F
  no_origin = unknown "source_origin" "opaque source-origin evidence is missing"

  -- `compareSourceOrigin`.
  unfoldable pub compare_source_origin : Option String → Option String → Factor F
  compare_source_origin (some left) (some right) =
      if is_blank left || is_blank right
      then no_origin
      else if str_eq left right
      then plain "source_origin" "repetition_risk"
          "both observations have the same opaque source origin"
      else plain "source_origin" "independence_support"
          "observations have distinct opaque source origins"
  compare_source_origin _ _ = no_origin

  abbrev pub compare_claims : Option String → Option String → Factor F
  compare_claims (some left) (some right) =
      if str_eq left "first_hand" && str_eq right "first_hand"
      then plain "source_claim" "no_signal"
          "both claims are first-hand; this alone does not establish independent sources"
      else plain "source_claim" "unknown"
          "source claims do not establish whether the observations share an origin"
  compare_claims _ _ = unknown "source_claim" "one or both source claims are unknown or ambiguous"

  -- `compareSourceClaim`.
  unfoldable pub compare_source_claim : Field → Field → Factor F
  compare_source_claim left right =
      if is_dependent (identified_claim left) || is_dependent (identified_claim right)
      then plain "source_claim" "repetition_risk"
          "at least one observation is identified as second-hand or forwarded"
      else compare_claims (identified_claim left) (identified_claim right)

module _ {F : Type 0} ⦃f : Float F⦄ ⦃r : FloatArith F⦄ where
  abbrev pub cutoff : F
  cutoff = r.decimal 8 1

  abbrev pub trillion : F
  trillion = r.decimal 1_000_000_000_000 0

  -- `math.Round(float64(intersection)/float64(union)*1e12) / 1e12`.
  abbrev pub jaccard : ℕ → ℕ → F
  jaccard shared union =
      r.div (r.round (r.mul (r.div (r.of_nat shared) (r.of_nat union)) trillion)) trillion

  abbrev pub judge_score : F → Factor F
  judge_score score =
      if f.eq score f.one
      then scored "text_similarity" "repetition_risk" score "normalized word sets are identical"
      else if f.le cutoff score
      then scored "text_similarity" "repetition_risk" score
          "word-set Jaccard similarity meets the versioned near-duplicate cutoff"
      else scored "text_similarity" "no_signal" score
          "word-set similarity is below the near-duplicate cutoff; dissimilar wording alone does not establish independence"

  -- `compareText`, of the two word sets.
  unfoldable pub compare_words : List (List ℕ) → List (List ℕ) → Factor F
  compare_words left right =
      let shared = intersection left right in
      if is_empty left || is_empty right
      then unknown "text_similarity" "one or both evidence texts are missing"
      else judge_score (jaccard shared (length left + length right - shared))

  -- The loop over the factors.
  unfoldable pub summarize : List (Factor F) → Summary → Summary
  unfolding note
  summarize [] s = s
  summarize (x ∷ factors) s = summarize factors (note x s)

  abbrev pub assessment_of : List (Factor F) → Summary → Assessment F
  assessment_of factors s = record {
    contract_version = "signa.ai.evidence-independence.v1";
    input_contract_version = "signa.ai.report-extraction.v0";
    independence_state = state_of s;
    similarity_method = "word_set_jaccard.v1";
    near_duplicate_cutoff = cutoff;
    factors = factors;
    supporting_reasons = s.supporting;
    limiting_reasons = s.limiting;
  }

  module _ (is_word_char : ℕ → Bool) (to_lower : List ℕ → List ℕ) where
    abbrev pub compare_text : String → String → Factor F
    compare_text left right =
        compare_words (word_set is_word_char to_lower left) (word_set is_word_char to_lower right)

    abbrev pub factors_of : Observation → Observation → List (Factor F)
    factors_of target related =
        compare_text target.text related.text
        ∷ compare_media target.media_fingerprints related.media_fingerprints
        ∷ compare_source_origin target.source_origin related.source_origin
        ∷ compare_source_claim target.source_claim related.source_claim
        ∷ []

    abbrev pub assess : Input → Assessment F
    assess input =
        let factors = factors_of input.target input.related in
        assessment_of factors (summarize factors no_summary)

    -- `RuleBasedEvaluator.Assess`, before its result is encoded.
    unfoldable pub evaluate : Input → Result Error (Assessment F)
    unfolding validate_input words_from compare_words compare_media compare_source_origin
        compare_source_claim summarize
    evaluate input = do validate_input input; ok (assess input)
