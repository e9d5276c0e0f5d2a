-- ===== src/Independence/Agreement.antt =====
-- The evaluator of internal/ai/independence, against its validator.
-- A factor of this name with an outcome that the validator allows it.
use signa.Contradiction.{Field}
use signa.Independence.{
  Error, validate_input, echoed, Factor, Input, note, no_summary, Assessment, Summary, state_of,
}
use signa.Independence.Evaluator.{
  evaluate, compare_claims, is_dependent, assess, shares, compare_text, compare_words,
  identified_claim, compare_source_claim, assessment_of, summarize, cutoff, compare_media,
  compare_source_origin, judge_score,
}
use signa.Independence.Validator.{
  validate, is_allowed, private_values, process, required, Answer, check_summary, Json,
  equal_strings, validate_for_input, delete, check_factors, echoes,
}
use signa.Prelude.{
  ℕ, String, ◌≡◌, if_case, refl, inl, inr, Bool, true, ◌&&◌, ◌||◌, Option, none, some, List, [],
  ◌∷◌, str_eq, eq_refl, is_empty,
}
use signa.Prelude.Float.{Float, FloatArith}
use signa.Prelude.Result.{Result, ok, err, ◌>>=◌, fail_if, Result-cases, ◌>>◌}
use signa.Prelude.Text.{contains, is_blank}

abbrev IsAllowed : {F : Type 0} → String → Factor F → Type 0
IsAllowed name x = (x.name ≡ name) × (is_allowed name x.outcome ≡ true)

module _ (F : Type 0) where
  compare_media-IsAllowed :
      (l r : List String) → IsAllowed {F = F} "media_fingerprint" (compare_media l r)
  unfolding compare_media
  compare_media-IsAllowed l r =
      if_case (IsAllowed {F = F} "media_fingerprint") (is_empty l || is_empty r) (refl, refl)
        (if_case (IsAllowed {F = F} "media_fingerprint") (shares l r) (refl, refl) (refl, refl))

  compare_source_origin-IsAllowed :
      (l r : Option String) → IsAllowed {F = F} "source_origin" (compare_source_origin l r)
  unfolding compare_source_origin
  compare_source_origin-IsAllowed none r = (refl, refl)
  compare_source_origin-IsAllowed (some l) none = (refl, refl)
  compare_source_origin-IsAllowed (some l) (some r) =
      if_case (IsAllowed {F = F} "source_origin") (is_blank l || is_blank r) (refl, refl)
        (if_case (IsAllowed {F = F} "source_origin") (str_eq l r) (refl, refl) (refl, refl))

  compare_claims-IsAllowed :
      (l r : Option String) → IsAllowed {F = F} "source_claim" (compare_claims l r)
  compare_claims-IsAllowed none r = (refl, refl)
  compare_claims-IsAllowed (some l) none = (refl, refl)
  compare_claims-IsAllowed (some l) (some r) =
      if_case (IsAllowed {F = F} "source_claim") (str_eq l "first_hand" && str_eq r "first_hand")
        (refl, refl) (refl, refl)

  compare_source_claim-IsAllowed :
      (l r : Field) → IsAllowed {F = F} "source_claim" (compare_source_claim l r)
  unfolding compare_source_claim
  compare_source_claim-IsAllowed l r =
      if_case (IsAllowed {F = F} "source_claim")
        (is_dependent (identified_claim l) || is_dependent (identified_claim r)) (refl, refl)
        (compare_claims-IsAllowed (identified_claim l) (identified_claim r))

module _ {F : Type 0} where
  -- The loop finds the four factors and wants no further one.
  check_factors_lem :
      (t m o c : Factor F) (s : Summary)
      → IsAllowed "text_similarity" t
      → IsAllowed "media_fingerprint" m
      → IsAllowed {F = F} "source_origin" o
      → IsAllowed "source_claim" c
      → check_factors (t ∷ m ∷ o ∷ c ∷ []) required s ≡ ok ([], note c (note o (note m (note t s))))
  unfolding check_factors contains delete
  check_factors_lem t m o c s (tn, ta) (mn, ma) (on, oa) (cn, ca) =
      rw (tn, ta, mn, ma, on, oa, cn, ca) refl

equal_strings_refl : (l : List String) → equal_strings l l ≡ true
unfolding equal_strings
equal_strings_refl [] = refl
equal_strings_refl (a ∷ l) = rw (eq_refl a) (equal_strings_refl l)

module _ {F : Type 0} ⦃f : Float F⦄ ⦃r : FloatArith F⦄ where
  judge_score-IsAllowed : (score : F) → IsAllowed {F = F} "text_similarity" (judge_score score)
  judge_score-IsAllowed score =
      if_case (IsAllowed {F = F} "text_similarity") (f.eq score f.one) (refl, refl)
        (if_case (IsAllowed {F = F} "text_similarity") (f.le cutoff score) (refl, refl)
          (refl, refl))

module _ (F : Type 0) ⦃f : Float F⦄ ⦃r : FloatArith F⦄ where
  compare_words-IsAllowed :
      (l m : List (List ℕ)) → IsAllowed {F = F} "text_similarity" (compare_words {F = F} l m)
  unfolding compare_words
  compare_words-IsAllowed l m =
      if_case (IsAllowed {F = F} "text_similarity") (is_empty l || is_empty m) (refl, refl)
        (judge_score-IsAllowed {F = F} _)

module _ {F : Type 0} ⦃f : Float F⦄ ⦃r : FloatArith F⦄ where
  check_summary_lem :
      (factors : List (Factor F)) (s : Summary)
      → f.eq cutoff cutoff ≡ true
      → check_summary (assessment_of factors s) ([], s) ≡ ok tt
  check_summary_lem factors s same =
      rw
        (eq_refl (state_of s), same, equal_strings_refl s.supporting, equal_strings_refl s.limiting)
        refl

module _ (F : Type 0) ⦃f : Float F⦄ ⦃r : FloatArith F⦄ where
  module _ (is_word_char : ℕ → Bool) (to_lower : List ℕ → List ℕ)
      (same : f.eq cutoff cutoff ≡ true) where
    pub assess-validated :
        (input : Input) → validate {F = F} (assess is_word_char to_lower input) ≡ ok tt
    unfolding validate summarize
    assess-validated input =
        let t = compare_text is_word_char to_lower (input.target).text (input.related).text in
        let m =
          compare_media {F = F} (input.target).media_fingerprints
            (input.related).media_fingerprints in
        let o =
          compare_source_origin {F = F} (input.target).source_origin
            (input.related).source_origin in
        let c =
          compare_source_claim {F = F} (input.target).source_claim (input.related).source_claim in
        rw
          (check_factors_lem t m o c no_summary (compare_words-IsAllowed F _ _)
            (compare_media-IsAllowed F _ _) (compare_source_origin-IsAllowed F _ _)
            (compare_source_claim-IsAllowed F _ _))
          (check_summary_lem (t ∷ m ∷ o ∷ c ∷ []) (note c (note o (note m (note t no_summary))))
            same)

    module _ (encode : Assessment F → Json) where
      abbrev pub answer_of : Result Error (Assessment F) → Option (Answer F)
      answer_of (ok a) = some (record { document = encode a; assessment = a })
      answer_of (err e) = none

      -- The evaluator as the provider.
      abbrev pub provider : Input → Option (Answer F)
      provider input = answer_of (evaluate is_word_char to_lower input)

      abbrev pub refuse_echo : Input → Assessment F → Result Error (Answer F)
      refuse_echo input a = do
        fail_if (echoes (encode a) (private_values input)) echoed
        ok (record { document = encode a; assessment = a })

      -- With the rule-based evaluator as its provider, decoded as it was encoded, the processor refuses the same inputs with the same error, and accepts every other assessment but one whose document contains an origin or a media fingerprint of the input; the cutoff, a float that is not NaN, must equal itself.
      pub process-refuse_echo :
          (input : Input)
          → process provider input ≡ evaluate is_word_char to_lower input >>= refuse_echo input
      unfolding process evaluate validate_for_input
      process-refuse_echo input = elim (Result-cases (validate_input input)) [
        | inl (tt, valid) ↦ rw (valid, assess-validated input) refl
        | inr (e, refused) ↦ rw refused refl
      ]
