-- ===== src/Attachment/Best.antt =====
-- The candidate that `DecideAttachment` of internal/incidents/policy.go attaches a report to.
use signa.Attachment.{
  valid_candidates, add_scored, Scored, PolicyDecision, scored, attach, decide_sorted,
  AssessedCandidate, decide_attachment, bad_thresholds, finite_range, AttachmentError, is_unusable,
  sort_candidates,
}
use signa.Attachment.Sorting.{
  InRange, sort_candidates-Falling, sort_candidates-back, sort_candidates-All, Falling, NotBelow,
}
use signa.Prelude.{
  ◌≡◌, refl, ◌≢◌, ◌⊎◌, inl, inr, false, some, List, [], ◌∷◌, All, subst, if_case, option_case, not,
  ◌||◌, Option, none, arith, Bool-cases,
}
use signa.Prelude.Float.{Float, FloatLaws}
use signa.Prelude.Result.{Result, ok, err, ok_inj}

abbrev pub Member : {A : Type 0} → A → List A → Type 0
Member a [] = ⊥
Member a (x ∷ xs) = (x ≡ a) ⊎ Member a xs

All-Member-tail :
    {A : Type 0} (y : A) (P : A → Type 0) (xs : List A)
    → All P xs
    → ((x : A) → P x → (y ≡ x) ⊎ P x)
    → All (λ x. (y ≡ x) ⊎ P x) xs
All-Member-tail y P [] h g = tt
All-Member-tail y P (x ∷ xs) (p, h) g = (g x p, All-Member-tail y P xs h g)

All-Member : {A : Type 0} (xs : List A) → All (λ x. Member x xs) xs
All-Member [] = tt
All-Member (x ∷ xs) =
    (inl refl, All-Member-tail x (λ z. Member z xs) xs (All-Member xs) (λ z m. inr m))

module _ {F : Type 0} ⦃f : Float F⦄ (laws : FloatLaws F) where
  HasRange : Option (Scored F) → Type 0
  HasRange none = Unit
  HasRange (some c) = InRange laws c

  scored-HasRange : (c : AssessedCandidate F) → HasRange (scored c)
  unfolding HasRange
  scored-HasRange c =
      option_case HasRange c.similarity_score
        (λ score. elim (Bool-cases (is_unusable c score)) [
          | inl unusable ↦ rw unusable tt
          | inr usable ↦ rw usable (ground arith)
        ])
        tt

  add_scored-InRange :
      (o : Option (Scored F)) (rest : List (Scored F))
      → HasRange o
      → All (InRange laws) rest
      → All (InRange laws) (add_scored o rest)
  unfolding HasRange
  add_scored-InRange none rest _ h = h
  add_scored-InRange (some c) rest p h = (p, h)

  valid_candidates-InRange :
      (candidates : List (AssessedCandidate F)) → All (InRange laws) (valid_candidates candidates)
  unfolding valid_candidates
  valid_candidates-InRange [] = tt
  valid_candidates-InRange (c ∷ candidates) =
      add_scored-InRange (scored c) (valid_candidates candidates) (scored-HasRange c)
        (valid_candidates-InRange candidates)

  -- The candidate that a decision to attach names: the first of the sorted ones.
  Names : F → List (Scored F) → PolicyDecision F → Type 0
  Names threshold [] d = d.verdict ≢ attach
  Names threshold (best ∷ rest) d =
      d.verdict ≡ attach
      → (d.candidate_id ≡ best.id)
        × (d.score ≡ some best.score)
        × (f.lt best.score threshold ≡ false)

  decide_sorted-Names :
      (threshold margin : F) (cs : List (Scored F))
      → Names threshold cs (decide_sorted threshold margin cs)
  unfolding Names
  decide_sorted-Names threshold margin [] = λ e. absurd (cc)
  decide_sorted-Names threshold margin (best ∷ []) = elim (Bool-cases (f.lt best.score threshold)) [
    | inl below ↦ rw below (λ e. absurd (cc))
    | inr clears ↦ rw clears (λ e. (refl, refl, refl))
  ]
  decide_sorted-Names threshold margin (best ∷ (second ∷ rest)) =
      let value = f.minus best.score second.score in
      elim (Bool-cases (f.lt best.score threshold)) [
        | inl below ↦ rw below (λ e. absurd (cc))
        | inr clears ↦ rw clears (
            if_case
              (λ (d : PolicyDecision F).
                d.verdict ≡ attach
                → (d.candidate_id ≡ best.id) × (d.score ≡ some best.score) × (false ≡ false))
              (f.le value f.nought || f.lt value margin) (λ e. absurd (cc))
              (λ e. (refl, refl, refl)))
      ]

  rest_lem :
      (best : Scored F) (cs : List (Scored F))
      → All (NotBelow laws best) cs
      → All (λ c. (c ≡ best) ⊎ NotBelow laws best c) cs
  rest_lem best [] h = tt
  rest_lem best (c ∷ cs) (p, h) = (inr p, rest_lem best cs h)

  err-ok :
      {d : PolicyDecision F}
      → ¬ Path (Result AttachmentError (PolicyDecision F)) (err bad_thresholds) (ok d)
  err-ok h = cc

  first_of :
      (P : Scored F → Type 0) (threshold : F) (cs : List (Scored F)) (d : PolicyDecision F)
      → Falling laws cs
      → All P cs
      → Names threshold cs d
      → d.verdict ≡ attach
      → (best : Scored F) × P best
        × (d.candidate_id ≡ best.id)
        × (d.score ≡ some best.score)
        × (f.lt best.score threshold ≡ false)
        × All (λ c. (c ≡ best) ⊎ NotBelow laws best c) cs
  unfolding Names
  first_of P threshold [] d fall all names e = absurd (names e)
  first_of P threshold (best ∷ rest) d (above, fall) (p, all) names e =
      let (named, score, clears) = names e in
      (best, p, named, score, clears, (inl refl, rest_lem best rest above))

  -- A report attaches only to the best candidate: with float comparisons that are ordered as IEEE 754 says, a decision to attach names a candidate with an id, an assessment and a score between 0 and 1 that is not below the threshold, and no other such candidate scores higher.
  pub decide_attachment-best :
      (candidates : List (AssessedCandidate F)) (threshold margin : F) (d : PolicyDecision F)
      → decide_attachment candidates threshold margin ≡ ok d
      → d.verdict ≡ attach
      → (best : Scored F) × Member best (valid_candidates candidates)
        × (d.candidate_id ≡ best.id)
        × (d.score ≡ some best.score)
        × (f.lt best.score threshold ≡ false)
        × All (λ c. (c ≡ best) ⊎ NotBelow laws best c) (valid_candidates candidates)
  unfolding decide_attachment
  decide_attachment-best candidates threshold margin d e verdict =
      let cs = valid_candidates candidates in
      elim (Bool-cases (not (finite_range threshold) || not (finite_range margin))) [
        | inl bad ↦ absurd (err-ok (rw (decide_attachment, bad) at e))
        | inr good ↦
            let same : decide_sorted threshold margin (sort_candidates cs) ≡ d =
              ok_inj (rw (decide_attachment, good) at e) in
            let (best, member, named, score, clears, top) =
              first_of (λ c. Member c cs) threshold (sort_candidates cs) d
                (sort_candidates-Falling laws cs (valid_candidates-InRange candidates))
                (sort_candidates-All laws (λ c. Member c cs) cs (All-Member cs))
                (subst (Names threshold (sort_candidates cs)) same
                  (decide_sorted-Names threshold margin (sort_candidates cs)))
                verdict in
            (
              best,
              member,
              named,
              score,
              clears,
              sort_candidates-back laws (λ c. (c ≡ best) ⊎ NotBelow laws best c) cs top,
            )
      ]
