-- ===== src/Attachment.antt =====
-- internal/incidents/policy.go: whether a report attaches to an incident that is known. The scores are
-- an abstract `float64`.
pub mod Sorting
pub mod Best
pub mod Tests
use signa.Prelude.{
  String, Bool, not, ◌&&◌, ◌||◌, Option, none, some, List, [], ◌∷◌, if◌then◌else◌, str_eq,
}
use signa.Prelude.Float.{Float}
use signa.Prelude.Result.{Result, ok, err}

pub data Verdict : Type 0 where
  create attach : Verdict

-- `AssessedCandidate`, with the two fields of its assessment that the policy reads.
pub record AssessedCandidate (F : Type 0) : Type 0 where
  pub id : String
  pub similarity_state : String
  pub similarity_score : Option F

pub record PolicyDecision (F : Type 0) : Type 0 where
  pub verdict : Verdict
  pub candidate_id : String
  pub score : Option F
  pub winner_margin : Option F
  pub reason : String

pub data AttachmentError : Type 0 where
  bad_thresholds : AttachmentError

-- A candidate of `valid`: its id and its score.
pub record Scored (F : Type 0) : Type 0 where
  pub id : String
  pub score : F

module _ {F : Type 0} ⦃f : Float F⦄ where
  -- `finiteRange`.
  unfoldable pub finite_range : F → Bool
  finite_range v = not (f.is_nan v) && not (f.is_inf v) && f.le f.nought v && f.le v f.one

  -- The tests that skip a candidate whose score is set.
  abbrev pub is_unusable : AssessedCandidate F → F → Bool
  is_unusable c score =
      str_eq c.id "" || not (str_eq c.similarity_state "assessed") || not (finite_range score)

  abbrev pub scored : AssessedCandidate F → Option (Scored F)
  scored c = elim c.similarity_score [
    | none ↦ none
    | some score ↦ if is_unusable c score then none else some (record { id = c.id; score = score })
  ]

  abbrev pub add_scored : Option (Scored F) → List (Scored F) → List (Scored F)
  add_scored none rest = rest
  add_scored (some c) rest = c ∷ rest

  -- The loop that collects `valid`.
  unfoldable pub valid_candidates : List (AssessedCandidate F) → List (Scored F)
  unfolding finite_range
  valid_candidates [] = []
  valid_candidates (c ∷ candidates) = add_scored (scored c) (valid_candidates candidates)

  -- The inner loop, which moves a candidate up past those with a lower score; the part that is sorted
  -- already is kept with its last candidate first.
  unfoldable pub sink : Scored F → List (Scored F) → List (Scored F)
  sink c [] = c ∷ []
  sink c (d ∷ before) =
      let moved = sink c before in if f.lt d.score c.score then d ∷ moved else c ∷ (d ∷ before)

  -- The outer loop.
  unfoldable pub sort_from : List (Scored F) → List (Scored F) → List (Scored F)
  unfolding sink
  sort_from sorted [] = sorted
  sort_from sorted (c ∷ rest) = sort_from (sink c sorted) rest

  -- The slice in its own order again, after the reversed part acc.
  unfoldable pub flip_onto : List (Scored F) → List (Scored F) → List (Scored F)
  flip_onto acc [] = acc
  flip_onto acc (c ∷ before) = flip_onto (c ∷ acc) before

  unfoldable pub sort_candidates : List (Scored F) → List (Scored F)
  unfolding sort_from flip_onto
  sort_candidates candidates = flip_onto [] (sort_from [] candidates)

  abbrev pub create_below : F → PolicyDecision F
  create_below score = record {
    verdict = create;
    candidate_id = "";
    score = some score;
    winner_margin = none;
    reason = "best similarity score is below threshold";
  }

  abbrev pub judge_margin : Scored F → F → F → PolicyDecision F
  judge_margin best value margin =
      if f.le value f.nought || f.lt value margin
      then record {
        verdict = create;
        candidate_id = "";
        score = some best.score;
        winner_margin = some value;
        reason = "best candidate does not clear the winner margin";
      }
      else record {
        verdict = attach;
        candidate_id = best.id;
        score = some best.score;
        winner_margin = some value;
        reason = "best candidate clears threshold and winner margin";
      }

  -- The decision on the sorted candidates.
  abbrev pub decide_sorted : F → F → List (Scored F) → PolicyDecision F
  decide_sorted threshold margin [] = record {
    verdict = create;
    candidate_id = "";
    score = none;
    winner_margin = none;
    reason = "no candidate had an assessed similarity score";
  }
  decide_sorted threshold margin (best ∷ []) =
      if f.lt best.score threshold then create_below best.score else record {
        verdict = attach;
        candidate_id = best.id;
        score = some best.score;
        winner_margin = none;
        reason = "only scored candidate clears threshold";
      }
  decide_sorted threshold margin (best ∷ (second ∷ _)) =
      if f.lt best.score threshold
      then create_below best.score
      else judge_margin best (f.minus best.score second.score) margin

  -- `DecideAttachment`.
  unfoldable pub decide_attachment :
      List (AssessedCandidate F) → F → F → Result AttachmentError (PolicyDecision F)
  unfolding valid_candidates sort_candidates finite_range
  decide_attachment candidates threshold margin =
      if not (finite_range threshold) || not (finite_range margin)
      then err bad_thresholds
      else ok (decide_sorted threshold margin (sort_candidates (valid_candidates candidates)))
