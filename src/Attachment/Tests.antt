-- ===== src/Attachment/Tests.antt =====
-- The attachment policy of internal/incidents/policy.go on whole numbers, with scores 0 and 1.
use signa.Attachment.{
  attach, Scored, decide_attachment, PolicyDecision, sort_candidates, sort_from, valid_candidates,
  flip_onto, finite_range, AssessedCandidate, sink,
}
use signa.Attachment.Best.{Member, decide_attachment-best}
use signa.Attachment.Sorting.{NotBelow}
use signa.Prelude.{String, ◌≡◌, refl, ◌⊎◌, false, some, List, [], ◌∷◌, All}
use signa.Prelude.Float.{whole_numbers, whole_numbers-FloatLaws}
use signa.Prelude.Int.{ℤ, pos, ◌-ℤ◌, ltb_ℤ}
use signa.Prelude.Result.{ok}

abbrev candidate : String → ℤ → AssessedCandidate ℤ
candidate id score = record {
  id = id;
  similarity_state = "assessed";
  similarity_score = some score;
}

abbrev two_candidates : List (AssessedCandidate ℤ)
two_candidates = candidate "low" (pos 0) ∷ candidate "high" (pos 1) ∷ []

abbrev attached : PolicyDecision ℤ
attached = record {
  verdict = attach;
  candidate_id = "high";
  score = some (pos 1);
  winner_margin = some (pos 1);
  reason = "best candidate clears threshold and winner margin";
}

two-decided : decide_attachment two_candidates (pos 1) (pos 1) ≡ ok attached
unfolding decide_attachment valid_candidates sort_candidates sort_from sink flip_onto finite_range
    ◌-ℤ◌
two-decided = refl

decide_attachment-best_example :
    (best : Scored ℤ) × Member best (valid_candidates two_candidates)
    × ("high" ≡ best.id)
    × (some (pos 1) ≡ some best.score)
    × (ltb_ℤ best.score (pos 1) ≡ false)
    × All
        (λ c. (c ≡ best) ⊎ NotBelow whole_numbers-FloatLaws best c)
        (valid_candidates two_candidates)
decide_attachment-best_example =
    decide_attachment-best whole_numbers-FloatLaws two_candidates (pos 1) (pos 1) attached
      two-decided refl
