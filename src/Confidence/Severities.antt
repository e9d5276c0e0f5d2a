-- ===== src/Confidence/Severities.antt =====
-- The severity of an incident, against what its evidence claims.
use Prim.Native.Nat.{max}
use signa.Confidence.{
  Policy, Evidence, add_contradiction, rank, no_evidence, Severity, add_seen, add_counts, Tally,
  raise_severity, add_item, claimed, Outcome, evaluate_with_coordination,
}
use signa.Confidence.Counts.{first_reports, evaluate_iff, add_all}
use signa.Prelude.{ℕ, String, ◌≡◌, refl, ◌∙◌, Option, none, some, List, [], ◌∷◌, arith}
use signa.Prelude.Result.{ok}

unfoldable pub rank_of : Option Severity → ℕ
rank_of none = 0
rank_of (some s) = rank s

-- The highest rank that a report claims, or 0.
unfoldable pub highest : List Evidence → ℕ
highest [] = 0
highest (item ∷ evidence) = max (rank_of (claimed item)) (highest evidence)

raise_severity-rank :
    (s : Option Severity) (t : Tally)
    → (raise_severity s t).severity_rank ≡ max t.severity_rank (rank_of s)
unfolding raise_severity rank_of
raise_severity-rank none t = omega arith
raise_severity-rank (some s) t = ground arith

raise_severity-agrees :
    (s : Option Severity) (t : Tally)
    → t.severity_rank ≡ rank_of t.severity
    → (raise_severity s t).severity_rank ≡ rank_of (raise_severity s t).severity
unfolding raise_severity rank_of
raise_severity-agrees none t h = h
raise_severity-agrees (some s) t h = ground arith

-- The parts of the loop body before the last do not touch the severity.
before : String → Tally → Evidence → Tally
before c t item = add_contradiction item (add_seen item (add_counts c t item))

before_same :
    (c : String) (t : Tally) (item : Evidence)
    → ((before c t item).severity_rank ≡ t.severity_rank)
      × ((before c t item).severity ≡ t.severity)
unfolding before add_counts add_contradiction
before_same c t item = ground arith

add_item-severity :
    (c : String) (t : Tally) (item : Evidence)
    → t.severity_rank ≡ rank_of t.severity
    → ((add_item c t item).severity_rank ≡ max t.severity_rank (rank_of (claimed item)))
      × ((add_item c t item).severity_rank ≡ rank_of (add_item c t item).severity)
unfolding before
add_item-severity c t item h =
    let (k, s) = before_same c t item in
    unfold add_item in
    (
      raise_severity-rank (claimed item) (before c t item) ∙ rw k,
      raise_severity-agrees (claimed item) (before c t item) (rw (k, s) h),
    )

add_all-severity :
    (c : String) (evidence : List Evidence) (t : Tally)
    → t.severity_rank ≡ rank_of t.severity
    → rank_of (add_all c t evidence).severity ≡ max t.severity_rank (highest evidence)
unfolding add_all highest
add_all-severity c [] t h = omega arith
add_all-severity c (item ∷ evidence) t h =
    let (higher, agrees) = add_item-severity c t item h in
    add_all-severity c evidence (add_item c t item) agrees ∙ omega arith

-- On success the severity is the highest that the first report of an identifier claims, by rank, and
-- none if no report claims one.
pub evaluate-severity :
    (p : Policy) (evidence : List Evidence) (c : String) {r : Outcome}
    → evaluate_with_coordination p evidence c ≡ ok r
    → rank_of r.severity ≡ highest (first_reports [] evidence)
unfolding rank_of
evaluate-severity p evidence c {r} e =
    let (_, _, same) = (evaluate_iff p evidence c r).0 e in
    rw (← same) (omega (arith, add_all-severity c (first_reports [] evidence) no_evidence refl))
