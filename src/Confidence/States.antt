-- ===== src/Confidence/States.antt =====
-- When an incident is disputed, and how far its effective count lifts its confidence.
use signa.Confidence.{
  Policy, Evidence, ConfidenceState, unverified, disputed, corroborated, state_of, is_contradiction,
  Tally, add_item, emerging, high_confidence, Severity, raise_severity, evaluate_with_coordination,
  add_contradiction, no_evidence, claimed, Outcome, add_seen, add_counts,
}
use signa.Confidence.Counts.{
  IsValid, add_all, tally, evaluate_iff, first_reports, evaluate-effective, effective,
}
use signa.Prelude.{
  ℕ, String, ◌≡◌, Bool, true, false, ◌||◌, List, [], ◌∷◌, arith, str_eq, ◌≤◌, refl, ◌≢◌, inl, inr,
  Option, none, some, Bool-cases,
}
use signa.Prelude.Int.{pos, ◌≤ℤ◌, ◌<ℤ◌, leb_ℤ}
use signa.Prelude.Result.{ok}

unfoldable pub any_contradiction : List Evidence → Bool
any_contradiction [] = false
any_contradiction (item ∷ evidence) = is_contradiction item || any_contradiction evidence

raise_severity-contradiction :
    (s : Option Severity) (t : Tally) → (raise_severity s t).contradiction ≡ t.contradiction
unfolding raise_severity
raise_severity-contradiction none t = refl
raise_severity-contradiction (some s) t = ground arith

add_counts-contradiction :
    (c : String) (t : Tally) (item : Evidence)
    → (add_counts c t item).contradiction ≡ t.contradiction
unfolding add_counts
add_counts-contradiction c t item = ground arith

add_contradiction_lem :
    (item : Evidence) (t : Tally)
    → str_eq (add_contradiction item t).contradiction "contradiction_signal"
      ≡ (is_contradiction item || str_eq t.contradiction "contradiction_signal")
unfolding add_contradiction
add_contradiction_lem item t = elim (Bool-cases (is_contradiction item)) [
  | inl y ↦ rw y refl
  | inr n ↦ rw n refl
]

add_item-contradiction :
    (c : String) (t : Tally) (item : Evidence)
    → str_eq (add_item c t item).contradiction "contradiction_signal"
      ≡ (is_contradiction item || str_eq t.contradiction "contradiction_signal")
add_item-contradiction c t item =
    let counted = add_counts c t item in
    unfold add_item in
    rw (
      raise_severity-contradiction (claimed item) (add_contradiction item (add_seen item counted)),
      add_contradiction_lem item (add_seen item counted),
      add_counts-contradiction c t item,
    )

add_all-contradiction :
    (c : String) (evidence : List Evidence) (t : Tally)
    → str_eq (add_all c t evidence).contradiction "contradiction_signal"
      ≡ (str_eq t.contradiction "contradiction_signal" || any_contradiction evidence)
unfolding add_all any_contradiction
add_all-contradiction c [] t = ground arith
add_all-contradiction c (item ∷ evidence) t =
    ground
      (arith, add_item-contradiction c t item, add_all-contradiction c evidence (add_item c t item))

-- What the state promises of the effective count `n`, given whether a contradiction was seen.
unfoldable pub Warranted : Policy → Bool → ℕ → ConfidenceState → Type 0
Warranted p true n state = state ≡ disputed
Warranted p false n disputed = ⊥
Warranted p false n high_confidence = p.high_min ≤ℤ pos n
Warranted p false n corroborated = (p.corroborated_min ≤ℤ pos n) × (pos n <ℤ p.high_min)
Warranted p false n emerging = (p.emerging_min ≤ℤ pos n) × (pos n <ℤ p.corroborated_min)
Warranted p false n unverified = pos n <ℤ p.emerging_min

state_of-Warranted :
    (p : Policy) (contradiction : String) (n : ℕ)
    → IsValid p
    → Warranted p (str_eq contradiction "contradiction_signal") n (state_of p contradiction n)
unfolding state_of Warranted
state_of-Warranted p contradiction n v =
    elim (Bool-cases (str_eq contradiction "contradiction_signal")) [
      | inl y ↦ rw y refl
      | inr free ↦ rw free (elim (Bool-cases (leb_ℤ p.high_min (pos n))) [
        | inl y ↦ rw y (ground arith)
        | inr below ↦ rw below (elim (Bool-cases (leb_ℤ p.corroborated_min (pos n))) [
          | inl y ↦ rw y (ground arith)
          | inr under ↦ rw under (elim (Bool-cases (leb_ℤ p.emerging_min (pos n))) [
            | inl y ↦ rw y (ground arith)
            | inr last ↦ rw last (ground arith)
          ])
        ])
      ])
    ]

module _ (p : Policy) (evidence : List Evidence) (c : String) {r : Outcome}
    (e : evaluate_with_coordination p evidence c ≡ ok r) where
  -- On success the incident is disputed exactly when the first report of some identifier signals a
  -- contradiction; otherwise its state is the highest whose threshold the effective count reaches.
  pub evaluate-Warranted :
      Warranted p
        (any_contradiction (first_reports [] evidence))
        r.effective_independent_count
        r.confidence_state
  evaluate-Warranted =
      let (v, _, same) = (evaluate_iff p evidence c r).0 e in
      let firsts = first_reports [] evidence in
      rw (← same, ← add_all-contradiction c firsts no_evidence)
        (state_of-Warranted p (tally c evidence).contradiction (tally c evidence).independent v)

effective-le : (evidence : List Evidence) → effective "possible_coordination" evidence ≤ 1
unfolding effective
effective-le [] = omega arith
effective-le (item ∷ evidence) = omega arith

Warranted-le :
    (p : Policy) (b : Bool) (n : ℕ) (state : ConfidenceState)
    → IsValid p
    → n ≤ 1
    → Warranted p b n state
    → (state ≢ corroborated) × (state ≢ high_confidence)
unfolding Warranted
Warranted-le p true n state v h w = rw w (λ e. cc, λ e. cc)
Warranted-le p false n disputed v h w = absurd w
Warranted-le p false n high_confidence v h w = absurd (omega arith)
Warranted-le p false n corroborated v h w = absurd (omega arith)
Warranted-le p false n emerging v h w = (λ e. cc, λ e. cc)
Warranted-le p false n unverified v h w = (λ e. cc, λ e. cc)

-- Reports that may be coordinated never corroborate an incident: on success under a coordination
-- signal the effective count is at most 1, and the state is unverified, emerging or disputed.
pub evaluate_coordinated :
    (p : Policy) (evidence : List Evidence) {r : Outcome}
    → evaluate_with_coordination p evidence "possible_coordination" ≡ ok r
    → (r.effective_independent_count ≤ 1)
      × (r.confidence_state ≢ corroborated)
      × (r.confidence_state ≢ high_confidence)
evaluate_coordinated p evidence {r} e =
    let (v, _, _) = (evaluate_iff p evidence "possible_coordination" r).0 e in
    let (count, _) = evaluate-effective p evidence "possible_coordination" e in
    let few : r.effective_independent_count ≤ 1 =
      rw count (effective-le (first_reports [] evidence)) in
    let (a, b) =
      Warranted-le p _ _ _ v few (evaluate-Warranted p evidence "possible_coordination" e) in
    (few, a, b)
