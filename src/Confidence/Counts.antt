-- ===== src/Confidence/Counts.antt =====
-- The two counters of the confidence policy, and what a repeated identifier changes.
-- The reports that count: of those with one identifier the first, unless it is in `seen`.
use signa.Confidence.{
  add_item, gather, Tally, Evidence, no_evidence, Outcome, evaluate_with_coordination, outcome,
  validate, is_supported, Policy,
}
use signa.Prelude.{
  String, ◌≡◌, refl, inl, inr, false, List, [], ◌∷◌, arith, if◌then◌else◌, str_eq, Bool-cases, All,
  ℕ, suc, ◌+◌, ◌↔◌, Bool, is_empty, sym, ◌∙◌, ◌≤◌, length,
}
use signa.Prelude.Int.{pos, ◌<ℤ◌}
use signa.Prelude.Result.{ok, ok_inj, >>=-eq-ok}
use signa.Prelude.Text.{contains}

unfoldable pub first_reports : List String → List Evidence → List Evidence
first_reports seen [] = []
first_reports seen (item ∷ evidence) =
    let later = first_reports (item.id ∷ seen) evidence in
    if contains seen item.id then first_reports seen evidence else item ∷ later

unfoldable pub add_all : String → Tally → List Evidence → Tally
add_all c t [] = t
add_all c t (item ∷ evidence) = add_all c (add_item c t item) evidence

-- Every report has an identifier.
abbrev pub HasIds : List Evidence → Type 0
HasIds = All (λ (item : Evidence). str_eq item.id "" ≡ false)

add_item-seen :
    (c : String) (t : Tally) (item : Evidence) → (add_item c t item).seen ≡ item.id ∷ t.seen
unfolding add_item
add_item-seen c t item = ground arith

gather-eq-add_all :
    (c : String) (evidence : List Evidence) (t : Tally)
    → HasIds evidence
    → gather c evidence t ≡ ok (add_all c t (first_reports t.seen evidence))
unfolding gather add_all first_reports
gather-eq-add_all c [] t h = refl
gather-eq-add_all c (item ∷ evidence) t h = elim (Bool-cases (contains t.seen item.id)) [
  | inl old ↦ rw (h.0, old) (gather-eq-add_all c evidence t h.1)
  | inr new ↦
      rw (h.0, new)
        (rw (← add_item-seen c t item) (gather-eq-add_all c evidence (add_item c t item) h.1))
]

gather-HasIds :
    (c : String) (evidence : List Evidence) (t : Tally) {t' : Tally}
    → gather c evidence t ≡ ok t'
    → HasIds evidence
unfolding gather
gather-HasIds c [] t {t'} e = tt
gather-HasIds c (item ∷ evidence) t {t'} e = elim (Bool-cases (str_eq item.id "")) [
  | inl empty ↦ absurd (ground arith)
  | inr named ↦ (
    named,
    gather-HasIds c evidence (if contains t.seen item.id then t else add_item c t item) {t' = t'}
        (ground arith),
  )
]

pub record IsValid (p : Policy) : Type 0 where
  pub positive : pos 0 <ℤ p.emerging_min
  pub emerging_lt : p.emerging_min <ℤ p.corroborated_min
  pub corroborated_lt : p.corroborated_min <ℤ p.high_min

pub validate-IsValid : (p : Policy) → validate p ≡ ok tt → IsValid p
unfolding validate
validate-IsValid p e = ground arith

pub IsValid-validate : (p : Policy) → IsValid p → validate p ≡ ok tt
unfolding validate
IsValid-validate p v = ground arith

-- The tally of a whole evaluation.
abbrev pub tally : String → List Evidence → Tally
tally c evidence = add_all c no_evidence (first_reports [] evidence)

-- The outcome that is read off the first reports of each identifier, but for the number of attached reports,
-- which is that of all of them.
abbrev pub first_outcome : Policy → List Evidence → String → Outcome
first_outcome p evidence c = record (outcome p (first_reports [] evidence) c (tally c evidence)) {
  attached_report_count = length evidence;
}

-- The evaluation succeeds exactly when the thresholds are positive and strictly increasing and every report has an identifier, and then its outcome is read off the first reports of each identifier alone, but for the number of attached reports, which counts every report, repeated ones included.
pub evaluate_iff :
    (p : Policy) (evidence : List Evidence) (c : String) (r : Outcome)
    → (evaluate_with_coordination p evidence c ≡ ok r)
      ↔ (IsValid p × HasIds evidence × (first_outcome p evidence c ≡ r))
unfolding evaluate_with_coordination
evaluate_iff p evidence c r = (
  λ e.
      let (_, v, e1) = >>=-eq-ok (validate p) _ e in
      let (t, g, e2) = >>=-eq-ok (gather c evidence no_evidence) _ e1 in
      let ids = gather-HasIds c evidence no_evidence g in
      let same : t ≡ tally c evidence =
        ok_inj (sym g ∙ gather-eq-add_all c evidence no_evidence ids) in
      (validate-IsValid p v, ids, rw (← same) (ok_inj e2)),
  λ (v, ids, e). rw (IsValid-validate p v, gather-eq-add_all c evidence no_evidence ids, e),
)

unfoldable pub count_if : (Evidence → Bool) → List Evidence → ℕ
count_if test [] = 0
count_if test (item ∷ evidence) =
    if test item then suc (count_if test evidence) else count_if test evidence

abbrev pub is_coordinated : String → Bool
is_coordinated c = str_eq c "possible_coordination"

add_item-independent :
    (c : String) (t : Tally) (item : Evidence)
    → (add_item c t item).independent ≡ (
        if is_empty t.seen
        then t.independent + 1
        else if is_coordinated c
        then t.independent
        else if is_supported item
        then t.independent + 1
        else t.independent)
unfolding add_item
add_item-independent c t item = ground arith

add_all-independent :
    (c : String) (evidence : List Evidence) (t : Tally)
    → is_empty t.seen ≡ false
    → (add_all c t evidence).independent
      ≡ t.independent + (if is_coordinated c then 0 else count_if is_supported evidence)
unfolding add_all count_if
add_all-independent c [] t h = ground arith
add_all-independent c (item ∷ evidence) t h = ground (
  arith,
  add_item-independent c t item,
  add_item-seen c t item,
  add_all-independent c evidence (add_item c t item),
)

-- The independent contributions by an independent description: the first report of all counts, and
-- each later first report of an identifier that is supported as independent, unless the reports may be
-- coordinated.
unfoldable pub effective : String → List Evidence → ℕ
effective c [] = 0
effective c (item ∷ evidence) = suc (if is_coordinated c then 0 else count_if is_supported evidence)

add_all-effective :
    (c : String) (firsts : List Evidence)
    → (add_all c no_evidence firsts).independent ≡ effective c firsts
unfolding add_all effective
add_all-effective c [] = refl
add_all-effective c (item ∷ firsts) = ground (
  arith,
  add_item-independent c no_evidence item,
  add_item-seen c no_evidence item,
  add_all-independent c firsts (add_item c no_evidence item),
)

add_item-total :
    (c : String) (t : Tally) (item : Evidence)
    → (add_item c t item).independent + (add_item c t item).repeated
      ≤ t.independent + t.repeated + 1
unfolding add_item
add_item-total c t item = ground arith

add_all-total :
    (c : String) (evidence : List Evidence) (t : Tally)
    → (add_all c t evidence).independent + (add_all c t evidence).repeated
      ≤ t.independent + t.repeated + length evidence
unfolding add_all
add_all-total c [] t = omega arith
add_all-total c (item ∷ evidence) t =
    omega (arith, add_item-total c t item, add_all-total c evidence (add_item c t item))

first_reports-length :
    (seen : List String) (evidence : List Evidence)
    → length (first_reports seen evidence) ≤ length evidence
unfolding first_reports
first_reports-length seen [] = omega arith
first_reports-length seen (item ∷ evidence) =
    ground
      (arith, first_reports-length seen evidence, first_reports-length (item.id ∷ seen) evidence)

module _ (p : Policy) (evidence : List Evidence) (c : String) {r : Outcome}
    (e : evaluate_with_coordination p evidence c ≡ ok r) where
  -- On success the effective count is the number of independent contributions, described apart from
  -- the loop, and the contributions of both kinds together are at most the attached reports.
  pub evaluate-effective :
      (r.effective_independent_count ≡ effective c (first_reports [] evidence))
      × (r.effective_independent_count + r.repeated_evidence_count ≤ r.attached_report_count)
  evaluate-effective =
      let (_, _, same) = (evaluate_iff p evidence c r).0 e in
      rw (← same) (
        add_all-effective c (first_reports [] evidence),
        omega (
          arith,
          add_all-total c (first_reports [] evidence) no_evidence,
          first_reports-length [] evidence,
        ),
      )
