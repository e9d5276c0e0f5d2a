-- ===== src/Incidents/Rechecking.antt =====
-- The loop of `apply` in internal/incidents/processor.go that looks for a candidate that is still open.
-- How many ids of the pool are not excluded.
use signa.Attachment.{
  Verdict, create, attach, AssessedCandidate, PolicyDecision, AttachmentError, decide_attachment,
  Scored, valid_candidates, scored, add_scored, is_unusable,
}
use signa.Attachment.Best.{Member, decide_attachment-best}
use signa.Incidents.Assessing.{
  assess_excluding, assess_found, cons_result, assess_all, checked, is_off_scale,
}
use signa.Incidents.Attaching.{Policy, AttachError, decided, Lookup}
use signa.Prelude.{
  ℕ, suc, ◌+◌, ◌≤◌, String, ◌≡◌, subst, refl, sym, inl, inr, true, false, Option, none, some, List,
  [], ◌∷◌, arith, if◌then◌else◌, str_eq, eq_iff, Bool-cases, All, ap, ◌⊎◌, Bool, not, ◌||◌,
  Option-cases,
}
use signa.Prelude.Float.{Float, FloatLaws}
use signa.Prelude.Result.{Result, ok, err, ok_inj, >>=-eq-ok}
use signa.Prelude.Text.{contains}

unfoldable pub count_left : List String → List String → ℕ
unfolding contains
count_left [] excluded = 0
count_left (x ∷ pool) excluded = (if contains excluded x then 0 else 1) + count_left pool excluded

count_left-cons :
    (pool excluded : List String) (y : String)
    → count_left pool (y ∷ excluded) ≤ count_left pool excluded
unfolding count_left contains
count_left-cons [] excluded y = omega arith
count_left-cons (x ∷ pool) excluded y = ground (arith, count_left-cons pool excluded y)

pub count_left-lt :
    (pool excluded : List String) (y : String)
    → contains pool y ≡ true
    → contains excluded y ≡ false
    → suc (count_left pool (y ∷ excluded)) ≤ count_left pool excluded
unfolding count_left contains
count_left-lt [] excluded y in_pool fresh = absurd (cc)
count_left-lt (x ∷ pool) excluded y in_pool fresh = elim (Bool-cases (str_eq x y)) [
  | inl same ↦
      let x-y = (eq_iff x y).0 same in
      let fresh_x : contains excluded x ≡ false =
        subst (λ z. contains excluded z ≡ false) (sym x-y) fresh in
      let turned : str_eq y x ≡ true = (eq_iff y x).1 (sym x-y) in
      rw (turned, fresh_x) (omega (arith, count_left-cons pool excluded y))
  | inr apart ↦
      let more = count_left-lt pool excluded y (rw apart at in_pool) fresh in
      elim (Bool-cases (str_eq y x)) [
        | inl same ↦
            let turned : str_eq x y ≡ true = (eq_iff x y).1 (sym ((eq_iff y x).0 same)) in
            absurd (cc)
        | inr other ↦ rw other (omega (arith, more))
      ]
]

-- The id is in the pool and not excluded.
abbrev pub IsFresh : List String → List String → String → Type 0
IsFresh pool excluded id = (contains pool id ≡ true) × (contains excluded id ≡ false)

-- A decision to attach names such an id.
abbrev pub FitsVerdict : Verdict → List String → List String → String → Type 0
FitsVerdict create pool excluded id = Unit {0}
FitsVerdict attach pool excluded id = IsFresh pool excluded id

FitsVerdict-fresh :
    (v : Verdict) (pool excluded : List String) (id : String)
    → (v ≡ attach → IsFresh pool excluded id)
    → FitsVerdict v pool excluded id
FitsVerdict-fresh create pool excluded id h = tt
FitsVerdict-fresh attach pool excluded id h = h refl

module _ {F : Type 0} where
  abbrev pub Fits : List String → List String → PolicyDecision F → Type 0
  Fits pool excluded d = FitsVerdict d.verdict pool excluded d.candidate_id

module _ {F : Type 0} ⦃f : Float F⦄ where
  Member-add_scored :
      (o : Option (Scored F)) (rest : List (Scored F)) (best : Scored F)
      → Member best (add_scored o rest)
      → (o ≡ some best) ⊎ Member best rest
  Member-add_scored none rest best m = inr m
  Member-add_scored (some c) rest best (inl same) = inl (ap some same)
  Member-add_scored (some c) rest best (inr m) = inr m

module _ {F : Type 0} ⦃f : Float F⦄ (laws : FloatLaws F) where
  scored-id : (a : AssessedCandidate F) (best : Scored F) → scored a ≡ some best → best.id ≡ a.id
  scored-id a best e = elim (Option-cases a.similarity_score) [
    | inl unscored ↦ let bad = rw unscored at e in absurd (cc)
    | inr (v, is_scored) ↦ elim (Bool-cases (is_unusable a v)) [
      | inl unusable ↦ let bad = rw (is_scored, unusable) at e in absurd (cc)
      | inr usable ↦
          let same : Path (Option (Scored F)) (some (record { id = a.id; score = v })) (some best) =
            rw (is_scored, usable) at e in
          let named : a.id ≡ best.id = cc in sym named
    ]
  ]

  valid-All :
      (Q : String → Type 0) (assessed : List (AssessedCandidate F)) (best : Scored F)
      → All (λ (a : AssessedCandidate F). Q a.id) assessed
      → Member best (valid_candidates assessed)
      → Q best.id
  unfolding valid_candidates
  valid-All Q [] best all m = absurd m
  valid-All Q (a ∷ assessed) best (first, rest) m =
      elim (Member-add_scored (scored a) (valid_candidates assessed) best m) [
        | inl same ↦ subst Q (sym (scored-id a best same)) first
        | inr later ↦ valid-All Q assessed best rest later
      ]

  cons_result-ok :
      (a : AssessedCandidate F) (r : Result AttachError (List (AssessedCandidate F)))
      (assessed : List (AssessedCandidate F))
      → cons_result a r ≡ ok assessed
      → (rest : List (AssessedCandidate F)) × (r ≡ ok rest) × (assessed ≡ a ∷ rest)
  cons_result-ok a (ok rest) assessed e = (rest, refl, sym (ok_inj e))
  cons_result-ok a (err x) assessed e = absurd (cc)

  checked-id :
      (id : String) (found : Option (AssessedCandidate F)) (a : AssessedCandidate F)
      → checked id found ≡ ok a
      → a.id ≡ id
  checked-id id none a e = absurd (cc)
  checked-id id (some b) a e =
      elim (Bool-cases (not (str_eq b.id id) || is_off_scale b.similarity_score)) [
        | inl bad ↦ let never = rw bad at e in absurd (cc)
        | inr good ↦
            let same : b ≡ a = ok_inj (rw good at e) in
            let named : str_eq b.id id ≡ true = ground arith in
            subst (λ (c : AssessedCandidate F). c.id ≡ id) same ((eq_iff b.id id).0 named)
      ]

  -- Every candidate that is assessed is in the pool and not excluded.
  assess_all-IsFresh :
      (assess : String → Option (AssessedCandidate F)) (pool excluded ids : List String)
      (assessed : List (AssessedCandidate F))
      → All (λ id. contains pool id ≡ true) ids
      → assess_all assess excluded ids ≡ ok assessed
      → All (λ (a : AssessedCandidate F). IsFresh pool excluded a.id) assessed
  unfolding assess_all
  assess_all-IsFresh assess pool excluded [] assessed known e =
      subst (λ l. All (λ (a : AssessedCandidate F). IsFresh pool excluded a.id) l) (ok_inj e) tt
  assess_all-IsFresh assess pool excluded (id ∷ ids) assessed (first, rest) e =
      elim (Bool-cases (contains excluded id)) [
        | inl out ↦ assess_all-IsFresh assess pool excluded ids assessed rest (rw out at e)
        | inr fresh ↦
            let (a, one, e2) =
              >>=-eq-ok (checked id (assess id))
                (λ a. cons_result a (assess_all assess excluded ids)) (rw fresh at e) in
            let (others, e3, same) =
              cons_result-ok a (assess_all assess excluded ids) assessed e2 in
            let named = checked-id id (assess id) a one in
            subst (λ l. All (λ (b : AssessedCandidate F). IsFresh pool excluded b.id) l) (sym same)
              (
                subst (IsFresh pool excluded) (sym named) (first, fresh),
                assess_all-IsFresh assess pool excluded ids others rest e3,
              )
      ]

  decided-ok :
      (r : Result AttachmentError (PolicyDecision F)) (d : PolicyDecision F)
      → decided r ≡ ok d
      → r ≡ ok d
  decided-ok (ok x) d e = ap ok (ok_inj e)
  decided-ok (err x) d e = absurd (cc)

  assess_found-Fits :
      (p : Policy F) (l : Lookup F) (pool excluded : List String) (found : Option (List String))
      (d : PolicyDecision F)
      → ((ids : List String) → found ≡ some ids → All (λ id. contains pool id ≡ true) ids)
      → assess_found p l excluded found ≡ ok d
      → Fits pool excluded d
  assess_found-Fits p l pool excluded none d known e = absurd (cc)
  assess_found-Fits p l pool excluded (some []) d known e = subst (Fits pool excluded) (ok_inj e) tt
  assess_found-Fits p l pool excluded (some (id ∷ ids)) d known e =
      let (assessed, gathered, e2) =
        >>=-eq-ok (assess_all l.assess excluded (id ∷ ids))
          (λ a. decided (decide_attachment a p.threshold p.margin)) e in
      let e3 = decided-ok (decide_attachment assessed p.threshold p.margin) d e2 in
      let fresh =
        assess_all-IsFresh l.assess pool excluded (id ∷ ids) assessed (known (id ∷ ids) refl)
          gathered in
      FitsVerdict-fresh d.verdict pool excluded d.candidate_id λ verdict.
        let (best, member, named, score, clears, top) =
          decide_attachment-best laws assessed p.threshold p.margin d e3 verdict in
        subst (IsFresh pool excluded) (sym named)
          (valid-All (IsFresh pool excluded) assessed best fresh member)

  pub assess_excluding-Fits :
      (p : Policy F) (known : Bool) (l : Lookup F) (pool excluded : List String)
      (d : PolicyDecision F)
      → ((ids : List String) → l.candidates ≡ some ids → All (λ id. contains pool id ≡ true) ids)
      → assess_excluding p known l excluded ≡ ok d
      → Fits pool excluded d
  unfolding assess_excluding
  assess_excluding-Fits p true l pool excluded d in_pool e =
      assess_found-Fits p l pool excluded l.candidates d in_pool e
  assess_excluding-Fits p false l pool excluded d in_pool e =
      subst (Fits pool excluded) (ok_inj e) tt
