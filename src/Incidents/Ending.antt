-- ===== src/Incidents/Ending.antt =====
-- The loop of `apply` in internal/incidents/processor.go: its end.
-- The loop of `apply`.
use signa.Attachment.{
  Verdict, create, attach, AssessedCandidate, PolicyDecision, AttachmentError, decide_attachment,
}
use signa.Incidents.Assessing.{
  assess_excluding, assess_found, cons_result, assess_all, checked, is_off_scale, recheck,
}
use signa.Incidents.Attaching.{
  Policy, Database, AttachError, decided, Lookup, out_of_fuel, reworded, is_attachable,
}
use signa.Incidents.Rechecking.{Fits, IsFresh, count_left, count_left-lt, assess_excluding-Fits}
use signa.Prelude.{
  ℕ, zero, suc, ◌≤◌, String, ◌≡◌, inl, inr, Option, none, some, List, [], ◌∷◌, All, Bool, true,
  false, not, ◌||◌, str_eq, Bool-cases, arith, ◌⊎◌, refl, Option-cases,
}
use signa.Prelude.Float.{Float, FloatLaws}
use signa.Prelude.Result.{Result, ok, err, >>=-≢}
use signa.Prelude.Text.{contains}
use signa.Prelude.Time.{Time}

pub Verdict-cases : (v : Verdict) → (v ≡ create) ⊎ (v ≡ attach)
Verdict-cases create = inl refl
Verdict-cases attach = inr refl

module _ {F : Type 0} ⦃f : Float F⦄ (laws : FloatLaws F) where
  checked-≢ :
      (id : String) (found : Option (AssessedCandidate F)) → ¬ (checked id found ≡ err out_of_fuel)
  checked-≢ id none e = absurd (cc)
  checked-≢ id (some b) e =
      elim (Bool-cases (not (str_eq b.id id) || is_off_scale b.similarity_score)) [
        | inl bad ↦ let never = rw bad at e in absurd (cc)
        | inr good ↦ let never = rw good at e in absurd (cc)
      ]

  cons_result-≢ :
      (a : AssessedCandidate F) (r : Result AttachError (List (AssessedCandidate F)))
      → ¬ (r ≡ err out_of_fuel)
      → ¬ (cons_result a r ≡ err out_of_fuel)
  cons_result-≢ a (ok rest) fine e = absurd (cc)
  cons_result-≢ a (err x) fine e = fine e'
    where
      e' : Path (Result AttachError (List (AssessedCandidate F))) (err x) (err out_of_fuel)
      e' = cc

  assess_all-≢ :
      (assess : String → Option (AssessedCandidate F)) (excluded ids : List String)
      → ¬ (assess_all assess excluded ids ≡ err out_of_fuel)
  unfolding assess_all
  assess_all-≢ assess excluded [] e = absurd (cc)
  assess_all-≢ assess excluded (id ∷ ids) e = elim (Bool-cases (contains excluded id)) [
    | inl out ↦ assess_all-≢ assess excluded ids (rw out at e)
    | inr fresh ↦
        >>=-≢ (checked id (assess id)) (λ a. cons_result a (assess_all assess excluded ids))
          (checked-≢ id (assess id))
          (λ a _.
            cons_result-≢ a (assess_all assess excluded ids) (assess_all-≢ assess excluded ids))
          (rw fresh at e)
  ]

  decided-≢ : (r : Result AttachmentError (PolicyDecision F)) → ¬ (decided r ≡ err out_of_fuel)
  decided-≢ (ok x) e = absurd (cc)
  decided-≢ (err x) e = absurd (cc)

  assess_found-≢ :
      (p : Policy F) (l : Lookup F) (excluded : List String) (found : Option (List String))
      → ¬ (assess_found p l excluded found ≡ err out_of_fuel)
  assess_found-≢ p l excluded none e = absurd (cc)
  assess_found-≢ p l excluded (some []) e = absurd (cc)
  assess_found-≢ p l excluded (some (id ∷ ids)) e =
      >>=-≢ (assess_all l.assess excluded (id ∷ ids))
        (λ a. decided (decide_attachment a p.threshold p.margin))
        (assess_all-≢ l.assess excluded (id ∷ ids))
        (λ a _. decided-≢ (decide_attachment a p.threshold p.margin)) e

  assess_excluding-≢ :
      (p : Policy F) (known : Bool) (l : Lookup F) (excluded : List String)
      → ¬ (assess_excluding p known l excluded ≡ err out_of_fuel)
  unfolding assess_excluding
  assess_excluding-≢ p true l excluded e = assess_found-≢ p l excluded l.candidates e
  assess_excluding-≢ p false l excluded e = absurd (cc)

  reworded-Fits :
      (pool excluded : List String) (d : PolicyDecision F)
      → Fits pool excluded d
      → Fits pool excluded (reworded d)
  reworded-Fits pool excluded d fits = elim (Verdict-cases d.verdict) [
    | inl creates ↦ rw creates tt
    | inr attaches ↦ rw attaches (rw attaches at fits)
  ]

  -- With more fuel than the ids of the pool that are not excluded yet, the loop ends before the fuel
  -- does, if the lookups find only ids of the pool and the decision attaches to none but such an id.
  pub recheck_ends :
      (fuel : ℕ) (p : Policy F) (known : Bool) (lookups : ℕ → Lookup F) (now : Time)
      (s : Database F) (pool excluded : List String) (d : PolicyDecision F)
      → ((n : ℕ) (ids : List String)
          → (lookups n).candidates ≡ some ids
          → All (λ id. contains pool id ≡ true) ids)
      → Fits pool excluded d
      → suc (count_left pool excluded) ≤ fuel
      → ¬ (recheck fuel p known lookups now s excluded d ≡ err out_of_fuel)
  unfolding recheck
  recheck_ends zero p known lookups now s pool excluded d in_pool fits enough e =
      absurd (omega (arith, enough))
  recheck_ends (suc fuel) p known lookups now s pool excluded d in_pool fits enough e =
      elim (Verdict-cases d.verdict) [
        | inl creates ↦ let never = rw creates at e in absurd (cc)
        | inr attaches ↦ elim (Option-cases (s.incident d.candidate_id)) [
          | inl missing ↦ let never = rw (recheck, attaches, missing) at e in absurd (cc)
          | inr (row, found) ↦ elim (Bool-cases (is_attachable now row)) [
            | inl still ↦ let never = rw (recheck, attaches, found, still) at e in absurd (cc)
            | inr closed ↦
                let (listed, fresh) : IsFresh pool excluded d.candidate_id = rw attaches at fits in
                let fewer = count_left-lt pool excluded d.candidate_id listed fresh in
                >>=-≢ (assess_excluding p known (lookups fuel) (d.candidate_id ∷ excluded))
                  (λ next.
                    recheck fuel p known lookups now s (d.candidate_id ∷ excluded) (reworded next))
                  (assess_excluding-≢ p known (lookups fuel) (d.candidate_id ∷ excluded))
                  (λ next again.
                    recheck_ends fuel p known lookups now s pool (d.candidate_id ∷ excluded)
                      (reworded next) in_pool
                      (reworded-Fits pool (d.candidate_id ∷ excluded) next (
                        assess_excluding-Fits laws p known (lookups fuel) pool
                          (d.candidate_id ∷ excluded) next (in_pool fuel) again))
                      (omega (arith, fewer, enough)))
                  (rw (recheck, attaches, found, closed) at e)
          ]
        ]
      ]
