-- ===== src/Incidents/Assessing.antt =====
-- `assessExcluding` and `apply` of internal/incidents/processor.go. The lookup of candidates and their
-- assessment are parameters, since the database and the similarity provider answer them; a lookup may
-- answer differently each time.
use signa.Attachment.{create, attach, AssessedCandidate, PolicyDecision, decide_attachment}
use signa.Incidents.Attaching.{
  Report, Policy, attached, out_of_fuel, AttachError, lookup_failed, Database, incident_missing,
  decided, Lookup, reworded, is_attachable, assessment_failed, created, finish, report_missing,
  commit_failed, write_verdict, inserted,
}
use signa.Prelude.{
  ℕ, zero, suc, String, Bool, false, not, ◌||◌, Option, none, some, List, [], ◌∷◌, if◌then◌else◌,
  str_eq,
}
use signa.Prelude.Float.{Float}
use signa.Prelude.Result.{Result, ok, err, ◌>>=◌}
use signa.Prelude.Text.{contains}
use signa.Prelude.Time.{Time}

module _ {F : Type 0} ⦃f : Float F⦄ where
  abbrev pub is_off_scale : Option F → Bool
  is_off_scale none = false
  is_off_scale (some score) = f.lt score f.nought || f.lt f.one score

  -- The check of the id and of the score of an assessment.
  abbrev pub checked :
      String → Option (AssessedCandidate F) → Result AttachError (AssessedCandidate F)
  checked id none = err assessment_failed
  checked id (some a) =
      if not (str_eq a.id id) || is_off_scale a.similarity_score
      then err assessment_failed
      else ok a

  abbrev pub cons_result :
      AssessedCandidate F
      → Result AttachError (List (AssessedCandidate F))
      → Result AttachError (List (AssessedCandidate F))
  cons_result a (ok rest) = ok (a ∷ rest)
  cons_result a (err e) = err e

  -- The loop over the candidates that are not excluded.
  unfoldable pub assess_all :
      (String → Option (AssessedCandidate F))
      → List String
      → List String
      → Result AttachError (List (AssessedCandidate F))
  unfolding contains
  assess_all assess excluded [] = ok []
  assess_all assess excluded (id ∷ ids) =
      let rest = assess_all assess excluded ids in
      if contains excluded id then rest else checked id (assess id) >>= λ a. cons_result a rest

  abbrev pub assess_found :
      Policy F
      → Lookup F
      → List String
      → Option (List String)
      → Result AttachError (PolicyDecision F)
  assess_found p l excluded none = err lookup_failed
  assess_found p l excluded (some []) = ok (created "candidate lookup returned no candidates")
  assess_found p l excluded (some (id ∷ ids)) =
      assess_all l.assess excluded (id ∷ ids) >>= λ assessed.
      decided (decide_attachment assessed p.threshold p.margin)

  -- `assessExcluding`; `known` says that the event type is identified and the coordinates are claimed.
  unfoldable pub assess_excluding :
      Policy F → Bool → Lookup F → List String → Result AttachError (PolicyDecision F)
  unfolding assess_all decide_attachment
  assess_excluding p known l excluded =
      if known
      then assess_found p l excluded l.candidates
      else ok (created "candidate lookup requires identified event type and claimed coordinates")

  -- The loop of `apply`: the decision that stands, with the lookups that are left to make.
  unfoldable pub recheck :
      ℕ
      → Policy F
      → Bool
      → (ℕ → Lookup F)
      → Time
      → Database F
      → List String
      → PolicyDecision F
      → Result AttachError (PolicyDecision F)
  unfolding assess_excluding
  recheck zero p known lookups now s excluded d = err out_of_fuel
  recheck (suc fuel) p known lookups now s excluded d =
      let again = λ (next : PolicyDecision F).
        recheck fuel p known lookups now s (d.candidate_id ∷ excluded) (reworded next) in
      elim d.verdict [
        | create ↦ ok d
        | attach ↦ elim (s.incident d.candidate_id) [
          | none ↦ err incident_missing
          | some row ↦
              if is_attachable now row
              then ok d
              else assess_excluding p known (lookups fuel) (d.candidate_id ∷ excluded) >>= again
        ]
      ]

  -- A decision to create is assessed again under the lock.
  abbrev pub locked_decision :
      Policy F → Bool → Lookup F → PolicyDecision F → Result AttachError (PolicyDecision F)
  locked_decision p known l d = elim d.verdict [
    | create ↦ assess_excluding p known l []
    | attach ↦ ok d
  ]

  abbrev pub decide_and_write :
      ℕ
      → Policy F
      → Bool
      → Lookup F
      → (ℕ → Lookup F)
      → Time
      → Report F
      → String
      → PolicyDecision F
      → Database F
      → Result AttachError (Database F)
  decide_and_write fuel p known locked lookups now r fresh d s = do
    first ← locked_decision p known locked d
    last ← recheck fuel p known lookups now s [] first
    ok (write_verdict last.verdict r fresh first last s)

  abbrev pub apply_to :
      ℕ
      → Policy F
      → Bool
      → Lookup F
      → (ℕ → Lookup F)
      → Time
      → Report F
      → String
      → PolicyDecision F
      → Database F
      → Option (Option String)
      → Result AttachError (Database F)
  apply_to fuel p known locked lookups now r fresh d s none = err report_missing
  apply_to fuel p known locked lookups now r fresh d s (some (some incident)) = ok s
  apply_to fuel p known locked lookups now r fresh d s (some none) =
      decide_and_write fuel p known locked lookups now r fresh d s

  abbrev pub committed :
      Bool
      → Database F
      → Result AttachError (Database F)
      → Result AttachError (Unit {0}) × Database F
  committed works s (err e) = (err e, s)
  committed works s (ok s') = if works then (ok tt, s') else (err commit_failed, s)

  -- `apply`, one transaction.
  unfoldable pub apply :
      Bool
      → ℕ
      → Policy F
      → Bool
      → Lookup F
      → (ℕ → Lookup F)
      → Time
      → Report F
      → String
      → PolicyDecision F
      → Database F
      → Result AttachError (Unit {0}) × Database F
  unfolding assess_excluding recheck attached inserted finish
  apply works fuel p known locked lookups now r fresh d s =
      committed works s (apply_to fuel p known locked lookups now r fresh d s (s.report r.id))
