-- ===== src/Incidents/Applying.antt =====
-- What a successful `apply` of internal/incidents/processor.go leaves.
-- The incident of the id is open, and not past its expiry.
use signa.Attachment.{Verdict, create, attach, PolicyDecision}
use signa.Incidents.Assessing.{
  assess_excluding, recheck, apply, apply_to, committed, decide_and_write, locked_decision,
}
use signa.Incidents.Attaching.{
  Policy, Database, Report, IncidentRow, Link, AttachError, Lookup, reworded, is_attachable,
  write_verdict, finish, attached, inserted, has_link, add_link, event_name,
}
use signa.Incidents.Ending.{Verdict-cases}
use signa.Prelude.{
  ℕ, zero, suc, String, ◌≡◌, inl, inr, Option, none, some, List, [], ◌∷◌, ◌++◌, Bool, true, false,
  Bool-cases, refl, Option-cases, subst, eq_iff, arith, ap,
}
use signa.Prelude.Float.{Float}
use signa.Prelude.Result.{Result, ok, err, >>=-eq-ok, ok_inj}
use signa.Prelude.Time.{Time}

abbrev pub IsOpen : {F : Type 0} → Database F → Time → String → Type 0
IsOpen s now id = (row : IncidentRow) × (s.incident id ≡ some row) × (is_attachable now row ≡ true)

abbrev pub OpenIf : {F : Type 0} → Verdict → Database F → Time → String → Type 0
OpenIf create s now id = Unit {0}
OpenIf attach s now id = IsOpen s now id

module _ {F : Type 0} where
  -- The report's incident, its link, its history entry and its outbox event, all of one incident.
  abbrev pub IsApplied :
      Report F → String → PolicyDecision F → PolicyDecision F → Database F → Database F → Type 0
  IsApplied r id first last s s' =
      (s'.report r.id ≡ some (some id))
      × (has_link id r.id s'.links ≡ true)
      × (s'.history
          ≡ s.history
            ++ (record {
              incident_id = id;
              verdict = last.verdict;
              reason = last.reason;
              metadata_verdict = first.verdict;
              metadata_score = first.score;
              metadata_margin = first.winner_margin;
            }
                ∷ []))
      × (s'.outbox
          ≡ s.outbox
            ++ (record {
              event_type = event_name last.verdict;
              incident_id = id;
              report_id = r.id;
              score = last.score;
              margin = last.winner_margin;
            }
                ∷ []))

  abbrev pub applied_to : Verdict → String → PolicyDecision F → String
  applied_to create fresh last = fresh
  applied_to attach fresh last = last.candidate_id

  has_link-append :
      (links : List (Link F)) (l : Link F)
      → has_link l.incident_id l.report_id (links ++ (l ∷ [])) ≡ true
  has_link-append [] l =
      rw ((eq_iff l.incident_id l.incident_id).1 refl, (eq_iff l.report_id l.report_id).1 refl) refl
  has_link-append (k ∷ links) l = ground (arith, has_link-append links l)

  has_link-add_link :
      (links : List (Link F)) (l : Link F)
      → has_link l.incident_id l.report_id (add_link l links) ≡ true
  has_link-add_link links l = elim (Bool-cases (has_link l.incident_id l.report_id links)) [
    | inl old ↦ rw (old, old) refl
    | inr new ↦ rw new (has_link-append links l)
  ]

  write_verdict-IsApplied :
      (v : Verdict) (r : Report F) (fresh : String) (first last : PolicyDecision F) (s : Database F)
      → r.incident_id ≡ none
      → IsApplied r (applied_to v fresh last) first last s (write_verdict v r fresh first last s)
  unfolding finish attached inserted
  write_verdict-IsApplied create r fresh first last s unset =
      rw unset (rw ((eq_iff r.id r.id).1 refl) refl, has_link-append s.links _, refl, refl)
  write_verdict-IsApplied attach r fresh first last s unset =
      (rw ((eq_iff r.id r.id).1 refl) refl, has_link-add_link s.links _, refl, refl)

module _ {F : Type 0} ⦃f : Float F⦄ where
  recheck-OpenIf :
      (fuel : ℕ) (p : Policy F) (known : Bool) (lookups : ℕ → Lookup F) (now : Time)
      (s : Database F) (excluded : List String) (d last : PolicyDecision F)
      → recheck fuel p known lookups now s excluded d ≡ ok last
      → OpenIf last.verdict s now last.candidate_id
  unfolding recheck
  recheck-OpenIf zero p known lookups now s excluded d last e = absurd (cc)
  recheck-OpenIf (suc fuel) p known lookups now s excluded d last e =
      elim (Verdict-cases d.verdict) [
        | inl creates ↦
            let same : d ≡ last = ok_inj (rw (recheck, creates) at e) in
            subst (λ (x : PolicyDecision F). OpenIf x.verdict s now x.candidate_id) same
              (rw creates tt)
        | inr attaches ↦ elim (Option-cases (s.incident d.candidate_id)) [
          | inl missing ↦ let never = rw (recheck, attaches, missing) at e in absurd (cc)
          | inr (row, found) ↦ elim (Bool-cases (is_attachable now row)) [
            | inl still ↦
                let same : d ≡ last = ok_inj (rw (recheck, attaches, found, still) at e) in
                subst (λ (x : PolicyDecision F). OpenIf x.verdict s now x.candidate_id) same
                  (rw attaches (row, found, still))
            | inr closed ↦
                let (next, again, e2) =
                  >>=-eq-ok (assess_excluding p known (lookups fuel) (d.candidate_id ∷ excluded))
                    (λ next.
                      recheck fuel p known lookups now s (d.candidate_id ∷ excluded)
                        (reworded next))
                    (rw (recheck, attaches, found, closed) at e) in
                recheck-OpenIf fuel p known lookups now s (d.candidate_id ∷ excluded)
                  (reworded next) last e2
          ]
        ]
      ]

  pub committed-ok :
      (works : Bool) (s s' : Database F) (res : Result AttachError (Database F))
      → committed works s res ≡ (ok tt, s')
      → res ≡ ok s'
  committed-ok works s s' (err x) e = absurd (cc)
  committed-ok true s s' (ok x) e =
      ap ok (ap (λ (z : Result AttachError (Unit {0}) × Database F). z.1) e)
  committed-ok false s s' (ok x) e = absurd (cc)

  decide_and_write-IsApplied :
      (fuel : ℕ) (p : Policy F) (known : Bool) (locked : Lookup F) (lookups : ℕ → Lookup F)
      (now : Time) (r : Report F) (fresh : String) (d : PolicyDecision F) (s s' : Database F)
      → r.incident_id ≡ none
      → decide_and_write fuel p known locked lookups now r fresh d s ≡ ok s'
      → (first : PolicyDecision F) × (last : PolicyDecision F) × IsApplied r
          (applied_to last.verdict fresh last)
          first
          last
          s
          s'
        × OpenIf last.verdict s now last.candidate_id
  decide_and_write-IsApplied fuel p known locked lookups now r fresh d s s' unset e =
      let (first, e1, e2) = >>=-eq-ok (locked_decision p known locked d) _ e in
      let (last, e3, e4) = >>=-eq-ok (recheck fuel p known lookups now s [] first) _ e2 in
      let written = write_verdict-IsApplied last.verdict r fresh first last s unset in
      (
        first,
        last,
        subst (IsApplied r (applied_to last.verdict fresh last) first last s) (ok_inj e4) written,
        recheck-OpenIf fuel p known lookups now s [] first last e3,
      )

  -- An `apply` that succeeds, for a report that had no incident, has given it one, which has the
  -- report's link, and has added one history entry and one outbox event of that incident; and if the
  -- decision that stood was to attach, that incident was open and not past its expiry.
  pub apply-IsApplied :
      (works : Bool) (fuel : ℕ) (p : Policy F) (known : Bool) (locked : Lookup F)
      (lookups : ℕ → Lookup F) (now : Time) (r : Report F) (fresh : String) (d : PolicyDecision F)
      (s s' : Database F)
      → s.report r.id ≡ some none
      → r.incident_id ≡ none
      → apply works fuel p known locked lookups now r fresh d s ≡ (ok tt, s')
      → (first : PolicyDecision F) × (last : PolicyDecision F) × IsApplied r
          (applied_to last.verdict fresh last)
          first
          last
          s
          s'
        × OpenIf last.verdict s now last.candidate_id
  unfolding apply
  apply-IsApplied works fuel p known locked lookups now r fresh d s s' alone unset e =
      let done : apply_to fuel p known locked lookups now r fresh d s (s.report r.id) ≡ ok s' =
        committed-ok works s s' _ e in
      decide_and_write-IsApplied fuel p known locked lookups now r fresh d s s' unset
        (rw alone at done)

  pub apply_to-reported :
      (fuel : ℕ) (p : Policy F) (known : Bool) (locked : Lookup F) (lookups : ℕ → Lookup F)
      (now : Time) (r : Report F) (fresh : String) (d : PolicyDecision F) (s s' : Database F)
      (existing : Option (Option String))
      → s.report r.id ≡ existing
      → r.incident_id ≡ none
      → apply_to fuel p known locked lookups now r fresh d s existing ≡ ok s'
      → (id : String) × (s'.report r.id ≡ some (some id))
  apply_to-reported fuel p known locked lookups now r fresh d s s' none same unset e = absurd (cc)
  apply_to-reported fuel p known locked lookups now r fresh d s s' (some (some id)) same unset e =
      (id, subst (λ (x : Database F). x.report r.id ≡ some (some id)) (ok_inj e) same)
  apply_to-reported fuel p known locked lookups now r fresh d s s' (some none) same unset e =
      let (first, last, (reported, linked, logged, sent), opened) =
        decide_and_write-IsApplied fuel p known locked lookups now r fresh d s s' unset e in
      (applied_to last.verdict fresh last, reported)

  -- Once an `apply` of a report that was read without an incident has succeeded, an `apply` of the same
  -- report that commits succeeds too and changes nothing, whatever its decision, lookups and clock are.
  pub apply-apply :
      (works : Bool) (fuel fuel2 : ℕ) (p : Policy F) (known known2 : Bool)
      (locked locked2 : Lookup F) (lookups lookups2 : ℕ → Lookup F) (now now2 : Time)
      (r r2 : Report F) (fresh fresh2 : String) (d d2 : PolicyDecision F) (s s' : Database F)
      → r.incident_id ≡ none
      → r2.id ≡ r.id
      → apply works fuel p known locked lookups now r fresh d s ≡ (ok tt, s')
      → apply true fuel2 p known2 locked2 lookups2 now2 r2 fresh2 d2 s' ≡ (ok tt, s')
  unfolding apply
  apply-apply works fuel fuel2 p known known2 locked locked2 lookups lookups2 now now2 r r2 fresh
        fresh2 d d2 s s' unset same e =
      let (id, reported) =
        apply_to-reported fuel p known locked lookups now r fresh d s s' (s.report r.id) refl unset
          (committed-ok works s s' _ e) in
      rw (same, reported) refl
