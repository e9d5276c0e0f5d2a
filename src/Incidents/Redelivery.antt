-- ===== src/Incidents/Redelivery.antt =====
-- A message that `Processor.Process` of internal/incidents/processor.go gets again.
use signa.Attachment.{PolicyDecision}
use signa.Incidents.Applying.{apply_to-reported, committed-ok}
use signa.Incidents.Assessing.{apply, assess_excluding}
use signa.Incidents.Attaching.{Policy, Database, AttachError}
use signa.Incidents.LifecycleProcessor.{event}
use signa.Incidents.Processor.{
  AiProcessedEvent, ProcessError, Evidence, Surroundings, parse_ai_processed, gather, loaded,
  named_report, is_identified, is_known, as_processed, apply_decision, process_report, process,
}
use signa.Prelude.{
  ℕ, String, [], ◌∙◌, ◌≡◌, refl, sym, ap, subst, inl, inr, Bool, true, false, Bool-cases, Option,
  none, some, Option-cases, is_some, str_eq,
}
use signa.Prelude.Float.{Float}
use signa.Prelude.Result.{Result, ok, err, >>=-eq-ok, fail_if-eq-ok, ok_inj, Result-cases}
use signa.Stream.{StreamMessage}

some_inj : {A : Type 0} {x y : A} → Path (Option A) (some x) (some y) → x ≡ y
some_inj e = cc

module _ {F : Type 0} where
  named_report-id : (e : Evidence F) → ((named_report e).id ≡ e.report.id)
  named_report-id e = elim (Bool-cases (is_identified e.event_type)) [
    | inl named ↦ rw named refl
    | inr unnamed ↦ rw unnamed refl
  ]

  named_report-incident_id :
      (e : Evidence F) → ((named_report e).incident_id ≡ e.report.incident_id)
  named_report-incident_id e = elim (Bool-cases (is_identified e.event_type)) [
    | inl named ↦ rw named refl
    | inr unnamed ↦ rw unnamed refl
  ]

  loaded-incident :
      (id : String) (incident : Option (Option String)) (found : Option (Evidence F))
      (e : Evidence F)
      → loaded id incident found ≡ ok e
      → (e.report.id ≡ id) × (incident ≡ some e.report.incident_id)
  loaded-incident id incident none e r = absurd (cc)
  loaded-incident id none (some x) e r = absurd (cc)
  loaded-incident id (some incident) (some x) e r =
      let same = ok_inj r in
      (
        sym (ap (λ (y : Evidence F). y.report.id) same),
        ap (λ (y : Evidence F). some y.report.incident_id) same,
      )

  as_processed-ok :
      (r : Result AttachError (Unit {0}) × Database F) (s' : Database F)
      → as_processed r ≡ (ok tt, s')
      → r ≡ (ok tt, s')
  as_processed-ok (ok done, s) s' e =
      ap (λ (z : Result ProcessError (Unit {0}) × Database F). (ok tt, z.1)) e
  as_processed-ok (err x, s) s' e = absurd (cc)

  -- What is known of a report that the database has an incident of.
  abbrev HasIncident : String → Database F → Type 0
  HasIncident report s = (id : String) × (s.report report ≡ some (some id))

module _ {F : Type 0} ⦃f : Float F⦄ where
  apply-HasIncident :
      (fuel : ℕ) (p : Policy F) (w : Surroundings F) (e : Evidence F) (s s' : Database F)
      (d : Result AttachError (PolicyDecision F))
      → e.report.incident_id ≡ none
      → apply_decision fuel p w e s d ≡ (ok tt, s')
      → HasIncident e.report.id s'
  unfolding apply
  apply-HasIncident fuel p w e s s' (err x) unset done = absurd (cc)
  apply-HasIncident fuel p w e s s' (ok d) unset done =
      let applied = as_processed-ok _ s' done in
      let (id, reported) =
        apply_to-reported fuel p (is_known e) w.locked_lookup w.later_lookups w.now (named_report e)
          w.fresh_id d s s' _ refl (rw (named_report-incident_id e) unset)
          (committed-ok w.commit_works s s' _ applied) in
      (id, subst (λ n. s'.report n ≡ some (some id)) (named_report-id e) reported)

  process_report-HasIncident :
      (fuel : ℕ) (p : Policy F) (w : Surroundings F) (e : Evidence F) (s s' : Database F)
      → s.report e.report.id ≡ some e.report.incident_id
      → process_report fuel p w s (ok e) ≡ (ok tt, s')
      → HasIncident e.report.id s'
  process_report-HasIncident fuel p w e s s' read done = elim (Option-cases e.report.incident_id) [
    | inl unset ↦
        let flag : is_some e.report.incident_id ≡ false = ap is_some unset in
        apply-HasIncident fuel p w e s s' (assess_excluding p (is_known e) w.first_lookup []) unset
          (rw flag at done)
    | inr (id, set) ↦
        let flag : is_some e.report.incident_id ≡ true = ap is_some set in
        let same : s ≡ s' =
          ap (λ (z : Result ProcessError (Unit {0}) × Database F). z.1) (rw flag at done) in
        (
          id,
          subst (λ (x : Database F). x.report e.report.id ≡ some (some id)) same (rw set at read),
        )
  ]

  process_report-noop :
      (fuel : ℕ) (p : Policy F) (w : Surroundings F) (s : Database F)
      (r : Result ProcessError (Evidence F))
      → ((e : Evidence F) → r ≡ ok e → (id : String) × (e.report.incident_id ≡ some id))
      → (process_report fuel p w s r).1 ≡ s
  process_report-noop fuel p w s (err x) set = refl
  process_report-noop fuel p w s (ok e) set = let (id, known) = set e refl in rw known refl

  module _ (decode : String → Option AiProcessedEvent) (is_uuid : String → Bool) where
    gather-event :
        (w : Surroundings F) (m : StreamMessage) (s : Database F) (e : Evidence F)
        → gather decode is_uuid w m s ≡ ok e
        → (event : AiProcessedEvent) × (parse_ai_processed decode is_uuid m.values ≡ ok event)
          × (e.report.id ≡ event.report_id)
          × (s.report event.report_id ≡ some e.report.incident_id)
    gather-event w m s e r =
        let (event, parsed, r2) = >>=-eq-ok (parse_ai_processed decode is_uuid m.values) _ r in
        let (has_id, r3) = fail_if-eq-ok (str_eq m.id "") _ _ r2 in
        let (named, read) =
          loaded-incident event.report_id (s.report event.report_id) (w.load event) e r3 in
        (event, parsed, named, read)

    -- Once a message has been processed without an error, processing it again leaves the database as it is, whatever the lookups, the clock, the evidence and the commit are then.
    pub process-process :
        (fuel fuel2 : ℕ) (p p2 : Policy F) (w w2 : Surroundings F) (m : StreamMessage)
        (s s' : Database F)
        → process decode is_uuid fuel p w m s ≡ (ok tt, s')
        → (process decode is_uuid fuel2 p2 w2 m s').1 ≡ s'
    unfolding process
    process-process fuel fuel2 p p2 w w2 m s s' done =
        elim (Result-cases (gather decode is_uuid w m s)) [
          | inr (x, failed) ↦ let never = rw (gather, failed) at done in absurd (cc)
          | inl (e, gathered) ↦
              let (event, parsed, named, read) = gather-event w m s e gathered in
              let (id, reported) =
                process_report-HasIncident fuel p w e s s' (rw named read) (rw gathered at done) in
              process_report-noop fuel2 p2 w2 s' (gather decode is_uuid w2 m s') λ e2 again.
                let (event2, parsed2, named2, read2) = gather-event w2 m s' e2 again in
                let same : event ≡ event2 = ok_inj (sym parsed ∙ parsed2) in
                let at_event : s'.report event.report_id ≡ some (some id) =
                  subst (λ n. s'.report n ≡ some (some id)) named reported in
                let at_event2 : s'.report event2.report_id ≡ some (some id) =
                  subst (λ (v : AiProcessedEvent). s'.report v.report_id ≡ some (some id)) same
                    at_event in
                (id, some_inj (sym read2 ∙ at_event2))
        ]
