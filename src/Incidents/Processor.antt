-- ===== src/Incidents/Processor.antt =====
-- internal/incidents/processor.go: the message of a report that has been read by the extraction, and
-- what `Processor.Process` does with it.
use signa.Attachment.{PolicyDecision}
use signa.Incidents.Assessing.{assess_excluding, apply}
use signa.Incidents.Attaching.{Policy, Database, Report, Lookup, AttachError}
use signa.Incidents.LifecycleProcessor.{event}
use signa.Prelude.{
  ℕ, String, Bool, not, ◌&&◌, ◌||◌, Option, none, some, [], if◌then◌else◌, str_eq, is_some,
}
use signa.Prelude.Float.{Float}
use signa.Prelude.Result.{Result, ok, err, fail_if, ◌>>=◌, ◌>>◌}
use signa.Prelude.Time.{Time}
use signa.Stream.{Fields, FieldValue, text, bytes, number, lookup_field, StreamMessage}

pub record AiProcessedEvent : Type 0 where
  pub report_id : String
  pub extraction_id : String
  pub contract_version : String

pub data ProcessError : Type 0 where
  missing_field invalid_field unsupported_event unexpected_aggregate : ProcessError
  undecodable incomplete_payload invalid_uuid missing_message_id evidence_failed : ProcessError
  refused : AttachError → ProcessError

-- `get`.
abbrev pub read_field : Option FieldValue → Result ProcessError String
read_field none = err missing_field
read_field (some (text value)) = if str_eq value "" then err invalid_field else ok value
read_field (some (bytes value)) = if str_eq value "" then err invalid_field else ok value
read_field (some number) = err invalid_field

abbrev pub decoded : Option AiProcessedEvent → Result ProcessError AiProcessedEvent
decoded none = err undecodable
decoded (some event) = ok event

module _ (decode : String → Option AiProcessedEvent) (is_uuid : String → Bool) where
  -- `parseAIProcessed`.
  unfoldable pub parse_ai_processed : Fields → Result ProcessError AiProcessedEvent
  unfolding lookup_field
  parse_ai_processed fields = do
    name ← read_field (lookup_field fields "event_name")
    fail_if (not (str_eq name "report.ai_processed.v1")) unsupported_event
    aggregate ← read_field (lookup_field fields "aggregate_type")
    fail_if (not (str_eq aggregate "report")) unexpected_aggregate
    payload ← read_field (lookup_field fields "payload")
    event ← decoded (decode payload)
    fail_if
        (str_eq event.report_id ""
          || str_eq event.extraction_id ""
          || str_eq event.contract_version "")
        incomplete_payload
    fail_if (not (is_uuid event.report_id)) invalid_uuid
    fail_if (not (is_uuid event.extraction_id)) invalid_uuid
    ok event

-- The part of an extraction that the processor reads.
pub record EventTypeField : Type 0 where
  pub status : String
  pub value : Option String

pub record Evidence (F : Type 0) : Type 0 where
  pub report : Report F
  pub event_type : EventTypeField

-- `result.EventType.Status == "identified" && result.EventType.Value != nil`.
abbrev pub is_identified : EventTypeField → Bool
is_identified field = str_eq field.status "identified" && is_some field.value

-- `loadReportAndExtraction`: the evidence that is found, with the incident that the report has then.
abbrev pub with_incident :
    {F : Type 0} → String → Option (Option String) → Evidence F → Result ProcessError (Evidence F)
with_incident id none e = err evidence_failed
with_incident id (some incident) e =
    ok (record e { report = record e.report { id = id; incident_id = incident } })

-- The environment of one call: the durable evidence, the lookups before the transaction, under its
-- lock and in its loop, the clock, the id that a new incident gets, and whether the commit works.
pub record Surroundings (F : Type 0) : Type 0 where
  pub load : AiProcessedEvent → Option (Evidence F)
  pub first_lookup : Lookup F
  pub locked_lookup : Lookup F
  pub later_lookups : ℕ → Lookup F
  pub now : Time
  pub fresh_id : String
  pub commit_works : Bool

module _ {F : Type 0} where
  abbrev pub loaded :
      String → Option (Option String) → Option (Evidence F) → Result ProcessError (Evidence F)
  loaded id incident none = err evidence_failed
  loaded id incident (some e) = with_incident id incident e

  abbrev pub named_report : Evidence F → Report F
  named_report e =
      if is_identified e.event_type
      then record e.report { event_type = e.event_type.value }
      else e.report

  abbrev pub is_known : Evidence F → Bool
  is_known e = is_identified e.event_type && e.report.has_coordinates

  abbrev pub as_processed :
      Result AttachError (Unit {0}) × Database F → Result ProcessError (Unit {0}) × Database F
  as_processed (ok done, s) = (ok tt, s)
  as_processed (err e, s) = (err (refused e), s)

module _ {F : Type 0} ⦃f : Float F⦄ where
  abbrev pub apply_decision :
      ℕ
      → Policy F
      → Surroundings F
      → Evidence F
      → Database F
      → Result AttachError (PolicyDecision F)
      → Result ProcessError (Unit {0}) × Database F
  apply_decision fuel p w e s (err x) = (err (refused x), s)
  apply_decision fuel p w e s (ok d) = as_processed (
      apply w.commit_works fuel p (is_known e) w.locked_lookup w.later_lookups w.now
        (named_report e) w.fresh_id d s)

  abbrev pub process_report :
      ℕ
      → Policy F
      → Surroundings F
      → Database F
      → Result ProcessError (Evidence F)
      → Result ProcessError (Unit {0}) × Database F
  process_report fuel p w s (err x) = (err x, s)
  process_report fuel p w s (ok e) =
      if is_some e.report.incident_id
      then (ok tt, s)
      else apply_decision fuel p w e s (assess_excluding p (is_known e) w.first_lookup [])

  -- `Processor.Process`, with no other transaction between its read and its transaction.
  module _ (decode : String → Option AiProcessedEvent) (is_uuid : String → Bool) where
    abbrev pub gather :
        Surroundings F → StreamMessage → Database F → Result ProcessError (Evidence F)
    gather w m s = do
      event ← parse_ai_processed decode is_uuid m.values
      fail_if (str_eq m.id "") missing_message_id
      loaded event.report_id (s.report event.report_id) (w.load event)

    unfoldable pub process :
        ℕ
        → Policy F
        → Surroundings F
        → StreamMessage
        → Database F
        → Result ProcessError (Unit {0}) × Database F
    unfolding parse_ai_processed assess_excluding apply
    process fuel p w m s = process_report fuel p w s (gather w m s)
