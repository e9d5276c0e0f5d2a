-- ===== src/Incidents/Tests.antt =====
-- The processors of internal/incidents on concrete incidents, reports and candidates.
use signa.Lifecycle
use signa.Incidents.Attaching
use signa.Attachment.{
  create, attach, PolicyDecision, AssessedCandidate, decide_attachment, valid_candidates,
  sort_candidates, sort_from, sink, flip_onto, finite_range,
}
use signa.Incidents.{Row, Store}
use signa.Incidents.Applying.{IsApplied, OpenIf, applied_to, apply-IsApplied, apply-apply}
use signa.Incidents.Assessing.{apply, recheck, assess_all, assess_excluding}
use signa.Incidents.Attaching.{
  Database, Report, IncidentRow, Lookup, out_of_fuel, attached, inserted, finish, first_time,
  Policy,
}
use signa.Incidents.Ending.{recheck_ends}
use signa.Incidents.LifecycleProcessor.{
  is_due, incident_of, evaluate_locked, write_decision, same_lifecycle_time, lifecycle_reason,
  put_row,
}
use signa.Incidents.Processor.{
  AiProcessedEvent, Evidence, Surroundings, process, parse_ai_processed,
}
use signa.Incidents.Rechecking.{count_left}
use signa.Incidents.Redelivery.{process-process}
use signa.Incidents.Repeating.{evaluate_locked-evaluate_locked}
use signa.Incidents.Sweeping.{is_due-rank}
use signa.Lifecycle.Sweeps.{rank}
use signa.Prelude.{
  All, subst, String, ◌≡◌, refl, Option, none, some, List, [], ◌∷◌, true, false, if◌then◌else◌,
  str_eq, ltb, arith, ℕ,
}
use signa.Prelude.Float.{whole_numbers, whole_numbers-FloatLaws}
use signa.Prelude.Int.{ℤ, pos, ◌+ℤ◌, ◌-ℤ◌}
use signa.Prelude.Result.{ok, err}
use signa.Prelude.Text.{contains}
use signa.Prelude.Time.{sub}
use signa.Stream.{StreamMessage, text, lookup_field}

abbrev policy : Lifecycle.Policy
policy = record { resolving_after = pos 10; resolved_after = pos 20; expired_after = pos 30 }

abbrev quiet : Row
quiet = record {
  status = "OPEN";
  last_signal_at = some (pos 5);
  started_at = none;
  created_at = pos 1;
  expires_at = some (pos 35);
  resolved_at = none;
  updated_at = pos 5;
}

is_due-rank_example :
    is_due policy (pos 17) quiet
    ≡ ltb (rank "OPEN") (rank (Lifecycle.decide (pos 17) (incident_of quiet) policy).status)
unfolding Lifecycle.is_supported ◌+ℤ◌
is_due-rank_example =
    is_due-rank policy (pos 17) quiet
      (record {
        positive = omega arith;
        resolving_lt = omega arith;
        resolved_lt = omega arith;
        active = λ e. absurd (cc);
        supported = refl;
      })
      (omega arith) refl

abbrev store : Store
store = record {
  ids = "i1" ∷ [];
  row = λ id. if str_eq id "i1" then some quiet else none;
  history = [];
  outbox = [];
}

abbrev resolving : Store
resolving = record {
  ids = "i1" ∷ [];
  row = λ id.
      if str_eq id "i1"
      then some (record quiet { status = "RESOLVING"; updated_at = pos 17 })
      else store.row id;
  history =
      record {
        incident_id = "i1";
        previous_value = "OPEN";
        new_value = "RESOLVING";
        reason = "incident activity reached resolving freshness threshold";
        activity_at = pos 5;
        ages = pos 0 ∷ pos 0 ∷ pos 0 ∷ pos 0 ∷ [];
      }
      ∷ [];
  outbox =
      record {
        event_type = "incident.status_changed";
        incident_id = "i1";
        previous_status = "OPEN";
        new_status = "RESOLVING";
        effective_at = pos 17;
      }
      ∷ [];
}

row-evaluated : evaluate_locked policy "i1" (pos 17) store ≡ ok resolving
unfolding evaluate_locked write_decision same_lifecycle_time lifecycle_reason put_row
    Lifecycle.evaluate Lifecycle.validate Lifecycle.is_supported Lifecycle.next_status
    Lifecycle.resolution_time sub ◌+ℤ◌ ◌-ℤ◌
row-evaluated = refl

evaluate_locked-evaluate_locked_example :
    evaluate_locked policy "i1" (pos 17) resolving ≡ ok resolving
evaluate_locked-evaluate_locked_example =
    evaluate_locked-evaluate_locked policy (pos 17) "i1" store resolving row-evaluated

-- The candidate "old" fits the report, but has expired.
abbrev assess_fire : String → Option (AssessedCandidate ℤ)
assess_fire id =
    some (record { id = id; similarity_state = "assessed"; similarity_score = some (pos 1) })

abbrev fires : Lookup ℤ
fires = record { candidates = some ("old" ∷ []); assess = assess_fire }

abbrev fire_report : Report ℤ
fire_report = record {
  id = "r1";
  incident_id = none;
  observed_at = none;
  submitted_at = pos 50;
  has_coordinates = true;
  event_type = some "fire";
}

abbrev old_fire : IncidentRow
old_fire = record {
  event_type = some "fire";
  resolved_at = none;
  expires_at = some (pos 40);
  last_signal_at = some (pos 10);
  located = true;
}

abbrev database : Database ℤ
database = record {
  report = λ id. if str_eq id "r1" then some none else none;
  incident = λ id. if str_eq id "old" then some old_fire else none;
  links = [];
  history = [];
  outbox = [];
}

abbrev to_old : PolicyDecision ℤ
to_old = record {
  verdict = attach;
  candidate_id = "old";
  score = some (pos 1);
  winner_margin = none;
  reason = "only scored candidate clears threshold";
}

abbrev limits : Attaching.Policy ℤ
limits = record { threshold = pos 1; margin = pos 1 }

known_fires :
    (n : ℕ) (ids : List String)
    → fires.candidates ≡ some ids
    → All (λ id. contains ("old" ∷ []) id ≡ true) ids
unfolding contains
known_fires n ids e =
    let same : ("old" ∷ []) ≡ ids = cc in
    subst (λ l. All (λ id. contains ("old" ∷ []) id ≡ true) l) same (refl, tt)

recheck_ends_example :
    ¬ (recheck 2 limits true (λ _. fires) (pos 51) database [] to_old ≡ err out_of_fuel)
unfolding contains count_left
recheck_ends_example =
    recheck_ends whole_numbers-FloatLaws 2 limits true (λ _. fires) (pos 51) database ("old" ∷ [])
      [] to_old known_fires (refl, refl) (omega arith)

abbrev applied : Database ℤ
applied = record {
  report = λ id. if str_eq id "r1" then some (some "new") else database.report id;
  incident = λ id.
      if str_eq id "new"
      then some (record {
        event_type = some "fire";
        resolved_at = none;
        expires_at = none;
        last_signal_at = some (pos 50);
        located = true;
      })
      else database.incident id;
  links = record { incident_id = "new"; report_id = "r1"; similarity = none } ∷ [];
  history =
      record {
        incident_id = "new";
        verdict = create;
        reason =
            "re-evaluated after candidate became unattachable: no candidate had an assessed similarity score";
        metadata_verdict = attach;
        metadata_score = some (pos 1);
        metadata_margin = none;
      }
      ∷ [];
  outbox =
      record {
        event_type = "incident.created";
        incident_id = "new";
        report_id = "r1";
        score = none;
        margin = none;
      }
      ∷ [];
}

fire-applied :
    apply true 2 limits true fires (λ _. fires) (pos 51) fire_report "new" to_old database
    ≡ (ok tt, applied)
unfolding apply assess_excluding assess_all recheck attached inserted finish first_time contains
    decide_attachment valid_candidates sort_candidates sort_from sink flip_onto finite_range
fire-applied = refl

apply-IsApplied_example :
    (first : PolicyDecision ℤ) × (last : PolicyDecision ℤ) × IsApplied fire_report
      (applied_to last.verdict "new" last)
      first
      last
      database
      applied
    × OpenIf last.verdict database (pos 51) last.candidate_id
apply-IsApplied_example =
    apply-IsApplied true 2 limits true fires (λ _. fires) (pos 51) fire_report "new" to_old database
      applied refl refl fire-applied

apply-apply_example :
    apply true 0 limits false fires
      (λ _. fires)
      (pos 90)
      (record fire_report { incident_id = some "new" })
      "newer"
      to_old
      applied
    ≡ (ok tt, applied)
apply-apply_example =
    apply-apply true 2 0 limits true false fires fires (λ _. fires) (λ _. fires) (pos 51) (pos 90)
      fire_report (record fire_report { incident_id = some "new" }) "new" "newer" to_old to_old
      database applied refl refl fire-applied

abbrev processed_event : AiProcessedEvent
processed_event = record { report_id = "r1"; extraction_id = "e1"; contract_version = "v1" }

abbrev decode : String → Option AiProcessedEvent
decode payload = some processed_event

abbrev evidence : Evidence ℤ
evidence = record {
  report = fire_report;
  event_type = record { status = "identified"; value = some "fire" };
}

abbrev surroundings : Surroundings ℤ
surroundings = record {
  load = λ event. some evidence;
  first_lookup = fires;
  locked_lookup = fires;
  later_lookups = λ n. fires;
  now = pos 51;
  fresh_id = "new";
  commit_works = true;
}

abbrev report_message : StreamMessage
report_message = record {
  id = "1-0";
  values =
      ("event_name", text "report.ai_processed.v1")
      ∷ ("aggregate_type", text "report")
      ∷ ("payload", text "{}")
      ∷ [];
}

message-processed :
    process decode (λ id. true) 2 limits surroundings report_message database ≡ (ok tt, applied)
unfolding process parse_ai_processed lookup_field apply assess_excluding assess_all recheck attached
    inserted finish first_time contains decide_attachment valid_candidates sort_candidates sort_from
    sink flip_onto finite_range
message-processed = refl

process-process_example :
    (process decode
      (λ id. true)
      0
      limits
      (record surroundings { commit_works = false })
      report_message
      applied).1
    ≡ applied
process-process_example =
    process-process decode (λ id. true) 2 0 limits limits surroundings
      (record surroundings { commit_works = false }) report_message database applied
      message-processed
