-- ===== src/Incidents/LifecycleProcessor.antt =====
-- internal/incidents/lifecycle_processor.go: the evaluation of one incident and the sweep over the
-- incidents that are due. Rows that other transactions have locked are skipped by the sweep.
-- `COALESCE(last_signal_at, started_at, created_at)`.
use signa.Lifecycle
use signa.Incidents.{
  Row, Store, Error, bad_limit, database_failed, refused, undecodable, stream_string, invalid_id,
  no_payload, bad_aggregate, HistoryEntry, unsupported_event, OutboxEvent, or_error,
}
use signa.Prelude.{
  ℕ, ◌/◌, String, Bool, true, false, not, ◌&&◌, ◌||◌, Option, none, some, List, [], ◌∷◌, ◌++◌, ◌==◌,
  if◌then◌else◌, str_eq, take,
}
use signa.Prelude.Int.{ℤ, pos, pos_part, ◌-ℤ◌, ltb_ℤ, leb_ℤ, eq_ℤ}
use signa.Prelude.Result.{Result, ok, err, ◌>>=◌, fail_if, ◌>>◌}
use signa.Prelude.Time.{Time, Duration}
use signa.Stream.{Fields}

abbrev pub coalesce_time : Option Time → Time → Time
coalesce_time none fallback = fallback
coalesce_time (some t) fallback = t

abbrev pub activity_of : Row → Time
activity_of row = coalesce_time row.last_signal_at (coalesce_time row.started_at row.created_at)

abbrev pub incident_of : Row → Lifecycle.Incident
incident_of row = record {
  status = row.status;
  activity_at = activity_of row;
  resolved_at = row.resolved_at;
  expires_at = row.expires_at;
}

-- `sameLifecycleTime`.
unfoldable pub same_lifecycle_time : Option Time → Option Time → Bool
same_lifecycle_time none none = true
same_lifecycle_time (some left) (some right) = eq_ℤ left right
same_lifecycle_time _ _ = false

-- `lifecycleReason`.
unfoldable pub lifecycle_reason : String → String
lifecycle_reason status =
    if str_eq status Lifecycle.open_status
    then "fresh incident activity reopened lifecycle"
    else if str_eq status Lifecycle.resolving_status
    then "incident activity reached resolving freshness threshold"
    else if str_eq status Lifecycle.resolved_status
    then "incident activity reached resolved freshness threshold"
    else if str_eq status Lifecycle.expired_status
    then "incident activity reached expiry freshness threshold"
    else "incident lifecycle policy transition"

-- `int64(d / time.Second)` of a duration that is not negative.
abbrev pub whole_seconds : Duration → ℤ
whole_seconds d = pos (pos_part d / 1_000_000_000)

abbrev pub ages_of : Lifecycle.Policy → Lifecycle.Decision → List ℤ
ages_of p d =
    whole_seconds d.age
    ∷ whole_seconds p.resolving_after
    ∷ whole_seconds p.resolved_after
    ∷ whole_seconds p.expired_after
    ∷ []

abbrev pub resolution_or : Option Time → Time → Time
resolution_or none now = now
resolution_or (some t) now = t

-- `effectiveAt`.
abbrev pub effective_at : Lifecycle.Decision → Time → Time
effective_at d now =
    if str_eq d.status Lifecycle.expired_status
    then d.expires_at
    else if str_eq d.status Lifecycle.resolved_status
    then resolution_or d.resolved_at now
    else now

abbrev pub status_changed : Row → Lifecycle.Decision → Bool
status_changed row d = not (str_eq row.status d.status)

abbrev pub expires_changed : Row → Lifecycle.Decision → Bool
expires_changed row d = not (same_lifecycle_time row.expires_at (some d.expires_at))

abbrev pub resolved_changed : Row → Lifecycle.Decision → Bool
resolved_changed row d = not (same_lifecycle_time row.resolved_at d.resolved_at)

-- The row that `UPDATE incidents` leaves.
abbrev pub decided_row : Lifecycle.Decision → Time → Row → Row
decided_row d now row = record row {
  status = d.status;
  expires_at = some d.expires_at;
  resolved_at = d.resolved_at;
  updated_at = now;
}

unfoldable pub put_row : String → Row → Store → Store
put_row id row s = record s { row = λ other. if str_eq other id then some row else s.row other }

abbrev pub event : String → String → Row → Lifecycle.Decision → Time → OutboxEvent
event name id row d now = record {
  event_type = name;
  incident_id = id;
  previous_status = row.status;
  new_status = d.status;
  effective_at = effective_at d now;
}

-- The events of a status that has changed.
abbrev pub events_of : String → Row → Lifecycle.Decision → Time → List OutboxEvent
events_of id row d now =
    if str_eq d.status Lifecycle.resolved_status
    then event "incident.status_changed" id row d now ∷ event "incident.resolved" id row d now ∷ []
    else event "incident.status_changed" id row d now ∷ []

abbrev pub entry : Lifecycle.Policy → String → Row → Lifecycle.Decision → HistoryEntry
entry p id row d = record {
  incident_id = id;
  previous_value = row.status;
  new_value = d.status;
  reason = lifecycle_reason d.status;
  activity_at = d.activity_at;
  ages = ages_of p d;
}

abbrev pub note_change : Lifecycle.Policy → String → Row → Lifecycle.Decision → Time → Store → Store
note_change p id row d now s = record s {
  history = s.history ++ (entry p id row d ∷ []);
  outbox = s.outbox ++ events_of id row d now;
}

unfoldable pub write_decision :
    Lifecycle.Policy → String → Row → Time → Lifecycle.Decision → Store → Store
unfolding same_lifecycle_time lifecycle_reason put_row
write_decision p id row now d s =
    if not (status_changed row d) && not (expires_changed row d) && not (resolved_changed row d)
    then s
    else if not (status_changed row d)
    then put_row id (decided_row d now row) s
    else note_change p id row d now (put_row id (decided_row d now row) s)

abbrev pub settle :
    Lifecycle.Policy
    → String
    → Row
    → Time
    → Store
    → Result Lifecycle.Error Lifecycle.Decision
    → Result Error Store
settle p id row now s (ok d) = ok (write_decision p id row now d s)
settle p id row now s (err e) = err (refused e)

abbrev pub evaluate_row : Lifecycle.Policy → String → Time → Option Row → Store → Result Error Store
evaluate_row p id now none s = ok s
evaluate_row p id now (some row) s =
    settle p id row now s (Lifecycle.evaluate now (incident_of row) p)

-- `evaluateLocked`.
unfoldable pub evaluate_locked : Lifecycle.Policy → String → Time → Store → Result Error Store
unfolding Lifecycle.evaluate write_decision
evaluate_locked p id now s = evaluate_row p id now (s.row id) s

-- A transaction: what it leaves if it fails, and if its commit fails.
abbrev pub commit : Bool → Store → Result Error Store → Result Error (Unit {0}) × Store
commit works s (err e) = (err e, s)
commit works s (ok s') = if works then (ok tt, s') else (err database_failed, s)

-- `parseLifecycleTrigger`.
module _ (decode : String → Option String) (is_uuid : String → Bool) where
  abbrev pub is_input_event : String → Bool
  is_input_event name =
      str_eq name "incident.created.v1" || str_eq name "incident.report_attached.v1"

  unfoldable pub parse_lifecycle_trigger : Fields → Result Error String
  unfolding stream_string
  parse_lifecycle_trigger fields = do
    name ← or_error (stream_string fields "event_name") unsupported_event
    fail_if (not (is_input_event name)) unsupported_event
    aggregate ← or_error (stream_string fields "aggregate_type") bad_aggregate
    fail_if (not (str_eq aggregate "incident")) bad_aggregate
    payload ← or_error (stream_string fields "payload") no_payload
    id ← or_error (decode payload) undecodable
    fail_if (not (is_uuid id)) invalid_id
    ok id

  -- `LifecycleProcessor.Process`.
  unfoldable pub process :
      Lifecycle.Policy → Bool → Time → Fields → Store → Result Error (Unit {0}) × Store
  unfolding parse_lifecycle_trigger evaluate_locked
  process p works now fields s = elim (parse_lifecycle_trigger fields) [
    | err e ↦ (err e, s)
    | ok id ↦ commit works s (evaluate_locked p id now s)
  ]

-- `expires_at IS NOT NULL AND expires_at <= $3 OR ...`.
abbrev pub is_over : Option Time → Time → Time → Duration → Bool
is_over none activity now expired_after = leb_ℤ activity (now -ℤ expired_after)
is_over (some t) activity now expired_after = leb_ℤ t now

-- The condition of the sweep's query.
unfoldable pub is_due : Lifecycle.Policy → Time → Row → Bool
unfolding ◌-ℤ◌
is_due p now row =
    (str_eq row.status Lifecycle.open_status && leb_ℤ (activity_of row) (now -ℤ p.resolving_after))
    || (str_eq row.status Lifecycle.resolving_status
        && leb_ℤ (activity_of row) (now -ℤ p.resolved_after))
    || (str_eq row.status Lifecycle.resolved_status
        && is_over row.expires_at (activity_of row) now p.expired_after)

abbrev pub is_due_row : Lifecycle.Policy → Time → Option Row → Bool
is_due_row p now none = false
is_due_row p now (some row) = is_due p now row

abbrev pub sort_time : Option Row → Time
sort_time none = pos 0
sort_time (some row) = coalesce_time row.expires_at (activity_of row)

-- `id_before` is the order of the database on ids.
module _ (id_before : String → String → Bool) (locked : String → Bool) where
  abbrev pub is_before : Store → String → String → Bool
  is_before s a b =
      ltb_ℤ (sort_time (s.row a)) (sort_time (s.row b))
      || (eq_ℤ (sort_time (s.row a)) (sort_time (s.row b)) && id_before a b)

  unfoldable pub insert_due : Store → String → List String → List String
  insert_due s id [] = id ∷ []
  insert_due s id (other ∷ ids) =
      if is_before s id other then id ∷ other ∷ ids else other ∷ insert_due s id ids

  -- The ids that are due and not locked, in the order of the query.
  unfoldable pub due_ids : Lifecycle.Policy → Time → Store → List String → List String
  unfolding insert_due is_due
  due_ids p now s [] = []
  due_ids p now s (id ∷ ids) =
      let rest = due_ids p now s ids in
      if is_due_row p now (s.row id) && not (locked id) then insert_due s id rest else rest

  -- The loop over the batch.
  unfoldable pub evaluate_all : Lifecycle.Policy → Time → List String → Store → Result Error Store
  unfolding evaluate_locked
  evaluate_all p now [] s = ok s
  evaluate_all p now (id ∷ ids) s = evaluate_locked p id now s >>= λ s'. evaluate_all p now ids s'

  -- `LifecycleProcessor.Sweep`.
  unfoldable pub sweep :
      Lifecycle.Policy → Bool → Time → ℕ → Store → Result Error (Unit {0}) × Store
  unfolding due_ids evaluate_all
  sweep p works now limit s =
      if limit == 0
      then (err bad_limit, s)
      else commit works s (evaluate_all p now (take limit (due_ids p now s s.ids)) s)
