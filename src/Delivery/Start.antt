-- ===== src/Delivery/Start.antt =====
-- internal/delivery/store.go: the transaction of `StartAttempt` on one delivery.
use signa.Delivery.{
  Error, operation_key, permanent, Attempt, AttemptRow, Slot, stale, attempt_skipped, in_flight,
  is_terminal, Config, started, Request, identity_conflict, skipped, StartResult, Row, quarantined,
  is_in_flight,
}
use signa.Delivery.Attempts.{is_started, update_attempt, insert_attempt}
use signa.Prelude.{
  ℕ, ◌+◌, String, Bool, true, false, not, ◌&&◌, ◌||◌, Option, none, some, List, leb, if◌then◌else◌,
  str_eq, is_some,
}
use signa.Prelude.Int.{pos, ◌-ℤ◌, ltb_ℤ}
use signa.Prelude.Result.{Result, ok, err, ◌>>=◌}
use signa.Prelude.Time.{Time, Duration, sub, wrap}

abbrev pub done : StartResult
done = record { attempt = none; terminal = true; not_due = false; retry_after = pos 0 }

abbrev pub wait_for : Duration → StartResult
wait_for d = record { attempt = none; terminal = false; not_due = true; retry_after = d }

abbrev pub exhausted_reason : Option ℕ → String
exhausted_reason none = "maximum delivery attempts exhausted"
exhausted_reason (some _) = "lease expired; maximum delivery attempts exhausted"

-- The update that closes the attempt whose lease has expired.
abbrev pub close_expired : Option ℕ → Time → List AttemptRow → List AttemptRow
close_expired none now rows = rows
close_expired (some n) now rows =
    update_attempt n (λ a. is_started a.state)
      (λ a. record a {
        state = stale;
        failure_kind = some permanent;
        error_message = some (exhausted_reason (some n));
        completed_at = some now;
      })
      rows

-- The branch `attempts >= s.config.MaxAttempts` of `StartAttempt`.
unfoldable pub exhaust : Time → Slot → Slot
exhaust now s = record {
  row = record s.row {
    state = quarantined;
    active_attempt_no = none;
    last_error = some (exhausted_reason s.row.active_attempt_no);
    updated_at = now;
  };
  attempts = close_expired s.row.active_attempt_no now s.attempts;
  quarantine = some (exhausted_reason s.row.active_attempt_no);
}

abbrev pub skip_row : Request → ℕ → Time → AttemptRow
skip_row request n now = record {
  attempt_no = n;
  operation_key = operation_key request.idempotency_key;
  state = attempt_skipped;
  failure_kind = none;
  error_message = some "alert superseded";
  provider_response = none;
  started_at = now;
  completed_at = some now;
}

abbrev pub start_row : Request → ℕ → Time → AttemptRow
start_row request n now = record {
  attempt_no = n;
  operation_key = operation_key request.idempotency_key;
  state = started;
  failure_kind = none;
  error_message = none;
  provider_response = none;
  started_at = now;
  completed_at = none;
}

-- The branch `superseded` of `StartAttempt`.
unfoldable pub skip : Request → Time → Slot → Result Error (StartResult × Slot)
skip request now s = do
  let n = s.row.attempts + 1
  s' ← insert_attempt (skip_row request n now) (record s {
    row = record s.row {
      state = skipped;
      attempts = n;
      active_attempt_no = none;
      updated_at = now;
    };
  })
  ok (done, s')

abbrev pub claimed : Request → Slot → ℕ → Attempt
claimed request s n = record {
  delivery_id = request.delivery_id;
  alert_id = request.alert_id;
  user_id = s.row.user_id;
  channel = s.row.channel;
  priority = s.row.priority;
  payload = s.row.payload;
  idempotency_key = request.idempotency_key;
  attempt = n;
  operation_key = operation_key request.idempotency_key;
}

-- The end of `StartAttempt`, which claims the delivery for a new attempt.
unfoldable pub claim : Request → Time → Slot → Result Error (StartResult × Slot)
claim request now s = do
  let n = s.row.attempts + 1
  s' ← insert_attempt (start_row request n now) (record s {
    row = record s.row {
      state = in_flight;
      attempts = n;
      active_attempt_no = some n;
      last_attempt_at = some now;
      next_attempt_at = none;
      updated_at = now;
    };
  })
  ok (
    record {
      attempt = some (claimed request s n);
      terminal = false;
      not_due = false;
      retry_after = pos 0;
    },
    s',
  )

-- The rest of a lease that another worker holds, if any.
unfoldable pub lease_left : Config → Time → Row → Option Duration
unfolding wrap
lease_left config now row = elim row.last_attempt_at [
  | none ↦ none
  | some last ↦
      if is_in_flight row.state
        && is_some row.active_attempt_no
        && ltb_ℤ (sub now last) config.lease
      then some (wrap (config.lease -ℤ sub now last))
      else none
]

-- `nextAttempt != nil && nextAttempt.After(now)`, with the time that is left.
unfoldable pub backoff_left : Time → Row → Option Duration
backoff_left now row = elim row.next_attempt_at [
  | none ↦ none
  | some next ↦ if ltb_ℤ now next then some (sub next now) else none
]

abbrev pub start_due : Bool → Request → Time → Slot → Result Error (StartResult × Slot)
start_due superseded request now s = if superseded then skip request now s else claim request now s

abbrev pub start_unleased :
    Config → Bool → Request → Time → Slot → Result Error (StartResult × Slot)
start_unleased config superseded request now s =
    if leb config.max_attempts s.row.attempts
    then ok (done, exhaust now s)
    else elim (backoff_left now s.row) [
      | some d ↦ ok (wait_for d, s)
      | none ↦ start_due superseded request now s
    ]

abbrev pub start_open : Config → Bool → Request → Time → Slot → Result Error (StartResult × Slot)
start_open config superseded request now s =
    if is_terminal s.row.state then ok (done, s) else elim (lease_left config now s.row) [
      | some d ↦ ok (wait_for d, s)
      | none ↦ start_unleased config superseded request now s
    ]

abbrev pub is_other : Request → Row → Bool
is_other request row =
    not (str_eq row.alert_id request.alert_id)
    || not (str_eq row.idempotency_key request.idempotency_key)

-- `StartAttempt`, for a delivery that is found; `superseded` is the answer of its last query.
unfoldable pub start_slot :
    Config → Bool → Request → Time → Slot → Result Error (StartResult × Slot)
unfolding exhaust skip claim lease_left backoff_left
start_slot config superseded request now s =
    if is_other request s.row
    then err identity_conflict
    else start_open config superseded request now s
