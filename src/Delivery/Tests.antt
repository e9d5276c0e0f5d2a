-- ===== src/Delivery/Tests.antt =====
-- The delivery of internal/delivery, at one delivery with two attempts at most.
use signa.Delivery.{
  in_flight, is_terminal, Config, DeliveryError, Request, pending, Slot, transient,
  identity_conflict, Error,
}
use signa.Delivery.Acks.{HasEnded, process-HasEnded}
use signa.Delivery.Attempts.{has_attempt}
use signa.Delivery.Batches.{Handled, process_batch-Handled}
use signa.Delivery.Consumer.{
  find_deferred, remove_deferred, process_batch, Deferred, Tick, Batch, process_messages,
}
use signa.Delivery.Finish.{finish_slot, retry_delay, finish_success}
use signa.Delivery.Invariant.{Consistent, Numbered}
use signa.Delivery.Invariant.Finishes.{finish_slot-Consistent}
use signa.Delivery.Invariant.Starts.{start_slot-identity_conflict, start_slot-Consistent}
use signa.Delivery.Leases.{asks, start_slot-start_slot}
use signa.Delivery.Processor.{World, process, RequestBody, parse_request, acked, ProcessResult}
use signa.Delivery.Retries.{finish_slot-start_slot_early}
use signa.Delivery.Runs.{stop, more, start, finish, Run, Run-calls, calls}
use signa.Delivery.Start.{claimed, wait_for, backoff_left, claim, lease_left, start_slot, start_row}
use signa.Delivery.Store.{start_attempt, Deliveries, find, put, finish_attempt}
use signa.Delivery.Terminal.{Run-Unmoved}
use signa.Prelude.{
  ◌+◌, ◌≤◌, String, ◌≡◌, refl, true, false, Option, none, some, [], ◌∷◌, arith, ℕ, List,
}
use signa.Prelude.Int.{pos, ◌+ℤ◌, ◌-ℤ◌}
use signa.Prelude.Result.{ok, err, Result}
use signa.Prelude.Text.{contains}
use signa.Prelude.Time.{times, sub, wrap}
use signa.Stream.{StreamMessage, text, bytes, Fields, string_field, lookup_field}
use signa.Stream.Merge.{merge_messages, merge_from}

abbrev config : Config
config = record { max_attempts = 2; backoff = pos 10; lease = pos 60 }

abbrev request : Request
request = record { event_id = "e1"; delivery_id = "d1"; alert_id = "a1"; idempotency_key = "k1" }

abbrev waiting : Slot
waiting = record {
  row = record {
    state = pending;
    alert_id = "a1";
    user_id = "u1";
    idempotency_key = "k1";
    channel = "push";
    priority = "P1";
    payload = "{}";
    attempts = 0;
    active_attempt_no = none;
    last_attempt_at = none;
    next_attempt_at = none;
    delivered_at = none;
    last_error = none;
    provider_response = none;
    updated_at = pos 0;
  };
  attempts = [];
  quarantine = none;
}

-- The delivery after a start at 100.
abbrev flying : Slot
flying = record {
  row = record waiting.row {
    state = in_flight;
    attempts = 1;
    active_attempt_no = some 1;
    last_attempt_at = some (pos 100);
    updated_at = pos 100;
  };
  attempts = start_row request 1 (pos 100) ∷ [];
  quarantine = none;
}

waiting-Consistent : Consistent config waiting
unfolding Numbered
waiting-Consistent = record {
  flight = refl;
  newest = refl;
  numbered = refl;
  bounded = omega arith;
  quarantine = refl;
}

flying-Consistent : Consistent config flying
unfolding Numbered
flying-Consistent = record {
  flight = refl;
  newest = refl;
  numbered = (refl, omega arith, refl);
  bounded = omega arith;
  quarantine = refl;
}

started_first :
    start_slot config false request (pos 100) waiting
    ≡ ok (asks (claimed request waiting 1), flying)
unfolding start_slot claim lease_left backoff_left has_attempt
started_first = refl

abbrev other_request : Request
other_request = record request { alert_id = "a2" }

refused : start_slot config false other_request (pos 100) waiting ≡ err identity_conflict
unfolding start_slot
refused = refl

start_slot-identity_conflict_example : identity_conflict ≡ identity_conflict
start_slot-identity_conflict_example =
    start_slot-identity_conflict config (pos 100) false other_request waiting identity_conflict
      waiting-Consistent refused

start_slot-Consistent_example : Consistent config flying
start_slot-Consistent_example =
    start_slot-Consistent config (pos 100) false request waiting flying
      (asks (claimed request waiting 1)) waiting-Consistent started_first

abbrev timeout : DeliveryError
timeout = record { kind = transient; message = "timeout" }

abbrev failed_once : Slot
failed_once = (finish_slot config 1 "" (some timeout) (pos 105) flying).1

finish_slot-Consistent_example : Consistent config failed_once
finish_slot-Consistent_example =
    finish_slot-Consistent config (pos 105) 1 "" (some timeout) flying flying-Consistent

abbrev short_run : Run config waiting failed_once 1
short_run =
    more (more stop (start false request (pos 100) started_first))
      (finish 1 "" (some timeout) (pos 105))

Run-calls_example : 0 + 1 ≤ 2
Run-calls_example = Run-calls config short_run waiting-Consistent

start_slot-start_slot_example :
    start_slot config false request (pos 130) flying
    ≡ ok (wait_for (wrap (pos 60 -ℤ sub (pos 130) (pos 100))), flying)
unfolding sub ◌-ℤ◌
start_slot-start_slot_example =
    start_slot-start_slot config (pos 100) (pos 130) false false request request waiting flying
      (asks (claimed request waiting 1)) started_first (λ e. absurd (cc)) refl (omega arith)

finish_slot-start_slot_early_example :
    start_slot config false request (pos 110) failed_once
    ≡ ok (wait_for (sub (pos 105 +ℤ retry_delay config 1) (pos 110)), failed_once)
unfolding retry_delay times ◌+ℤ◌
finish_slot-start_slot_early_example =
    finish_slot-start_slot_early config (pos 105) flying "" timeout request flying-Consistent 1 refl
      refl (omega arith) refl false (pos 110) (omega arith)

abbrev delivered : Slot
delivered = (finish_slot config 1 "sent" none (pos 105) flying).1

delivered-over : is_terminal delivered.row.state ≡ true
unfolding finish_slot finish_success
delivered-over = refl

Run-Unmoved_example :
    ((finish_slot config 1 "again" none (pos 200) delivered).1.row ≡ delivered.row)
    × ((finish_slot config 1 "again" none (pos 200) delivered).1.quarantine ≡ delivered.quarantine)
    × (0 + 0 ≡ 0)
Run-Unmoved_example =
    Run-Unmoved config (more stop (finish 1 "again" none (pos 200))) delivered-over

abbrev message : Fields
message =
    ("event_id", text "e1")
    ∷ ("event_name", text "delivery.requested.v1")
    ∷ ("aggregate_type", text "delivery")
    ∷ ("aggregate_id", text "d1")
    ∷ ("payload", bytes "body")
    ∷ []

abbrev decode : String → Option RequestBody
decode payload = some (record { delivery_id = "d1"; alert_id = "a1"; idempotency_key = "k1" })

abbrev world : World
world = record {
  started_at = pos 100;
  finished_at = pos 105;
  superseded = λ alert. false;
  start_fault = false;
  finish_fault = false;
  deliver = λ a. ("sent", none);
}

abbrev stored : Deliveries
stored = ("d1", waiting) ∷ []

processed : process decode config (pos 10) world message stored ≡ (ok acked, ("d1", delivered) ∷ [])
unfolding process parse_request string_field lookup_field start_attempt finish_attempt find put
    start_slot claim lease_left backoff_left has_attempt
processed = refl

process-HasEnded_example :
    (r : Request) × (parse_request decode message ≡ ok r)
    × HasEnded r.delivery_id (("d1", delivered) ∷ [])
process-HasEnded_example =
    process-HasEnded config decode (pos 10) world message stored (("d1", delivered) ∷ []) acked
      processed refl

-- A processor that acknowledges every message and counts its calls.
abbrev count_calls : StreamMessage → ℕ → Result Error ProcessResult × ℕ
count_calls m calls = (ok acked, calls + 1)

abbrev quiet_tick : String → Tick
quiet_tick id = record {
  checked_at = pos 50;
  processed_at = pos 51;
  ack_fails = false;
  cancelled = false;
}

-- One message twice, and one that is deferred until 60.
abbrev three_messages : List StreamMessage
three_messages =
    record { id = "1-0"; values = [] }
    ∷ record { id = "2-0"; values = [] }
    ∷ record { id = "1-0"; values = [] }
    ∷ []

abbrev one_deferred : Deferred
one_deferred = ("2-0", pos 60) ∷ []

abbrev three_handled : Batch ℕ
three_handled = process_batch count_calls quiet_tick (pos 5) three_messages 0 one_deferred

one_call : three_handled.handled ≡ "1-0" ∷ []
unfolding process_batch process_messages find_deferred remove_deferred merge_messages merge_from
    contains
one_call = refl

process_batch-Handled_example : Handled count_calls quiet_tick (pos 5) one_deferred three_handled
process_batch-Handled_example =
    process_batch-Handled count_calls quiet_tick (pos 5) one_deferred three_messages 0
