-- ===== src/Delivery/Consumer.antt =====
-- `process` and `RetryAfterOr` of internal/delivery/consumer.go: one batch of messages of the stream.
-- What the clock and Redis answer while a message is handled: the time at which its deferral is
-- checked, the time after `Process`, whether the acknowledgement fails, and whether the context is
-- cancelled by then.
use signa.Delivery.Processor.{ProcessResult}
use signa.Prelude.{
  String, Bool, false, not, Option, none, some, List, [], ◌∷◌, if◌then◌else◌, str_eq,
}
use signa.Prelude.Int.{pos, ◌+ℤ◌, ltb_ℤ}
use signa.Prelude.Result.{Result, ok, err}
use signa.Prelude.Time.{Time, Duration}
use signa.Stream.{StreamMessage}
use signa.Stream.Merge.{merge_messages}

pub record Tick : Type 0 where
  pub checked_at : Time
  pub processed_at : Time
  pub ack_fails : Bool
  pub cancelled : Bool

-- `deferredUntil`.
abbrev pub Deferred : Type 0
Deferred = List (String × Time)

unfoldable pub find_deferred : String → Deferred → Option Time
find_deferred id [] = none
find_deferred id ((k, until) ∷ deferred) =
    if str_eq k id then some until else find_deferred id deferred

-- `delete`.
unfoldable pub remove_deferred : String → Deferred → Deferred
remove_deferred id [] = []
remove_deferred id ((k, until) ∷ deferred) =
    let rest = remove_deferred id deferred in if str_eq k id then rest else (k, until) ∷ rest

-- `RetryAfterOr`.
abbrev pub retry_after_or : ProcessResult → Duration → Duration
retry_after_or r fallback = if ltb_ℤ (pos 0) r.retry_after then r.retry_after else fallback

-- `time.Now().Before(until)` of a message that is deferred.
abbrev pub is_waiting : Option Time → Time → Bool
is_waiting none now = false
is_waiting (some until) now = ltb_ℤ now until

-- A batch so far: the state of the processor, the deferred messages, the ids of the messages that
-- `Process` was called for and of those acknowledged, the newest first, and whether it has returned an
-- error.
pub record Batch (S : Type 0) : Type 0 where
  pub state : S
  pub deferred : Deferred
  pub handled : List String
  pub acknowledged : List String
  pub failed : Bool

-- `handle` is the processor's `Process`; ids tell the messages of a batch apart.
module _ {S : Type 0} {E : Type 0} (handle : StreamMessage → S → Result E ProcessResult × S)
    (tick : String → Tick) (poll : Duration) where
  abbrev pub defer_message : String → Duration → Batch S → Batch S
  defer_message id delay b = record b {
    deferred = (id, (tick id).processed_at +ℤ delay) ∷ b.deferred;
  }

  abbrev pub acknowledge : String → Batch S → Batch S
  acknowledge id b = record b { acknowledged = id ∷ b.acknowledged }

  -- The batch when `Process` is called: the message is no longer deferred.
  abbrev pub handled_by : StreamMessage → S → Batch S → Batch S
  handled_by m s b = record b {
    state = s;
    deferred = remove_deferred m.id b.deferred;
    handled = m.id ∷ b.handled;
  }

  -- What follows `Process`, with the rest of the loop.
  abbrev pub after_process :
      String → Result E ProcessResult → Batch S → (Batch S → Batch S) → Batch S
  after_process id (err e) b rest = rest (defer_message id poll b)
  after_process id (ok r) b rest =
      if not r.ack
      then rest (defer_message id (retry_after_or r poll) b)
      else if (tick id).ack_fails
      then record b { failed = not (tick id).cancelled }
      else rest (acknowledge id b)

  -- The loop of `process`.
  unfoldable pub process_messages : List StreamMessage → Batch S → Batch S
  unfolding find_deferred remove_deferred
  process_messages [] b = b
  process_messages (m ∷ messages) b =
      if is_waiting (find_deferred m.id b.deferred) (tick m.id).checked_at
      then process_messages messages b
      else after_process m.id (handle m b.state).0 (handled_by m (handle m b.state).1 b)
          (λ next. process_messages messages next)

  -- `process`.
  unfoldable pub process_batch : List StreamMessage → S → Deferred → Batch S
  unfolding process_messages merge_messages
  process_batch messages s deferred =
      process_messages (merge_messages messages)
        (record { state = s; deferred = deferred; handled = []; acknowledged = []; failed = false })
