-- ===== src/Delivery/Finish.antt =====
-- internal/delivery/store.go: the transaction of `FinishAttempt` on one delivery.
-- `COALESCE(NULLIF(new, ''), old)`.
use signa.Delivery.{
  permanent, failed, Slot, stale, transient, truncate, is_terminal, Config, pending, FinishResult,
  attempt_quarantined, DeliveryError, FailureKind, succeeded, quarantined, attempt_succeeded,
}
use signa.Delivery.Attempts.{is_open, update_attempt}
use signa.Prelude.{
  ℕ, ◌-◌, ◌^◌, min, String, Bool, true, false, not, ◌||◌, Option, none, some, leb, ◌==◌,
  if◌then◌else◌, str_eq,
}
use signa.Prelude.Int.{pos, ◌+ℤ◌}
use signa.Prelude.Time.{times, Time, Duration}

abbrev pub coalesce : String → Option String → Option String
coalesce words old = if str_eq words "" then old else some words

abbrev pub first_some {ℓ} : {A : Type ℓ} → Option A → Option A → Option A
first_some (some a) old = some a
first_some none old = old

abbrev pub error_text : Option DeliveryError → String
error_text none = ""
error_text (some e) = truncate e.message

abbrev pub is_active : ℕ → Option ℕ → Bool
is_active n none = false
is_active n (some m) = m == n

-- `failureKind`, and the empty kind of a delivery that succeeded.
abbrev pub kind_of : Option DeliveryError → Option FailureKind
kind_of none = none
kind_of (some e) = some e.kind

-- The branch of `FinishAttempt` for an attempt that is no longer the active one.
unfoldable pub finish_stale : ℕ → String → Option DeliveryError → Time → Slot → FinishResult × Slot
finish_stale n response failure now s = (
  record { state = s.row.state; terminal = false; stale = true; retry_after = pos 0 },
  record s {
    attempts =
        update_attempt n (λ a. is_open a.state)
          (λ a. record a {
            state = stale;
            failure_kind = first_some (kind_of failure) a.failure_kind;
            error_message = coalesce (error_text failure) a.error_message;
            provider_response = coalesce (truncate response) a.provider_response;
            completed_at = first_some a.completed_at (some now);
          })
          s.attempts;
  },
)

unfoldable pub finish_success : ℕ → String → Time → Slot → FinishResult × Slot
finish_success n response now s = (
  record { state = succeeded; terminal = true; stale = false; retry_after = pos 0 },
  record s {
    row = record s.row {
      state = succeeded;
      active_attempt_no = none;
      delivered_at = some now;
      provider_response = some (truncate response);
      last_error = none;
      updated_at = now;
    };
    attempts =
        update_attempt n (λ _. true)
          (λ a. record a {
            state = attempt_succeeded;
            provider_response = some (truncate response);
            completed_at = some now;
          })
          s.attempts;
  },
)

-- `s.config.Backoff * time.Duration(1<<min(attempt.Attempt-1, 20))`.
unfoldable pub retry_delay : Config → ℕ → Duration
retry_delay config n = times config.backoff (2 ^ min (n - 1) 20)

abbrev pub is_permanent : FailureKind → Bool
is_permanent permanent = true
is_permanent transient = false

-- The end of `FinishAttempt`, for an attempt that failed.
unfoldable pub finish_failure :
    Config → ℕ → String → DeliveryError → Time → Slot → FinishResult × Slot
finish_failure config n response failure now s =
    let words = truncate failure.message in
    let last = is_permanent failure.kind || leb config.max_attempts s.row.attempts in
    let state = if last then quarantined else pending in
    (
      record {
        state = state;
        terminal = last;
        stale = false;
        retry_after = if last then pos 0 else retry_delay config n;
      },
      record {
        row = record s.row {
          state = state;
          active_attempt_no = none;
          next_attempt_at = if last then none else some (now +ℤ retry_delay config n);
          last_error = some words;
          provider_response = some (truncate response);
          updated_at = now;
        };
        attempts =
            update_attempt n (λ _. true)
              (λ a. record a {
                state = if last then attempt_quarantined else failed;
                failure_kind = some failure.kind;
                error_message = some words;
                provider_response = some (truncate response);
                completed_at = some now;
              })
              s.attempts;
        quarantine = if last then some words else s.quarantine;
      },
    )

abbrev pub finish_active :
    Config → ℕ → String → Option DeliveryError → Time → Slot → FinishResult × Slot
finish_active config n response none now s = finish_success n response now s
finish_active config n response (some failure) now s =
    finish_failure config n response failure now s

abbrev pub finish_current :
    Config → ℕ → String → Option DeliveryError → Time → Slot → FinishResult × Slot
finish_current config n response failure now s =
    if is_terminal s.row.state
    then (record { state = s.row.state; terminal = true; stale = false; retry_after = pos 0 }, s)
    else finish_active config n response failure now s

-- `FinishAttempt`, for a delivery that is found.
unfoldable pub finish_slot :
    Config → ℕ → String → Option DeliveryError → Time → Slot → FinishResult × Slot
unfolding finish_stale finish_success finish_failure retry_delay
finish_slot config n response failure now s =
    if not (is_active n s.row.active_attempt_no)
    then finish_stale n response failure now s
    else finish_current config n response failure now s
