-- ===== src/Delivery/Retries.antt =====
-- The retry of internal/delivery/store.go: how long it waits after a failure, and what comes then.
use native.Mathlib.Omega.{pow_step}
use signa.Delivery.{
  Slot, DeliveryError, Config, is_in_flight, is_terminal, transient, State, Request, pending, Row,
  Attempt,
}
use signa.Delivery.Finish.{finish_slot, is_permanent, retry_delay, finish_failure}
use signa.Delivery.Invariant.{Consistent, has_attempt-Numbered}
use signa.Delivery.Invariant.Finishes.{finish_slot-Consistent}
use signa.Delivery.Invariant.Starts.{==_refl}
use signa.Delivery.Leases.{asks}
use signa.Delivery.Processor.{later}
use signa.Delivery.Start.{
  is_other, lease_left, wait_for, backoff_left, claim, start_slot, start_due,
}
use signa.Prelude.{
  ℕ, ◌-◌, ◌*◌, ◌^◌, ◌≤◌, ◌<◌, min, String, ◌≡◌, refl, ap, ◌∙◌, true, false, ◌||◌, some, arith, leb,
  is_some, zero, suc, ◌+◌, subst, none, option_case, Bool,
}
use signa.Prelude.Int.{pos, ◌+ℤ◌, ◌≤ℤ◌, ◌<ℤ◌, ltb_ℤ}
use signa.Prelude.Result.{ok}
use signa.Prelude.Time.{times_exact, Time, sub}

power_grow : (b k d : ℕ) → b * 2 ^ k ≤ b * 2 ^ (d + k)
power_grow b k zero = let same : 0 + k ≡ k = omega arith in rw same (omega arith)
power_grow b k (suc d) =
    let next : suc d + k ≡ suc (d + k) = omega arith in
    rw (next, pow_step 2 (d + k)) (omega (arith, power_grow b k d))

power_bound : (b k : ℕ) → k ≤ 20 → b * 2 ^ 20 < 2 ^ 63 → b * 2 ^ k < 2 ^ 63
power_bound b k h small =
    let full : 20 - k + k ≡ 20 = omega arith in
    omega (arith, subst (λ e. b * 2 ^ k ≤ b * 2 ^ e) full (power_grow b k (20 - k)))

flight-live : (state : State) → is_in_flight state ≡ true → is_terminal state ≡ false
flight-live state h = ground arith

-- With a backoff of b nanoseconds that is not above about two and a half hours, the delay after attempt n is exactly b times 2 to the power of n - 1, or of 20 if that is less: the multiplication does not overflow.
pub retry_delay_exact :
    (config : Config) (b n : ℕ)
    → config.backoff ≡ pos b
    → b * 2 ^ 20 < 2 ^ 63
    → retry_delay config n ≡ pos (b * 2 ^ min (n - 1) 20)
unfolding retry_delay
retry_delay_exact config b n e small =
    rw e (times_exact b (2 ^ min (n - 1) 20) (power_bound b (min (n - 1) 20) (omega arith) small))

module _ (config : Config) (later : Time) (request : Request) (x : Slot) where
  lease_left-pending : x.row.state ≡ pending → lease_left config later x.row ≡ none
  unfolding lease_left
  lease_left-pending e = option_case (λ o. o ≡ none) x.row.last_attempt_at (λ last. rw e refl) refl

  pending-live : (state : State) → state ≡ pending → is_terminal state ≡ false
  pending-live state e = rw e refl

  start_slot-pending :
      (superseded : Bool)
      → is_other request x.row ≡ false
      → x.row.state ≡ pending
      → x.row.attempts < config.max_attempts
      → start_slot config superseded request later x ≡ elim (backoff_left later x.row) [
        | some d ↦ ok (wait_for d, x)
        | none ↦ start_due superseded request later x
      ]
  unfolding start_slot
  start_slot-pending superseded same idle room =
      let fits : leb config.max_attempts x.row.attempts ≡ false = ground arith in
      rw (same, pending-live x.row.state idle, lease_left-pending idle, fits) refl

  claim-asks :
      Consistent config x
      → (a : Attempt) × (x' : Slot) × (claim request later x ≡ ok (asks a, x'))
        × (a.attempt ≡ x.row.attempts + 1)
  unfolding claim
  claim-asks c =
      rw
        (has_attempt-Numbered (x.row.attempts + 1) x.row.attempts x.attempts c.numbered
          (omega arith))
        (_, _, refl, refl)

backoff_left-early :
    (later next : Time) (row : Row)
    → row.next_attempt_at ≡ some next
    → later <ℤ next
    → backoff_left later row ≡ some (sub next later)
unfolding backoff_left
backoff_left-early later next row e early =
    let early_b : ltb_ℤ later next ≡ true = ground arith in rw (e, early_b) refl

backoff_left-due :
    (later next : Time) (row : Row)
    → row.next_attempt_at ≡ some next
    → next ≤ℤ later
    → backoff_left later row ≡ none
unfolding backoff_left
backoff_left-due later next row e late =
    let late_b : ltb_ℤ later next ≡ false = ground arith in rw (e, late_b) refl

module _ (config : Config) (now : Time) (s : Slot) (response : String) (failure : DeliveryError)
    (request : Request) (c : Consistent config s) (n : ℕ)
    (active : s.row.active_attempt_no ≡ some n) (passing : failure.kind ≡ transient)
    (room : s.row.attempts < config.max_attempts) (same : is_other request s.row ≡ false) where
  due : Time
  due = now +ℤ retry_delay config n

  after : Slot
  after = (finish_failure config n response failure now s).1

  live : is_terminal s.row.state ≡ false
  live = flight-live s.row.state (c.flight ∙ ap is_some active)

  not_last : (is_permanent failure.kind || leb config.max_attempts s.row.attempts) ≡ false
  not_last = rw passing (ground arith)

  finished : (finish_slot config n response (some failure) now s).1 ≡ after
  unfolding finish_slot after
  finished = rw (active, live, ==_refl n) refl

  after-Consistent : Consistent config after
  after-Consistent =
      subst (Consistent config) finished
        (finish_slot-Consistent config now n response (some failure) s c)

  after_row :
      (after.row.state ≡ pending)
      × (after.row.active_attempt_no ≡ none)
      × (after.row.next_attempt_at ≡ some due)
      × (after.row.attempts ≡ s.row.attempts)
  unfolding after finish_failure due
  after_row = rw not_last (refl, refl, refl, refl)

  after_same : is_other request after.row ≡ false
  unfolding after finish_failure
  after_same = same

  -- After an attempt n that failed in passing, with attempts left, the delivery waits for `retry_delay`: a start before the failure's time plus that delay asks for nothing, changes nothing and tells its worker how long is left.
  pub finish_slot-start_slot_early :
      (superseded : Bool) (later : Time)
      → later <ℤ now +ℤ retry_delay config n
      → start_slot config superseded request later
          ((finish_slot config n response (some failure) now s).1)
        ≡ ok (
          wait_for (sub (now +ℤ retry_delay config n) later),
          (finish_slot config n response (some failure) now s).1,
        )
  unfolding due
  finish_slot-start_slot_early superseded later early =
      let (idle, _, next, count) = after_row in
      let left : after.row.attempts < config.max_attempts = rw count room in
      rw
        (
          finished,
          start_slot-pending config later request after superseded after_same idle left,
          backoff_left-early later due after.row next early,
        )
        refl

  -- From the failure's time plus `retry_delay` on, a start of a delivery whose last attempt failed in passing, with attempts left and an alert that is not superseded, asks its worker for the next attempt.
  pub finish_slot-start_slot_due :
      (later : Time)
      → now +ℤ retry_delay config n ≤ℤ later
      → (a : Attempt) × (s' : Slot) × (start_slot config false request later
            ((finish_slot config n response (some failure) now s).1)
          ≡ ok (asks a, s'))
        × (a.attempt ≡ s.row.attempts + 1)
  unfolding due
  finish_slot-start_slot_due later late =
      let (idle, _, next, count) = after_row in
      let left : after.row.attempts < config.max_attempts = rw count room in
      let (a, s', e, next_no) = claim-asks config later request after after-Consistent in
      (
        a,
        s',
        rw
            (
              finished,
              start_slot-pending config later request after false after_same idle left,
              backoff_left-due later due after.row next late,
            )
            e,
        next_no ∙ ap (λ k. k + 1) count,
      )
