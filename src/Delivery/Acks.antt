-- ===== src/Delivery/Acks.antt =====
-- When internal/delivery acknowledges a message.
-- The attempt that a start asks for, if any, is one of the delivery `id`.
use signa.Delivery.{
  Error, Slot, Attempt, FinishResult, Config, StartResult, is_terminal, DeliveryError, Request,
}
use signa.Delivery.Attempts.{has_attempt}
use signa.Delivery.Finish.{
  is_active, finish_success, finish_active, finish_failure, finish_slot, finish_stale,
}
use signa.Delivery.Processor.{
  ProcessResult, acked, finished_result, continue_process, RequestBody, World, later, process,
  parse_request, deliver_attempt,
}
use signa.Delivery.Start.{skip, is_other, claim, exhaust, lease_left, backoff_left, start_slot}
use signa.Delivery.Store.{Deliveries, find, finish_attempt, find-put, start_attempt, settle}
use signa.Prelude.{
  ℕ, ◌+◌, String, ◌≡◌, if_case, option_case, refl, inl, inr, Bool, true, false, not, Option, none,
  some, leb, Bool-cases, Option-cases, subst, if◌then◌else◌,
}
use signa.Prelude.Result.{Result, ok, err, Result-cases}
use signa.Prelude.Time.{Time, Duration}
use signa.Stream.{Fields}

abbrev IsFor : String → Option Attempt → Type 0
IsFor id none = Unit
IsFor id (some a) = a.delivery_id ≡ id

abbrev StartEnds : String → Result Error (StartResult × Slot) → Type 0
StartEnds id (ok (r, s)) = (r.terminal ≡ true → is_terminal s.row.state ≡ true) × IsFor id r.attempt
StartEnds id (err e) = Unit

abbrev FinishEnds : FinishResult × Slot → Type 0
FinishEnds (r, s) = r.terminal ≡ true → is_terminal s.row.state ≡ true

module _ (config : Config) (now : Time) where
  start_slot-StartEnds :
      (superseded : Bool) (request : Request) (s : Slot)
      → StartEnds request.delivery_id (start_slot config superseded request now s)
  unfolding start_slot exhaust skip claim
  start_slot-StartEnds superseded request s =
      let E = StartEnds request.delivery_id in
      if_case E (is_other request s.row) tt (elim (Bool-cases (is_terminal s.row.state)) [
        | inl over ↦ rw over ((λ _. over), tt)
        | inr live ↦ rw live (
            option_case E (lease_left config now s.row) (λ d. ((λ e. absurd (cc)), tt))
              (if_case E (leb config.max_attempts s.row.attempts) ((λ _. refl), tt)
                (option_case E (backoff_left now s.row) (λ d. ((λ e. absurd (cc)), tt))
                  (elim (Bool-cases (has_attempt (s.row.attempts + 1) s.attempts)) [
                    | inl taken ↦ rw taken (if_case E superseded tt tt)
                    | inr fits ↦
                        rw fits (if_case E superseded ((λ _. refl), tt) ((λ e. absurd (cc)), refl))
                  ]))))
      ])

  finish_active-FinishEnds :
      (n : ℕ) (response : String) (failure : Option DeliveryError) (s : Slot)
      → FinishEnds (finish_active config n response failure now s)
  unfolding finish_success finish_failure
  finish_active-FinishEnds n response none s _ = refl
  finish_active-FinishEnds n response (some failure) s last = rw last refl

  finish_slot-FinishEnds :
      (n : ℕ) (response : String) (failure : Option DeliveryError) (s : Slot)
      → FinishEnds (finish_slot config n response failure now s)
  unfolding finish_slot finish_stale
  finish_slot-FinishEnds n response failure s =
      if_case FinishEnds (not (is_active n s.row.active_attempt_no)) (λ e. absurd (cc))
        (elim (Bool-cases (is_terminal s.row.state)) [
          | inl over ↦ rw over (λ _. over)
          | inr live ↦ rw live (finish_active-FinishEnds n response failure s)
        ])

-- The delivery `id` is stored, and it has ended.
abbrev pub HasEnded : String → Deliveries → Type 0
HasEnded id store = (s : Slot) × (find id store ≡ some s) × (is_terminal s.row.state ≡ true)

-- The answer is an acknowledgement only if the delivery has ended.
abbrev AcksEnded : String → Result Error ProcessResult × Deliveries → Type 0
AcksEnded id (err e, store) = Unit
AcksEnded id (ok r, store) = r.ack ≡ true → HasEnded id store

abbrev NotAcked : Result Error ProcessResult × Deliveries → Type 0
NotAcked (err e, store) = Unit
NotAcked (ok r, store) = r.ack ≡ false

-- The same of the two transactions.
abbrev StartsEnded : String → Result Error StartResult × Deliveries → Type 0
StartsEnded id (err e, store) = Unit
StartsEnded id (ok r, store) = (r.terminal ≡ true → HasEnded id store) × IsFor id r.attempt

abbrev FinishesEnded : String → Result Error FinishResult × Deliveries → Type 0
FinishesEnded id (err e, store) = Unit
FinishesEnded id (ok r, store) = r.terminal ≡ true → HasEnded id store

module _ (config : Config) where
  settle-StartsEnded :
      (id : String) (store : Deliveries) (old : Slot) (r : Result Error (StartResult × Slot))
      → find id store ≡ some old
      → StartEnds id r
      → StartsEnded id (settle id store r)
  settle-StartsEnded id store old (err e) h p = tt
  settle-StartsEnded id store old (ok (r, s)) h p =
      ((λ e. (s, find-put id s old store h, p.0 e)), p.1)

  start_attempt-StartsEnded :
      (superseded : String → Bool) (fault : Bool) (request : Request) (now : Time)
      (store : Deliveries)
      → StartsEnded request.delivery_id (start_attempt config superseded fault request now store)
  unfolding start_attempt
  start_attempt-StartsEnded superseded true request now store = tt
  start_attempt-StartsEnded superseded false request now store =
      elim (Option-cases (find request.delivery_id store)) [
        | inl gone ↦ rw gone tt
        | inr (s, found) ↦ rw found (
            settle-StartsEnded request.delivery_id store s _ found
              (start_slot-StartEnds config now (superseded request.alert_id) request s))
      ]

  finish_attempt-FinishesEnded :
      (fault : Bool) (attempt : Attempt) (response : String) (failure : Option DeliveryError)
      (now : Time) (store : Deliveries)
      → FinishesEnded attempt.delivery_id
          (finish_attempt config fault attempt response failure now store)
  unfolding finish_attempt
  finish_attempt-FinishesEnded true attempt response failure now store = tt
  finish_attempt-FinishesEnded false attempt response failure now store =
      elim (Option-cases (find attempt.delivery_id store)) [
        | inl gone ↦ rw gone tt
        | inr (s, found) ↦ rw found (λ e.
            let done = finish_slot config attempt.attempt response failure now s in
            (
              done.1,
              find-put attempt.delivery_id (done.1) s store found,
              finish_slot-FinishEnds config now attempt.attempt response failure s e,
            ))
      ]

  terminal-ack : (b : Bool) (d : Duration) → (if b then acked else later d).ack ≡ true → b ≡ true
  terminal-ack true d h = refl
  terminal-ack false d h = h

  finished-AcksEnded :
      (id : String) (r : Result Error FinishResult) (store : Deliveries)
      → FinishesEnded id (r, store)
      → AcksEnded id (finished_result r, store)
  finished-AcksEnded id (err e) store h = tt
  finished-AcksEnded id (ok r) store h = λ ack. h (terminal-ack r.terminal r.retry_after ack)

  deliver_attempt-AcksEnded :
      (world : World) (id : String) (asked : Option Attempt) (store : Deliveries)
      → IsFor id asked
      → AcksEnded id (deliver_attempt config world asked store)
  deliver_attempt-AcksEnded world id none store own = λ ack. absurd (cc)
  deliver_attempt-AcksEnded world id (some attempt) store own =
      let (response, failure) = world.deliver attempt in
      let now = world.finished_at in
      let fault = world.finish_fault in
      finished-AcksEnded id (finish_attempt config fault attempt response failure now store).0 _ (
        subst
          (λ i. FinishesEnded i (finish_attempt config fault attempt response failure now store))
          own (finish_attempt-FinishesEnded fault attempt response failure now store))

  continue_process-AcksEnded :
      (world : World) (id : String) (started : Result Error StartResult) (store : Deliveries)
      → StartsEnded id (started, store)
      → AcksEnded id (continue_process config world (started, store))
  continue_process-AcksEnded world id (err e) store h = tt
  continue_process-AcksEnded world id (ok r) store (ends, own) = elim (Bool-cases r.terminal) [
    | inl over ↦ rw over (λ _. ends over)
    | inr live ↦ rw live (
        if_case (AcksEnded id) r.not_due (λ e. absurd (cc))
          (deliver_attempt-AcksEnded world id r.attempt store own))
  ]

  -- `Process` acknowledges a message, whatever the clock, the database and the adapter do, only if the message is a delivery request whose delivery is then stored in a state that ends it: succeeded, quarantined or skipped.
  pub process-HasEnded :
      (decode : String → Option RequestBody) (backoff : Duration) (world : World) (fields : Fields)
      (store store' : Deliveries) (r : ProcessResult)
      → process decode config backoff world fields store ≡ (ok r, store')
      → r.ack ≡ true
      → (request : Request) × (parse_request decode fields ≡ ok request)
        × HasEnded request.delivery_id store'
  unfolding process
  process-HasEnded decode backoff world fields store store' r e ack =
      elim (Result-cases (parse_request decode fields)) [
        | inl (request, parsed) ↦
            let now = world.started_at in
            let fault = world.start_fault in
            let start = start_attempt config world.superseded fault request now store in
            let ended =
              continue_process-AcksEnded world request.delivery_id start.0 start.1
                (start_attempt-StartsEnded world.superseded fault request now store) in
            (
              request,
              parsed,
              subst (AcksEnded request.delivery_id) (rw (process, parsed) at e) ended ack,
            )
        | inr (bad, parsed) ↦
            let waits : r.ack ≡ false = subst NotAcked (rw (process, parsed) at e) refl in
            absurd (cc)
      ]
