-- ===== src/Delivery/Runs.antt =====
-- Sequences of the transactions of internal/delivery/store.go on one delivery, in any order and by any
-- number of workers: the row lock of `FOR UPDATE` puts them one after the other.
-- The calls of the adapter that a start asks its worker for.
use signa.Delivery.{
  Error, Slot, StartResult, DeliveryError, is_terminal, FinishResult, Request, Config,
}
use signa.Delivery.Attempts.{has_attempt}
use signa.Delivery.Finish.{
  is_active, finish_success, finish_failure, finish_slot, finish_active, finish_stale,
}
use signa.Delivery.Invariant.{Consistent}
use signa.Delivery.Invariant.Finishes.{finish_slot-Consistent}
use signa.Delivery.Invariant.Starts.{start_slot-Consistent}
use signa.Delivery.Start.{
  backoff_left, skip, claim, exhaust, lease_left, start_unleased, is_other, start_slot,
}
use signa.Prelude.{
  ℕ, ◌+◌, ◌≤◌, String, ◌≡◌, subst, if_case, option_case, refl, inl, inr, Bool, not, Option, none,
  some, arith, leb, Bool-cases,
}
use signa.Prelude.Result.{Result, ok, err}
use signa.Prelude.Time.{Time}

abbrev pub calls : StartResult → ℕ
calls r = elim r.attempt [ some a ↦ 1 | none ↦ 0 ]

pub data Step (config : Config) (s : Slot) : Slot → ℕ → Type 0 where
  start :
      (superseded : Bool) (request : Request) (now : Time) {r : StartResult} {s' : Slot}
      → start_slot config superseded request now s ≡ ok (r, s')
      → Step config s s' (calls r)
  finish :
      (n : ℕ) (response : String) (failure : Option DeliveryError) (now : Time)
      → Step config s ((finish_slot config n response failure now s).1) 0

-- `Run config s s' k`: steps lead from s to s', and k of them were starts that asked for a call.
pub data Run (config : Config) (s : Slot) : Slot → ℕ → Type 0 where
  stop : Run config s s 0
  more :
      {s1 s2 : Slot} {k m : ℕ} → Run config s s1 k → Step config s1 s2 m → Run config s s2 (k + m)

-- A start that asks for a call has counted it.
abbrev Counted : Slot → Result Error (StartResult × Slot) → Type 0
Counted s (ok (r, s')) = s.row.attempts + calls r ≤ s'.row.attempts
Counted s (err e) = Unit

abbrev Same : Slot → FinishResult × Slot → Type 0
Same s r = (r.1).row.attempts ≡ s.row.attempts

module _ (config : Config) (now : Time) where
  start_unleased-Counted :
      (superseded : Bool) (request : Request) (s : Slot)
      → Counted s (start_unleased config superseded request now s)
  unfolding exhaust skip claim
  start_unleased-Counted superseded request s =
      if_case (Counted s) (leb config.max_attempts s.row.attempts) (omega arith) (
        option_case (Counted s) (backoff_left now s.row) (λ d. omega arith)
          (elim (Bool-cases (has_attempt (s.row.attempts + 1) s.attempts)) [
            | inl taken ↦ rw taken (if_case (Counted s) superseded tt tt)
            | inr fits ↦ rw fits (if_case (Counted s) superseded (omega arith) (omega arith))
          ]))

  start_slot-Counted :
      (superseded : Bool) (request : Request) (s : Slot)
      → Counted s (start_slot config superseded request now s)
  unfolding start_slot
  start_slot-Counted superseded request s = if_case (Counted s) (is_other request s.row) tt (
      if_case (Counted s) (is_terminal s.row.state) (omega arith) (
        option_case (Counted s) (lease_left config now s.row) (λ d. omega arith)
          (start_unleased-Counted superseded request s)))

  finish_active-Same :
      (n : ℕ) (response : String) (failure : Option DeliveryError) (s : Slot)
      → Same s (finish_active config n response failure now s)
  unfolding finish_success finish_failure
  finish_active-Same n response none s = refl
  finish_active-Same n response (some e) s = refl

  finish_slot-Same :
      (n : ℕ) (response : String) (failure : Option DeliveryError) (s : Slot)
      → Same s (finish_slot config n response failure now s)
  unfolding finish_slot finish_stale
  finish_slot-Same n response failure s =
      if_case (Same s) (not (is_active n s.row.active_attempt_no)) refl
        (if_case (Same s) (is_terminal s.row.state) refl (finish_active-Same n response failure s))

module _ (config : Config) where
  Step-Consistent :
      {s s' : Slot} {k : ℕ} → Step config s s' k → Consistent config s → Consistent config s'
  Step-Consistent {s} (start superseded request now e) c =
      start_slot-Consistent config now superseded request s _ _ c e
  Step-Consistent {s} (finish n response failure now) c =
      finish_slot-Consistent config now n response failure s c

  Step-attempts : {s s' : Slot} {k : ℕ} → Step config s s' k → s.row.attempts + k ≤ s'.row.attempts
  Step-attempts {s} (start superseded request now e) =
      subst (Counted s) e (start_slot-Counted config now superseded request s)
  Step-attempts {s} (finish n response failure now) =
      rw (finish_slot-Same config now n response failure s) (omega arith)

  -- Along any sequence of starts and finishes, by any number of workers, a consistent delivery stays consistent.
  pub Run-Consistent :
      {s s' : Slot} {k : ℕ} → Run config s s' k → Consistent config s → Consistent config s'
  Run-Consistent stop c = c
  Run-Consistent (more run step) c = Step-Consistent step (Run-Consistent run c)

  Run-attempts : {s s' : Slot} {k : ℕ} → Run config s s' k → s.row.attempts + k ≤ s'.row.attempts
  Run-attempts stop = omega arith
  Run-attempts (more run step) = omega (arith, Run-attempts run, Step-attempts step)

  -- Along any sequence of starts and finishes, by any number of workers, the workers are asked for at most as many calls of the adapter as the configured maximum of attempts leaves for the delivery.
  pub Run-calls :
      {s s' : Slot} {k : ℕ}
      → Run config s s' k
      → Consistent config s
      → s.row.attempts + k ≤ config.max_attempts
  Run-calls run c = let kept = Run-Consistent run c in omega (arith, Run-attempts run, kept.bounded)
