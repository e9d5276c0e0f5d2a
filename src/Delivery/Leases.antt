-- ===== src/Delivery/Leases.antt =====
-- When internal/delivery/store.go starts an attempt: the lease of the last one, and the delay after a
-- failure.
use signa.Delivery.{
  Error, Request, Slot, is_terminal, Config, in_flight, Attempt, StartResult, State, Row,
}
use signa.Delivery.Attempts.{has_attempt}
use signa.Delivery.Start.{
  is_other, start_slot, skip, backoff_left, exhaust, lease_left, wait_for, claim,
}
use signa.Prelude.{
  ◌+◌, ◌≡◌, subst, if_case, option_case, refl, ◌≢◌, ◌⊎◌, inl, inr, Bool, true, false, none, some,
  arith, leb, Bool-cases, is_some,
}
use signa.Prelude.Int.{pos, ◌-ℤ◌, ◌<ℤ◌, ltb_ℤ}
use signa.Prelude.Result.{Result, ok, err}
use signa.Prelude.Time.{Time, sub, wrap}

abbrev pub asks : Attempt → StartResult
asks a = record { attempt = some a; terminal = false; not_due = false; retry_after = pos 0 }

-- What a start that asks for a call has written.
abbrev Claims : Request → Time → Slot → Result Error (StartResult × Slot) → Type 0
Claims request now s (err e) = Unit
Claims request now s (ok (r, s')) =
    (r.attempt ≡ none)
    ⊎ ((s'.row.state ≡ in_flight)
        × (is_some s'.row.active_attempt_no ≡ true)
        × (s'.row.last_attempt_at ≡ some now)
        × (s'.row.alert_id ≡ s.row.alert_id)
        × (s'.row.idempotency_key ≡ s.row.idempotency_key))

module _ (config : Config) where
  start_slot-Claims :
      (now : Time) (superseded : Bool) (request : Request) (s : Slot)
      → Claims request now s (start_slot config superseded request now s)
  unfolding start_slot exhaust skip claim
  start_slot-Claims now superseded request s =
      let C = Claims request now s in
      if_case C (is_other request s.row) tt (
        if_case C (is_terminal s.row.state) (inl refl) (
          option_case C (lease_left config now s.row) (λ d. inl refl)
            (if_case C (leb config.max_attempts s.row.attempts) (inl refl) (
              option_case C (backoff_left now s.row) (λ d. inl refl)
                (elim (Bool-cases (has_attempt (s.row.attempts + 1) s.attempts)) [
                  | inl taken ↦ rw taken (if_case C superseded tt tt)
                  | inr fits ↦
                      rw fits (if_case C superseded (inl refl) (inr (refl, refl, refl, refl, refl)))
                ])))))

  lease_left-held :
      (later now : Time) (row : Row)
      → row.state ≡ in_flight
      → is_some row.active_attempt_no ≡ true
      → row.last_attempt_at ≡ some now
      → sub later now <ℤ config.lease
      → lease_left config later row ≡ some (wrap (config.lease -ℤ sub later now))
  unfolding lease_left
  lease_left-held later now row flight active last early =
      let early_b : ltb_ℤ (sub later now) config.lease ≡ true = ground arith in
      rw (flight, last, active, early_b) refl

  live-in_flight : (state : State) → state ≡ in_flight → is_terminal state ≡ false
  live-in_flight state e = rw e refl

  -- While the lease lasts, a worker is told to wait.
  start_slot-lease :
      (later now : Time) (superseded : Bool) (request : Request) (s : Slot)
      → is_other request s.row ≡ false
      → s.row.state ≡ in_flight
      → is_some s.row.active_attempt_no ≡ true
      → s.row.last_attempt_at ≡ some now
      → sub later now <ℤ config.lease
      → start_slot config superseded request later s
        ≡ ok (wait_for (wrap (config.lease -ℤ sub later now)), s)
  unfolding start_slot
  start_slot-lease later now superseded request s same flight active last early =
      rw
        (
          same,
          live-in_flight s.row.state flight,
          lease_left-held later now s.row flight active last early,
        )
        refl

  -- At most one worker holds a delivery: after a start that asked a worker for a call at the time `now`, any start of the same delivery less than the lease after `now` asks for nothing, changes nothing, and tells its worker to come back after the rest of the lease, a difference of `int64`.
  pub start_slot-start_slot :
      (now later : Time) (superseded superseded2 : Bool) (request request2 : Request) (s s1 : Slot)
      (r : StartResult)
      → start_slot config superseded request now s ≡ ok (r, s1)
      → r.attempt ≢ none
      → is_other request2 s.row ≡ false
      → sub later now <ℤ config.lease
      → start_slot config superseded2 request2 later s1
        ≡ ok (wait_for (wrap (config.lease -ℤ sub later now)), s1)
  start_slot-start_slot now later superseded superseded2 request request2 s s1 r e asked same
        early =
      elim (subst (Claims request now s) e (start_slot-Claims now superseded request s)) [
        | inl nothing ↦ absurd (asked nothing)
        | inr (flight, active, last, alert, key) ↦
            start_slot-lease later now superseded2 request2 s1 (rw (alert, key) same) flight active
              last early
      ]
