-- ===== src/Delivery/Invariant/Starts.antt =====
-- The invariant of a delivery under `StartAttempt` of internal/delivery/store.go.
use signa.Delivery.{
  Error, Slot, StartResult, Config, identity_conflict, AttemptRow, is_terminal, Request,
}
use signa.Delivery.Attempts.{has_attempt, insert_attempt}
use signa.Delivery.Invariant.{
  update_attempt-Numbered, live-not-quarantined, has_attempt-Numbered, Consistent, Numbered,
}
use signa.Delivery.Start.{
  close_expired, start_open, start_row, skip, lease_left, backoff_left, start_unleased, claim,
  is_other, exhaust, skip_row, start_slot,
}
use signa.Prelude.{
  ℕ, ◌+◌, ◌-◌, ◌<◌, ◌≡◌, subst, if_case, option_case, refl, sym, ◌∙◌, inl, inr, Bool, true, false,
  Option, none, some, List, ◌∷◌, arith, leb, ◌==◌, Bool-cases,
}
use signa.Prelude.Result.{Result, ok, err}
use signa.Prelude.Time.{Time}

close_expired-Numbered :
    (active : Option ℕ) (now : Time) (n : ℕ) (rows : List AttemptRow)
    → Numbered n rows
    → Numbered n (close_expired active now rows)
close_expired-Numbered none now n rows h = h
close_expired-Numbered (some k) now n rows h = update_attempt-Numbered k _ _ (λ _. refl) n rows h

pub ==_refl : (n : ℕ) → (n == n) ≡ true
==_refl n = ground arith

module _ (config : Config) (now : Time) where
  exhaust-Consistent : (s : Slot) → Consistent config s → Consistent config (exhaust now s)
  unfolding exhaust
  exhaust-Consistent s c = record {
    flight = refl;
    newest = refl;
    numbered =
        close_expired-Numbered s.row.active_attempt_no now s.row.attempts s.attempts c.numbered;
    bounded = c.bounded;
    quarantine = refl;
  }

  -- What is to be shown of the result of a start.
  abbrev Kept : Result Error (StartResult × Slot) → Type 0
  Kept (ok (_, s)) = Consistent config s
  Kept (err e) = e ≡ identity_conflict

  inserted :
      (a : AttemptRow) (s : Slot)
      → has_attempt a.attempt_no s.attempts ≡ false
      → insert_attempt a s ≡ ok (record s { attempts = a ∷ s.attempts })
  inserted a s h = rw h refl

  -- A new attempt gets the next number.
  next-Numbered :
      (a : AttemptRow) (s : Slot)
      → Consistent config s
      → a.attempt_no ≡ s.row.attempts + 1
      → Numbered (s.row.attempts + 1) (a ∷ s.attempts)
  unfolding Numbered
  next-Numbered a s c e =
      let back : s.row.attempts + 1 - 1 ≡ s.row.attempts = omega arith in
      (e, omega arith, rw back c.numbered)

  skip-Kept :
      (request : Request) (s : Slot)
      → Consistent config s
      → s.row.attempts < config.max_attempts
      → is_terminal s.row.state ≡ false
      → Kept (skip request now s)
  unfolding skip
  skip-Kept request s c lt live =
      rw
        (has_attempt-Numbered (s.row.attempts + 1) s.row.attempts s.attempts c.numbered
          (omega arith))
        (record {
          flight = refl;
          newest = refl;
          numbered = next-Numbered (skip_row request (s.row.attempts + 1) now) s c refl;
          bounded = omega arith;
          quarantine = sym (live-not-quarantined s.row.state live) ∙ c.quarantine;
        })

  claim-Kept :
      (request : Request) (s : Slot)
      → Consistent config s
      → s.row.attempts < config.max_attempts
      → is_terminal s.row.state ≡ false
      → Kept (claim request now s)
  unfolding claim
  claim-Kept request s c lt live =
      rw
        (has_attempt-Numbered (s.row.attempts + 1) s.row.attempts s.attempts c.numbered
          (omega arith))
        (record {
          flight = refl;
          newest = ==_refl (s.row.attempts + 1);
          numbered = next-Numbered (start_row request (s.row.attempts + 1) now) s c refl;
          bounded = omega arith;
          quarantine = sym (live-not-quarantined s.row.state live) ∙ c.quarantine;
        })

  start_unleased-Kept :
      (superseded : Bool) (request : Request) (s : Slot)
      → Consistent config s
      → is_terminal s.row.state ≡ false
      → Kept (start_unleased config superseded request now s)
  start_unleased-Kept superseded request s c live =
      elim (Bool-cases (leb config.max_attempts s.row.attempts)) [
        | inl full ↦ rw full (exhaust-Consistent s c)
        | inr room ↦
            let lt : s.row.attempts < config.max_attempts = ground arith in
            rw room (
              option_case Kept (backoff_left now s.row) (λ d. c)
                (if_case Kept superseded (skip-Kept request s c lt live)
                  (claim-Kept request s c lt live)))
      ]

  start_open-Kept :
      (superseded : Bool) (request : Request) (s : Slot)
      → Consistent config s
      → Kept (start_open config superseded request now s)
  start_open-Kept superseded request s c = elim (Bool-cases (is_terminal s.row.state)) [
    | inl over ↦ rw over c
    | inr live ↦ rw live (
        option_case Kept (lease_left config now s.row) (λ d. c)
          (start_unleased-Kept superseded request s c live))
  ]

  start_slot-Kept :
      (superseded : Bool) (request : Request) (s : Slot)
      → Consistent config s
      → Kept (start_slot config superseded request now s)
  unfolding start_slot
  start_slot-Kept superseded request s c =
      if_case Kept (is_other request s.row) refl (start_open-Kept superseded request s c)

  -- From a consistent delivery `StartAttempt` fails only with an identity conflict: the unique constraint on the numbers of the attempts never refuses the new attempt.
  pub start_slot-identity_conflict :
      (superseded : Bool) (request : Request) (s : Slot) (e : Error)
      → Consistent config s
      → start_slot config superseded request now s ≡ err e
      → e ≡ identity_conflict
  start_slot-identity_conflict superseded request s e c h =
      subst Kept h (start_slot-Kept superseded request s c)

  -- A start that succeeds on a consistent delivery, with whatever result, leaves it consistent.
  pub start_slot-Consistent :
      (superseded : Bool) (request : Request) (s s' : Slot) (r : StartResult)
      → Consistent config s
      → start_slot config superseded request now s ≡ ok (r, s')
      → Consistent config s'
  start_slot-Consistent superseded request s s' r c h =
      subst Kept h (start_slot-Kept superseded request s c)
