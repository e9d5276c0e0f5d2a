-- ===== src/Delivery/Invariant/Finishes.antt =====
-- The invariant of a delivery under `FinishAttempt` of internal/delivery/store.go.
use signa.Delivery.{
  Slot, FinishResult, is_in_flight, truncate, DeliveryError, Config, pending, is_terminal,
  quarantined,
}
use signa.Delivery.Finish.{
  is_active, finish_success, finish_slot, finish_stale, is_permanent, finish_failure,
  finish_current, finish_active,
}
use signa.Delivery.Invariant.{
  update_attempt-Numbered, live-not-quarantined, is_quarantined, Consistent,
}
use signa.Prelude.{
  ℕ, String, ◌≡◌, if_case, refl, sym, ◌∙◌, inl, inr, Bool, true, false, not, ◌||◌, Option, none,
  some, leb, if◌then◌else◌, Bool-cases, is_some,
}
use signa.Prelude.Time.{Time}

quarantine_both :
    (b : Bool) (words : String) (old : Option String)
    → false ≡ is_some old
    → is_quarantined (if b then quarantined else pending) ≡ is_some (if b then some words else old)
quarantine_both true words old e = refl
quarantine_both false words old e = e

module _ (config : Config) (now : Time) where
  finish_success-Consistent :
      (n : ℕ) (response : String) (s : Slot)
      → Consistent config s
      → is_terminal s.row.state ≡ false
      → Consistent config ((finish_success n response now s).1)
  unfolding finish_success
  finish_success-Consistent n response s c live = record {
    flight = refl;
    newest = refl;
    numbered = update_attempt-Numbered n _ _ (λ _. refl) s.row.attempts s.attempts c.numbered;
    bounded = c.bounded;
    quarantine = sym (live-not-quarantined s.row.state live) ∙ c.quarantine;
  }

  finish_failure-Consistent :
      (n : ℕ) (response : String) (failure : DeliveryError) (s : Slot)
      → Consistent config s
      → is_terminal s.row.state ≡ false
      → Consistent config ((finish_failure config n response failure now s).1)
  unfolding finish_failure
  finish_failure-Consistent n response failure s c live =
      let before = sym (live-not-quarantined s.row.state live) ∙ c.quarantine in
      record {
        flight =
            if_case (λ q. is_in_flight q ≡ false)
              (is_permanent failure.kind || leb config.max_attempts s.row.attempts) refl refl;
        newest = refl;
        numbered = update_attempt-Numbered n _ _ (λ _. refl) s.row.attempts s.attempts c.numbered;
        bounded = c.bounded;
        quarantine =
            quarantine_both (is_permanent failure.kind || leb config.max_attempts s.row.attempts)
              (truncate failure.message) s.quarantine before;
      }

  finish_active-Consistent :
      (n : ℕ) (response : String) (failure : Option DeliveryError) (s : Slot)
      → Consistent config s
      → is_terminal s.row.state ≡ false
      → Consistent config ((finish_active config n response failure now s).1)
  finish_active-Consistent n response none s c live = finish_success-Consistent n response s c live
  finish_active-Consistent n response (some e) s c live =
      finish_failure-Consistent n response e s c live

  finish_current-Consistent :
      (n : ℕ) (response : String) (failure : Option DeliveryError) (s : Slot)
      → Consistent config s
      → Consistent config ((finish_current config n response failure now s).1)
  finish_current-Consistent n response failure s c = elim (Bool-cases (is_terminal s.row.state)) [
    | inl over ↦ rw over c
    | inr live ↦ rw live (finish_active-Consistent n response failure s c live)
  ]

  -- Whatever the adapter answered and whichever attempt it answers for, `FinishAttempt` leaves a consistent delivery consistent.
  pub finish_slot-Consistent :
      (n : ℕ) (response : String) (failure : Option DeliveryError) (s : Slot)
      → Consistent config s
      → Consistent config ((finish_slot config n response failure now s).1)
  unfolding finish_slot finish_stale
  finish_slot-Consistent n response failure s c =
      if_case (λ (r : FinishResult × Slot). Consistent config (r.1))
        (not (is_active n s.row.active_attempt_no))
        (record {
          flight = c.flight;
          newest = c.newest;
          numbered = update_attempt-Numbered n _ _ (λ _. refl) s.row.attempts s.attempts c.numbered;
          bounded = c.bounded;
          quarantine = c.quarantine;
        })
        (finish_current-Consistent n response failure s c)
