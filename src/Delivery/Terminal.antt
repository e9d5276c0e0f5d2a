-- ===== src/Delivery/Terminal.antt =====
-- The states of internal/delivery that end a delivery, under its transactions.
-- The row of the delivery and its quarantine stay; only a stale attempt may still get its answer noted.
use signa.Delivery.{
  Error, Request, FinishResult, Slot, is_terminal, Config, DeliveryError, Row, StartResult,
}
use signa.Delivery.Finish.{is_active, finish_slot, finish_stale}
use signa.Delivery.Runs.{Run, calls, more, stop, start, finish, Step}
use signa.Delivery.Start.{is_other, start_slot, done}
use signa.Prelude.{
  ℕ, String, ◌≡◌, subst, if_case, refl, ap, ◌∙◌, Bool, true, false, not, Option, arith,
}
use signa.Prelude.Result.{Result, ok, err}
use signa.Prelude.Time.{Time}

abbrev Unmoved : Slot → FinishResult × Slot → Type 0
Unmoved s r = ((r.1).row ≡ s.row) × ((r.1).quarantine ≡ s.quarantine)

abbrev Ended : Slot → Result Error (StartResult × Slot) → Type 0
Ended s (ok (r, s')) = (r ≡ done) × (s' ≡ s)
Ended s (err e) = Unit

module _ (config : Config) (now : Time) (s : Slot) (over : is_terminal s.row.state ≡ true) where
  start_slot-Ended :
      (superseded : Bool) (request : Request) → Ended s (start_slot config superseded request now s)
  unfolding start_slot
  start_slot-Ended superseded request =
      if_case (Ended s) (is_other request s.row) tt (rw over (refl, refl))

  finish_slot-Unmoved :
      (n : ℕ) (response : String) (failure : Option DeliveryError)
      → Unmoved s (finish_slot config n response failure now s)
  unfolding finish_slot finish_stale
  finish_slot-Unmoved n response failure =
      if_case (Unmoved s) (not (is_active n s.row.active_attempt_no)) (refl, refl)
        (rw over (refl, refl))

-- An answer for an attempt that is not the active one, because its lease expired and another attempt took over or the delivery ended, is noted on that attempt only: the delivery's row and its quarantine stay as they are, and the worker is told that it was stale.
pub finish_slot_stale :
    (config : Config) (now : Time) (s : Slot) (n : ℕ) (response : String)
    (failure : Option DeliveryError)
    → is_active n s.row.active_attempt_no ≡ false
    → ((finish_slot config n response failure now s).0.stale ≡ true)
      × Unmoved s (finish_slot config n response failure now s)
unfolding finish_slot finish_stale
finish_slot_stale config now s n response failure late = rw late (refl, (refl, refl))

module _ (config : Config) where
  Step-Unmoved :
      {s s' : Slot} {k : ℕ}
      → Step config s s' k
      → is_terminal s.row.state ≡ true
      → (s'.row ≡ s.row) × (s'.quarantine ≡ s.quarantine) × (k ≡ 0)
  Step-Unmoved {s} (start superseded request now e) over =
      let (r, same) = subst (Ended s) e (start_slot-Ended config now s over superseded request) in
      (ap (λ (x : Slot). x.row) same, ap (λ (x : Slot). x.quarantine) same, ap calls r)
  Step-Unmoved {s} (finish n response failure now) over =
      let (row, quarantine) = finish_slot-Unmoved config now s over n response failure in
      (row, quarantine, refl)

  -- A delivery that succeeded, was quarantined or was skipped stays so: no sequence of starts and finishes changes its row or its quarantine, and none asks a worker for another call of the adapter.
  pub Run-Unmoved :
      {s s' : Slot} {k : ℕ}
      → Run config s s' k
      → is_terminal s.row.state ≡ true
      → (s'.row ≡ s.row) × (s'.quarantine ≡ s.quarantine) × (k ≡ 0)
  Run-Unmoved stop over = (refl, refl, refl)
  Run-Unmoved {s} (more {s1} run step) over =
      let (row, quarantine, none_asked) = Run-Unmoved run over in
      let (row2, quarantine2, none_asked2) =
        Step-Unmoved step (ap (λ (x : Row). is_terminal x.state) row ∙ over) in
      (row2 ∙ row, quarantine2 ∙ quarantine, omega arith)
