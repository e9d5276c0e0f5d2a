-- ===== src/Delivery/Invariant.antt =====
-- The invariant of a delivery between the transactions of internal/delivery/store.go.
pub mod Starts
pub mod Finishes
use signa.Delivery.{Config, quarantined, is_in_flight, AttemptRow, State, Slot, is_terminal}
use signa.Delivery.Attempts.{update_attempt, has_attempt}
use signa.Prelude.{
  ℕ, ◌-◌, ◌≤◌, ◌<◌, ◌≡◌, refl, ◌∙◌, Bool, true, false, Option, none, some, List, [], ◌∷◌, arith,
  ◌==◌, if-ap, if_same, is_some,
}

abbrev pub is_quarantined : State → Bool
is_quarantined quarantined = true
is_quarantined _ = false

-- The active attempt, if any, is the newest one.
abbrev pub is_newest : Option ℕ → ℕ → Bool
is_newest none n = true
is_newest (some m) n = m == n

-- The attempts have the numbers from n down to 1.
unfoldable pub Numbered : ℕ → List AttemptRow → Type 0
Numbered n [] = n ≡ 0
Numbered n (a ∷ rows) = (a.attempt_no ≡ n) × (0 < n) × Numbered (n - 1) rows

pub record Consistent (config : Config) (s : Slot) : Type 0 where
  pub flight : is_in_flight s.row.state ≡ is_some s.row.active_attempt_no
  pub newest : is_newest s.row.active_attempt_no s.row.attempts ≡ true
  pub numbered : Numbered s.row.attempts s.attempts
  pub bounded : s.row.attempts ≤ config.max_attempts
  pub quarantine : is_quarantined s.row.state ≡ is_some s.quarantine

pub update_attempt-Numbered :
    (k : ℕ) (test : AttemptRow → Bool) (change : AttemptRow → AttemptRow)
    (kept : (a : AttemptRow) → (change a).attempt_no ≡ a.attempt_no) (n : ℕ)
    (rows : List AttemptRow)
    → Numbered n rows
    → Numbered n (update_attempt k test change rows)
unfolding update_attempt Numbered
update_attempt-Numbered k test change kept n [] h = h
update_attempt-Numbered k test change kept n (a ∷ rows) (e, p, h) = (
  if-ap (λ (x : AttemptRow). x.attempt_no) _ (change a) a
      ∙ rw (kept a) (if_same _ a.attempt_no)
      ∙ e,
  p,
  update_attempt-Numbered k test change kept (n - 1) rows h,
)

pub has_attempt-Numbered :
    (k n : ℕ) (rows : List AttemptRow) → Numbered n rows → n < k → has_attempt k rows ≡ false
unfolding has_attempt Numbered
has_attempt-Numbered k n [] h lt = refl
has_attempt-Numbered k n (a ∷ rows) (e, p, h) lt =
    let rest = has_attempt-Numbered k (n - 1) rows h (omega arith) in ground arith

pub live-not-quarantined :
    (state : State) → is_terminal state ≡ false → is_quarantined state ≡ false
live-not-quarantined state h = ground arith
