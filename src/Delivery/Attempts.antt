-- ===== src/Delivery/Attempts.antt =====
-- internal/delivery/store.go: the rows of `delivery_attempts` of one delivery, with the newest first.
use signa.Delivery.{Error, AttemptState, AttemptRow, Slot, stale, duplicate_attempt, started}
use signa.Prelude.{ℕ, Bool, true, false, ◌&&◌, ◌||◌, List, [], ◌∷◌, ◌==◌, if◌then◌else◌}
use signa.Prelude.Result.{Result, ok, err}

abbrev pub is_started : AttemptState → Bool
is_started started = true
is_started _ = false

abbrev pub is_open : AttemptState → Bool
is_open started = true
is_open stale = true
is_open _ = false

-- `UPDATE delivery_attempts ... WHERE attempt_no = n AND <test on the row>`.
unfoldable pub update_attempt :
    ℕ → (AttemptRow → Bool) → (AttemptRow → AttemptRow) → List AttemptRow → List AttemptRow
update_attempt n test change [] = []
update_attempt n test change (a ∷ rows) =
    (if a.attempt_no == n && test a then change a else a) ∷ update_attempt n test change rows

unfoldable pub has_attempt : ℕ → List AttemptRow → Bool
has_attempt n [] = false
has_attempt n (a ∷ rows) = a.attempt_no == n || has_attempt n rows

-- `INSERT INTO delivery_attempts`, which the constraint `delivery_attempts_unique_attempt` may refuse.
abbrev pub insert_attempt : AttemptRow → Slot → Result Error Slot
insert_attempt a s =
    if has_attempt a.attempt_no s.attempts
    then err duplicate_attempt
    else ok (record s { attempts = a ∷ s.attempts })
