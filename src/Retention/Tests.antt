-- ===== src/Retention/Tests.antt =====
-- A sweep of internal/retention/retention.go in batches of two.
use signa.Prelude.{ℕ, ◌≡◌, refl, false, none, some, List, [], ◌∷◌, arith}
use signa.Prelude.Int.{pos}
use signa.Prelude.Time.{Time}
use signa.Retention.{sweep_from, Swept, Turn, expired_count, exec_batch, sweep_batches}
use signa.Retention.Sweeping.{sweep_batches-Stopped, Stopped}

abbrev calm_turn : ℕ → Turn
calm_turn i = record { cancelled = false; fails = false }

abbrev times : List Time
times = pos 1 ∷ pos 9 ∷ pos 2 ∷ pos 3 ∷ []

abbrev swept : Swept
swept = record { total = 3; error = none; rows = pos 9 ∷ [] }

times-swept : sweep_batches calm_turn (pos 5) 2 times ≡ some swept
unfolding sweep_batches sweep_from exec_batch expired_count
times-swept = refl

sweep_batches-Stopped_example : Stopped (pos 5) 0 times (sweep_batches calm_turn (pos 5) 2 times)
sweep_batches-Stopped_example = sweep_batches-Stopped calm_turn (pos 5) 2 times (omega arith)
