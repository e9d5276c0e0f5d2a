-- ===== src/Retention.antt =====
-- internal/retention/retention.go: the policy of a sweep, and the loop that sweeps one kind of row in
-- batches. A row is the time by which its age is measured; the batch's statement takes away, or empties,
-- the first rows in the order of its query that are older than the cutoff, up to its limit.
pub mod Sweeping
pub mod Tests
use signa.Prelude.{
  ℕ, zero, suc, ◌+◌, Bool, not, ◌&&◌, Option, none, some, List, [], ◌∷◌, ltb, if◌then◌else◌,
}
use signa.Prelude.Int.{pos, ltb_ℤ}
use signa.Prelude.Time.{Time, Duration}

pub record Policy : Type 0 where
  pub report_exact_location : Duration
  pub user_location : Duration
  pub media_metadata : Duration
  pub operational_logs : Duration
  pub auth_sessions : Duration
  pub sweep_interval : Duration
  pub batch_size : ℕ

abbrev pub is_positive : Duration → Bool
is_positive d = ltb_ℤ (pos 0) d

-- `Policy.Validate`; an `int` below 1 is 0 here.
unfoldable pub is_valid_policy : Policy → Bool
is_valid_policy p =
    is_positive p.report_exact_location
    && is_positive p.user_location
    && is_positive p.media_metadata
    && is_positive p.operational_logs
    && is_positive p.auth_sessions
    && is_positive p.sweep_interval
    && not (ltb p.batch_size 1)
    && not (ltb 10_000 p.batch_size)

abbrev pub is_expired : Time → Time → Bool
is_expired cutoff row = ltb_ℤ row cutoff

abbrev pub count_one : ℕ × List Time → ℕ × List Time
count_one (n, rows) = (suc n, rows)

abbrev pub keep_row : Time → ℕ × List Time → ℕ × List Time
keep_row row (n, rows) = (n, row ∷ rows)

-- `execBatch`: how many rows it took, and the rows that stay.
unfoldable pub exec_batch : Time → ℕ → List Time → ℕ × List Time
exec_batch cutoff zero rows = (0, rows)
exec_batch cutoff (suc limit) [] = (0, [])
exec_batch cutoff (suc limit) (row ∷ rows) =
    let taken = exec_batch cutoff limit rows in
    let passed = exec_batch cutoff (suc limit) rows in
    if is_expired cutoff row then count_one taken else keep_row row passed

pub data SweepError : Type 0 where
  cancelled_sweep failed_batch : SweepError

-- Before a turn of the loop the context may be cancelled, and its batch may fail.
pub record Turn : Type 0 where
  pub cancelled : Bool
  pub fails : Bool

-- The two results of `sweepBatches`, with the rows that stay.
pub record Swept : Type 0 where
  pub total : ℕ
  pub error : Option SweepError
  pub rows : List Time

-- The loop of `sweepBatches`, from turn i on; nothing stands for running out of fuel.
unfoldable pub sweep_from : (ℕ → Turn) → Time → ℕ → ℕ → ℕ → ℕ → List Time → Option Swept
unfolding exec_batch
sweep_from turn cutoff batch_size i zero total rows = none
sweep_from turn cutoff batch_size i (suc fuel) total rows =
    let batch = exec_batch cutoff batch_size rows in
    let rest = sweep_from turn cutoff batch_size (i + 1) fuel (total + batch.0) batch.1 in
    if (turn i).cancelled
    then some (record { total = total; error = some cancelled_sweep; rows = rows })
    else if (turn i).fails
    then some (record { total = total; error = some failed_batch; rows = rows })
    else if ltb batch.0 batch_size
    then some (record { total = total + batch.0; error = none; rows = batch.1 })
    else rest

-- The rows older than the cutoff, and the others.
unfoldable pub expired_count : Time → List Time → ℕ
expired_count cutoff [] = 0
expired_count cutoff (row ∷ rows) =
    let rest = expired_count cutoff rows in if is_expired cutoff row then suc rest else rest

unfoldable pub unexpired : Time → List Time → List Time
unexpired cutoff [] = []
unexpired cutoff (row ∷ rows) =
    let rest = unexpired cutoff rows in if is_expired cutoff row then rest else row ∷ rest

-- `sweepBatches`, with one turn more than there are rows to take.
unfoldable pub sweep_batches : (ℕ → Turn) → Time → ℕ → List Time → Option Swept
unfolding sweep_from expired_count
sweep_batches turn cutoff batch_size rows =
    sweep_from turn cutoff batch_size 0 (suc (expired_count cutoff rows)) 0 rows
