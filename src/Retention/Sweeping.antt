-- ===== src/Retention/Sweeping.antt =====
-- What the loop of internal/retention/retention.go has taken when it stops.
-- What a batch of rows does with a limit.
use signa.Prelude.{
  ℕ, zero, suc, ◌+◌, ◌≤◌, ◌<◌, ◌≡◌, if_case, if_cases, refl, ap, ◌⊎◌, inl, inr, true, ◌||◌, Option,
  none, some, List, [], ◌∷◌, arith, ltb, ◌==◌, Bool-cases, is_some, ◌∙◌, ltb→lt,
}
use signa.Prelude.Time.{Time}
use signa.Retention.{
  is_expired, Swept, unexpired, sweep_batches, Turn, expired_count, sweep_from, exec_batch,
}

abbrev IsBatch : Time → ℕ → List Time → ℕ × List Time → Type 0
IsBatch cutoff limit rows (n, left) =
    (n + expired_count cutoff left ≡ expired_count cutoff rows)
    × (unexpired cutoff left ≡ unexpired cutoff rows)
    × ((expired_count cutoff left ≡ 0) ⊎ (limit ≤ n))

exec_batch-IsBatch :
    (cutoff : Time) (limit : ℕ) (rows : List Time)
    → IsBatch cutoff limit rows (exec_batch cutoff limit rows)
unfolding exec_batch expired_count unexpired
exec_batch-IsBatch cutoff zero rows = (omega arith, refl, inr (omega arith))
exec_batch-IsBatch cutoff (suc limit) [] = (refl, refl, inl refl)
exec_batch-IsBatch cutoff (suc limit) (row ∷ rows) = elim (Bool-cases (is_expired cutoff row)) [
  | inl old ↦
      let (count, kept, over) = exec_batch-IsBatch cutoff limit rows in
      rw old (
        omega arith,
        kept,
        elim over [ inl none_left ↦ inl none_left | inr full ↦ inr (omega arith) ],
      )
  | inr young ↦
      let (count, kept, over) = exec_batch-IsBatch cutoff (suc limit) rows in
      rw (young, young) (count, ap (λ r. row ∷ r) kept, over)
]

-- The sweep has stopped with what it has taken: nothing else is missing, and without an error nothing
-- old is left.
abbrev pub Stopped : Time → ℕ → List Time → Option Swept → Type 0
Stopped cutoff total rows none = ⊥
Stopped cutoff total rows (some out) =
    (out.total + expired_count cutoff out.rows ≡ total + expired_count cutoff rows)
    × (unexpired cutoff out.rows ≡ unexpired cutoff rows)
    × ((is_some out.error || expired_count cutoff out.rows == 0) ≡ true)

-- What later turns have taken is added to what this one took.
Stopped-shift :
    (cutoff : Time) (total n : ℕ) (rows left : List Time) (o : Option Swept)
    → n + expired_count cutoff left ≡ expired_count cutoff rows
    → unexpired cutoff left ≡ unexpired cutoff rows
    → Stopped cutoff (total + n) left o
    → Stopped cutoff total rows o
Stopped-shift cutoff total n rows left none count kept s = s
Stopped-shift cutoff total n rows left (some out) count kept (sum, same, over) =
    (omega arith, same ∙ kept, over)

sweep_from-Stopped :
    (turn : ℕ → Turn) (cutoff : Time) (batch_size i fuel total : ℕ) (rows : List Time)
    → 0 < batch_size
    → expired_count cutoff rows < fuel
    → Stopped cutoff total rows (sweep_from turn cutoff batch_size i fuel total rows)
unfolding sweep_from
sweep_from-Stopped turn cutoff batch_size i zero total rows positive room = omega arith
sweep_from-Stopped turn cutoff batch_size i (suc fuel) total rows positive room =
    let P = Stopped cutoff total rows in
    let batch = exec_batch cutoff batch_size rows in
    let (count, kept, over) = exec_batch-IsBatch cutoff batch_size rows in
    if_case P (turn i).cancelled (refl, refl, refl)
      (if_case P (turn i).fails (refl, refl, refl)
        (if_cases P (ltb batch.0 batch_size)
          (λ few.
            let short = ltb→lt batch.0 batch_size few in
            (
              omega arith,
              kept,
              elim over [ inl none_left ↦ rw none_left refl | inr full ↦ absurd (omega arith) ],
            ))
          (λ full.
            let size : batch_size ≤ batch.0 = ground arith in
            Stopped-shift cutoff total batch.0 rows batch.1 _ count kept (
              sweep_from-Stopped turn cutoff batch_size (i + 1) fuel (total + batch.0) batch.1
                positive (omega arith)))))

-- A sweep ends whatever happens: with a batch size above 0 the loop stops, and then the rows that it has counted as taken, with the old rows that are left, are all the old rows there were; no row that is not older than the cutoff is touched; and if no error is returned, no old row is left.
pub sweep_batches-Stopped :
    (turn : ℕ → Turn) (cutoff : Time) (batch_size : ℕ) (rows : List Time)
    → 0 < batch_size
    → Stopped cutoff 0 rows (sweep_batches turn cutoff batch_size rows)
unfolding sweep_batches
sweep_batches-Stopped turn cutoff batch_size rows positive =
    sweep_from-Stopped turn cutoff batch_size 0 (suc (expired_count cutoff rows)) 0 rows positive
      (omega arith)
