-- ===== src/Prelude/Time.antt =====
-- Go's `time.Time` and `time.Duration`. A time is the number of nanoseconds since Go's zero time, and
-- a duration a number of nanoseconds in the range of `int64`.
use mathlib.Core.Bool.{Bool}
use native.Mathlib.Omega.{arith}
use Prim.Native.Nat.{ℕ, suc, ◌*◌, ◌^◌, ◌%◌, ◌-◌, ◌<◌}
use mathlib.Core.Path.{◌≡◌}
use signa.Prelude.Tests.{if◌then◌else◌, ltb}
use signa.Prelude.Int.{ℤ, pos, negsuc, ◌-ℤ◌, ◌≤ℤ◌, ltb_ℤ, leb_ℤ, eq_ℤ, -ℤ_parts}

abbrev pub Time : Type 0
Time = ℤ

abbrev pub Duration : Type 0
Duration = ℤ

abbrev pub max_duration : ℤ
max_duration = pos 9_223_372_036_854_775_807

abbrev pub min_duration : ℤ
min_duration = negsuc 9_223_372_036_854_775_807

abbrev pub zero_duration : Duration
zero_duration = pos 0

-- `t.IsZero()`.
abbrev pub is_zero : Time → Bool
is_zero t = eq_ℤ t (pos 0)

abbrev pub saturate : ℤ → Duration
saturate d =
    if ltb_ℤ max_duration d then max_duration else if ltb_ℤ d min_duration then min_duration else d

-- `t.Sub(u)`, which stops at the largest and the smallest duration.
unfoldable pub sub : Time → Time → Duration
sub t u = saturate (t -ℤ u)

-- A duration that the caller holds is within the range of `int64`.
abbrev pub IsDuration : ℤ → Type 0
IsDuration d = (min_duration ≤ℤ d) × (d ≤ℤ max_duration)

pub saturate_mono : (a b : ℤ) → a ≤ℤ b → saturate a ≤ℤ saturate b
saturate_mono a b h = ground arith

-- Time passes: a later `now` gives no smaller age.
pub sub_mono : (t u start : Time) → t ≤ℤ u → sub t start ≤ℤ sub u start
unfolding sub
sub_mono t u start h =
    saturate_mono (t -ℤ start) (u -ℤ start) (omega (arith, -ℤ_parts t start, -ℤ_parts u start))

pub sub-IsDuration : (t u : Time) → IsDuration (sub t u)
unfolding sub
sub-IsDuration t u = ground arith

-- The `int64` of 64 bits.
abbrev pub of_bits : ℕ → Duration
of_bits bits = if ltb bits (2 ^ 63) then pos bits else negsuc (2 ^ 64 - bits - 1)

-- A sum or difference of durations, which wraps round as `int64` does.
unfoldable pub wrap : ℤ → Duration
wrap (pos n) = of_bits (n % 2 ^ 64)
wrap (negsuc n) = of_bits ((2 ^ 64 - suc n % 2 ^ 64) % 2 ^ 64)

-- `d * time.Duration(k)` for a count k, which wraps round as `int64` does.
unfoldable pub times : Duration → ℕ → Duration
times (pos n) k = of_bits (n * k % 2 ^ 64)
times (negsuc n) k = of_bits ((2 ^ 64 - suc n * k % 2 ^ 64) % 2 ^ 64)

-- Below the limit of `int64` the product is exact.
pub times_exact : (n k : ℕ) → n * k < 2 ^ 63 → times (pos n) k ≡ pos (n * k)
unfolding times
times_exact n k h = ground arith

-- A duration of zero or more, within the range of `int64`.
abbrev pub IsAge : ℤ → Type 0
IsAge d = (pos 0 ≤ℤ d) × (d ≤ℤ max_duration)

pub leb_ℤ-saturate : (d x : ℤ) → IsAge d → leb_ℤ d (saturate x) ≡ leb_ℤ d x
leb_ℤ-saturate d x range = ground arith
