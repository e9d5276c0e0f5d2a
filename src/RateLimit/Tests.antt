-- ===== src/RateLimit/Tests.antt =====
-- The limiter of internal/api/rate_limit.go on whole numbers: a unit of tokens is one token, and a
-- second refills nothing or much, which is enough to run it.
-- `minimum` on the whole numbers; quotients are rounded to zero.
use signa.Prelude.{◌*◌, ◌/◌, ◌≡◌, refl, true, false, arith, if◌then◌else◌}
use signa.Prelude.Float.{whole_numbers}
use signa.Prelude.Int.{ℤ, pos, ◌+ℤ◌, ◌-ℤ◌, ltb_ℤ, -ℤ_parts}
use signa.Prelude.Time.{sub}
use signa.RateLimit.{
  find_client, RateLimiter, cleanup, default_rate_limit_config, put_client, allow, refill, can_take,
  new_rate_limiter, Arithmetic,
}
use signa.RateLimit.Bounds.{new_rate_limiter-Bounded, allow-Bounded, ArithmeticLaws, Bounded}

abbrev quotient : ℤ → ℤ → ℤ
quotient (pos a) (pos b) = pos (a / b)
quotient _ _ = pos 0

abbrev product : ℤ → ℤ → ℤ
product (pos a) (pos b) = pos (a * b)
product _ _ = pos 0

abbrev arithmetic : Arithmetic ℤ
arithmetic = record {
  of_int = λ n. n;
  seconds = λ d. quotient d (pos 1_000_000_000);
  mul = product;
  div = quotient;
  minimum = λ x y. if ltb_ℤ y x then y else x;
  ceil = λ x. x;
}

minimum-not_above : (x y : ℤ) → ltb_ℤ x (if ltb_ℤ y x then y else x) ≡ false
minimum-not_above x y = ground arith

arithmetic-ArithmeticLaws : ArithmeticLaws arithmetic
arithmetic-ArithmeticLaws = record {
  lt_irrefl = λ x. ground arith;
  minimum-not_above = minimum-not_above;
  minus-not_above = λ x t h. ground (arith, -ℤ_parts t (pos 1));
}

abbrev limiter : RateLimiter ℤ
limiter = new_rate_limiter arithmetic default_rate_limit_config (pos 0) (pos 0)

limiter-Bounded : Bounded arithmetic arithmetic-ArithmeticLaws limiter
limiter-Bounded =
    new_rate_limiter-Bounded arithmetic arithmetic-ArithmeticLaws default_rate_limit_config (pos 0)
      (pos 0)

granted : (allow arithmetic "10.0.0.1" (pos 5_000_000_000) limiter).0.0 ≡ true
unfolding allow can_take refill cleanup find_client put_client sub ◌-ℤ◌ ◌+ℤ◌
granted = refl

allow-Bounded_example :
    Bounded arithmetic arithmetic-ArithmeticLaws
      ((allow arithmetic "10.0.0.1" (pos 5_000_000_000) limiter).1)
allow-Bounded_example =
    allow-Bounded arithmetic arithmetic-ArithmeticLaws "10.0.0.1" (pos 5_000_000_000) limiter
      limiter-Bounded
