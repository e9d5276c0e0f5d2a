-- ===== src/RateLimit.antt =====
-- internal/api/rate_limit.go: the token buckets of the HTTP API. `Allow` holds the mutex from its first
-- statement to its last, so a call is one step.
pub mod Bounds
pub mod Grants
pub mod Tests
use signa.Prelude.{
  String, Bool, true, false, ◌||◌, Option, none, some, List, [], ◌∷◌, if◌then◌else◌, str_eq,
}
use signa.Prelude.Float.{Float}
use signa.Prelude.Int.{ℤ, pos, leb_ℤ}
use signa.Prelude.Time.{Time, Duration, sub}

-- The arithmetic of `float64` that the buckets use besides `Float`: the conversion of an `int`, the
-- seconds of a duration, `*`, `/`, `math.Min` and `math.Ceil`.
pub record Arithmetic (F : Type 0) : Type 0 where
  pub of_int : ℤ → F
  pub seconds : Duration → F
  pub mul : F → F → F
  pub div : F → F → F
  pub minimum : F → F → F
  pub ceil : F → F

pub record RateLimitConfig : Type 0 where
  pub per_client_rate_per_minute : ℤ
  pub per_client_burst : ℤ
  pub global_rate_per_minute : ℤ
  pub global_burst : ℤ
  pub per_client_route_rate_per_minute : ℤ
  pub per_client_route_burst : ℤ
  pub global_route_rate_per_minute : ℤ
  pub global_route_burst : ℤ

abbrev pub default_rate_limit_config : RateLimitConfig
default_rate_limit_config = record {
  per_client_rate_per_minute = pos 6;
  per_client_burst = pos 3;
  global_rate_per_minute = pos 120;
  global_burst = pos 30;
  per_client_route_rate_per_minute = pos 10;
  per_client_route_burst = pos 2;
  global_route_rate_per_minute = pos 120;
  global_route_burst = pos 30;
}

pub record TokenBucket (F : Type 0) : Type 0 where
  pub tokens : F
  pub last_refill : Time

pub record ClientBucket (F : Type 0) : Type 0 where
  pub bucket : TokenBucket F
  pub last_seen : Time

pub record RateLimiter (F : Type 0) : Type 0 where
  pub config : RateLimitConfig
  pub global : TokenBucket F
  pub clients : List (String × ClientBucket F)
  pub idle_after : Duration

-- The second result of `canTake`: the text of the header, of a whole number of seconds.
pub data RetryAfter (F : Type 0) : Type 0 where
  no_header one_second : RetryAfter F
  whole_seconds : F → RetryAfter F

module _ {F : Type 0} ⦃f : Float F⦄ (a : Arithmetic F) where
  abbrev pub new_token_bucket : ℤ → Time → TokenBucket F
  new_token_bucket burst now = record { tokens = a.of_int burst; last_refill = now }

  -- `refill`.
  unfoldable pub refill : Time → ℤ → ℤ → TokenBucket F → TokenBucket F
  refill now rate burst b =
      let elapsed = a.seconds (sub now b.last_refill) in
      if f.lt f.nought elapsed
      then record {
        tokens =
            a.minimum (a.of_int burst)
              (f.add b.tokens (a.div (a.mul elapsed (a.of_int rate)) (a.of_int (pos 60))));
        last_refill = now;
      }
      else b

  abbrev pub wait_seconds : ℤ → TokenBucket F → F
  wait_seconds rate b =
      let seconds =
        a.ceil (a.div (a.mul (f.minus f.one b.tokens) (a.of_int (pos 60))) (a.of_int rate)) in
      if f.lt seconds f.one then f.one else seconds

  -- `canTake`, with the bucket that it leaves.
  unfoldable pub can_take : Time → ℤ → ℤ → TokenBucket F → (Bool × RetryAfter F) × TokenBucket F
  unfolding refill
  can_take now rate burst b =
      if leb_ℤ rate (pos 0) || leb_ℤ burst (pos 0)
      then ((false, one_second), b)
      else let full = refill now rate burst b in
        if f.le f.one full.tokens
        then ((true, no_header), full)
        else ((false, whole_seconds (wait_seconds rate full)), full)

  -- `cleanup`.
  unfoldable pub cleanup :
      Time → Duration → List (String × ClientBucket F) → List (String × ClientBucket F)
  cleanup now idle_after [] = []
  cleanup now idle_after ((key, c) ∷ clients) =
      let rest = cleanup now idle_after clients in
      if leb_ℤ idle_after (sub now c.last_seen) then rest else (key, c) ∷ rest

  unfoldable pub find_client : String → List (String × ClientBucket F) → Option (ClientBucket F)
  find_client key [] = none
  find_client key ((k, c) ∷ clients) = if str_eq k key then some c else find_client key clients

  unfoldable pub put_client :
      String → ClientBucket F → List (String × ClientBucket F) → List (String × ClientBucket F)
  put_client key c [] = (key, c) ∷ []
  put_client key c ((k, old) ∷ clients) =
      if str_eq k key then (k, c) ∷ clients else (k, old) ∷ put_client key c clients

  abbrev pub client_bucket : RateLimitConfig → Time → Option (ClientBucket F) → TokenBucket F
  client_bucket config now none = new_token_bucket config.per_client_burst now
  client_bucket config now (some c) = c.bucket

  abbrev pub spend : TokenBucket F → TokenBucket F
  spend b = record b { tokens = f.minus b.tokens f.one }

  -- The part of `Allow` for the client, once the global bucket has a token.
  abbrev pub allow_client : String → Time → RateLimiter F → (Bool × RetryAfter F) × RateLimiter F
  allow_client key now l =
      let old = client_bucket l.config now (find_client key l.clients) in
      let taken = can_take now l.config.per_client_rate_per_minute l.config.per_client_burst old in
      if taken.0.0
      then (
        (true, no_header),
        record l {
          global = spend l.global;
          clients = put_client key (record { bucket = spend taken.1; last_seen = now }) l.clients;
        },
      )
      else (
        taken.0,
        record l {
          clients = put_client key (record { bucket = taken.1; last_seen = now }) l.clients;
        },
      )

  -- `Allow`, at the time that `now` reads.
  unfoldable pub allow : String → Time → RateLimiter F → (Bool × RetryAfter F) × RateLimiter F
  unfolding cleanup find_client put_client can_take
  allow key now l =
      let clients = cleanup now l.idle_after l.clients in
      let taken = can_take now l.config.global_rate_per_minute l.config.global_burst l.global in
      let l' = record l { global = taken.1; clients = clients } in
      if taken.0.0 then allow_client key now l' else (taken.0, l')

  -- `NewRateLimiter`, at the time that its clock reads.
  abbrev pub new_rate_limiter : RateLimitConfig → Duration → Time → RateLimiter F
  new_rate_limiter config idle_after now = record {
    config = config;
    global = new_token_bucket config.global_burst now;
    clients = [];
    idle_after = if leb_ℤ idle_after (pos 0) then pos 600_000_000_000 else idle_after;
  }
