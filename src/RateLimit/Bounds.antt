-- ===== src/RateLimit/Bounds.antt =====
-- The bursts of the buckets of internal/api/rate_limit.go, as an invariant.
-- IEEE 754 facts, which hold of NaN and of the infinities too: nothing is below itself, a minimum is not
-- above its first argument, and taking one away does not bring a number above a bound.
use signa.Prelude.{String, ◌≡◌, if_case, Bool, false, ◌||◌, Option, List, [], ◌∷◌, str_eq, All}
use signa.Prelude.Float.{Float}
use signa.Prelude.Int.{ℤ, pos, leb_ℤ}
use signa.Prelude.Time.{Time, Duration, sub}
use signa.RateLimit.{
  RetryAfter, Arithmetic, refill, client_bucket, TokenBucket, new_token_bucket, find_client,
  new_rate_limiter, spend, cleanup, allow, put_client, allow_client, ClientBucket, can_take,
  RateLimitConfig, RateLimiter,
}

pub record ArithmeticLaws {F : Type 0} ⦃f : Float F⦄ (a : Arithmetic F) : Type 0 where
  pub lt_irrefl : (x : F) → f.lt x x ≡ false
  pub minimum-not_above : (x y : F) → f.lt x (a.minimum x y) ≡ false
  pub minus-not_above : (x t : F) → f.lt x t ≡ false → f.lt x (f.minus t f.one) ≡ false

module _ {F : Type 0} ⦃f : Float F⦄ (a : Arithmetic F) (laws : ArithmeticLaws a) where
  abbrev pub Within : ℤ → TokenBucket F → Type 0
  Within burst b = f.lt (a.of_int burst) b.tokens ≡ false

  pub record Bounded (l : RateLimiter F) : Type 0 where
    pub global : Within l.config.global_burst l.global
    pub clients :
        All
          (λ (entry : String × ClientBucket F). Within l.config.per_client_burst entry.1.bucket)
          l.clients

  new-Within : (burst : ℤ) (now : Time) → Within burst (new_token_bucket a burst now)
  new-Within burst now = laws.lt_irrefl (a.of_int burst)

  spend-Within : (burst : ℤ) (b : TokenBucket F) → Within burst b → Within burst (spend a b)
  spend-Within burst b h = laws.minus-not_above (a.of_int burst) b.tokens h

  refill-Within :
      (now : Time) (rate burst : ℤ) (b : TokenBucket F)
      → Within burst b
      → Within burst (refill a now rate burst b)
  unfolding refill
  refill-Within now rate burst b h =
      if_case (Within burst) (f.lt f.nought (a.seconds (sub now b.last_refill)))
        (laws.minimum-not_above (a.of_int burst) _) h

  can_take-Within :
      (now : Time) (rate burst : ℤ) (b : TokenBucket F)
      → Within burst b
      → Within burst ((can_take a now rate burst b).1)
  unfolding can_take
  can_take-Within now rate burst b h =
      let P = λ (r : (Bool × RetryAfter F) × TokenBucket F). Within burst r.1 in
      let full = refill a now rate burst b in
      if_case P (leb_ℤ rate (pos 0) || leb_ℤ burst (pos 0)) h (
        if_case P (f.le f.one full.tokens) (refill-Within now rate burst b h)
          (refill-Within now rate burst b h))

  module _ (P : String × ClientBucket F → Type 0) where
    cleanup-All :
        (now : Time) (idle_after : Duration) (clients : List (String × ClientBucket F))
        → All P clients
        → All P (cleanup a now idle_after clients)
    unfolding cleanup
    cleanup-All now idle_after [] h = tt
    cleanup-All now idle_after ((key, c) ∷ clients) (p, h) =
        let rest = cleanup-All now idle_after clients h in
        if_case (All P) (leb_ℤ idle_after (sub now c.last_seen)) rest (p, rest)

    put_client-All :
        (key : String) (c : ClientBucket F) (clients : List (String × ClientBucket F))
        → ((k : String) → P (k, c))
        → All P clients
        → All P (put_client a key c clients)
    unfolding put_client
    put_client-All key c [] new h = (new key, tt)
    put_client-All key c ((k, old) ∷ clients) new (p, h) =
        if_case (All P) (str_eq k key) (new k, h) (p, put_client-All key c clients new h)

  find_client-Within :
      (burst : ℤ) (key : String) (config : RateLimitConfig) (now : Time)
      (clients : List (String × ClientBucket F))
      → All
          (λ (entry : String × ClientBucket F). Within config.per_client_burst entry.1.bucket)
          clients
      → Within config.per_client_burst (client_bucket a config now (find_client a key clients))
  unfolding find_client
  find_client-Within burst key config now [] h = new-Within config.per_client_burst now
  find_client-Within burst key config now ((k, c) ∷ clients) (p, h) =
      if_case
        (λ (o : Option (ClientBucket F)).
          Within config.per_client_burst (client_bucket a config now o))
        (str_eq k key) p (find_client-Within burst key config now clients h)

  allow_client-Bounded :
      (key : String) (now : Time) (l : RateLimiter F)
      → Bounded l
      → Bounded ((allow_client a key now l).1)
  allow_client-Bounded key now l b =
      let old = client_bucket a l.config now (find_client a key l.clients) in
      let rate = l.config.per_client_rate_per_minute in
      let burst = l.config.per_client_burst in
      let kept =
        can_take-Within now rate burst old
          (find_client-Within burst key l.config now l.clients b.clients) in
      let P = λ (entry : String × ClientBucket F). Within burst entry.1.bucket in
      if_case (λ (r : (Bool × RetryAfter F) × RateLimiter F). Bounded r.1)
        (can_take a now rate burst old).0.0
        (record {
          global = spend-Within l.config.global_burst l.global b.global;
          clients =
              put_client-All P key _ l.clients
                (λ k. spend-Within burst (can_take a now rate burst old).1 kept) b.clients;
        })
        (record {
          global = b.global;
          clients = put_client-All P key _ l.clients (λ k. kept) b.clients;
        })

  -- A new limiter is within its bursts.
  pub new_rate_limiter-Bounded :
      (config : RateLimitConfig) (idle_after : Duration) (now : Time)
      → Bounded (new_rate_limiter a config idle_after now)
  new_rate_limiter-Bounded config idle_after now = record {
    global = new-Within config.global_burst now;
    clients = tt;
  }

  -- No bucket, the global one or a client's, ever holds more tokens than its burst: if that is so of a limiter, a call of `Allow`, granted or refused, keeps it so, whatever the clock reads, even when it goes back.
  pub allow-Bounded :
      (key : String) (now : Time) (l : RateLimiter F) → Bounded l → Bounded ((allow a key now l).1)
  unfolding allow
  allow-Bounded key now l b =
      let rate = l.config.global_rate_per_minute in
      let taken = can_take a now rate l.config.global_burst l.global in
      let l' = record l { global = taken.1; clients = cleanup a now l.idle_after l.clients } in
      let b' : Bounded l' = record {
        global = can_take-Within now rate l.config.global_burst l.global b.global;
        clients = cleanup-All _ now l.idle_after l.clients b.clients;
      } in
      if_case (λ (r : (Bool × RetryAfter F) × RateLimiter F). Bounded r.1) taken.0.0
        (allow_client-Bounded key now l' b') b'
