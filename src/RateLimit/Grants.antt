-- ===== src/RateLimit/Grants.antt =====
-- What a call of `Allow` of internal/api/rate_limit.go takes, and what it leaves alone.
use signa.Prelude.{
  String, ◌≡◌, subst, refl, sym, ap, inl, inr, Bool, false, ◌&&◌, some, List, [], ◌∷◌,
  if◌then◌else◌, str_eq, eq_iff, eq_refl, Bool-cases,
}
use signa.Prelude.Float.{Float}
use signa.Prelude.Time.{Time}
use signa.RateLimit.{
  RetryAfter, Arithmetic, client_bucket, TokenBucket, find_client, spend, cleanup, allow,
  put_client, ClientBucket, can_take, RateLimiter,
}

module _ {F : Type 0} ⦃f : Float F⦄ (a : Arithmetic F) where
  find_client-put_client :
      (key : String) (c : ClientBucket F) (clients : List (String × ClientBucket F))
      → find_client a key (put_client a key c clients) ≡ some c
  unfolding find_client put_client
  find_client-put_client key c [] = rw (eq_refl key) refl
  find_client-put_client key c ((k, old) ∷ clients) = elim (Bool-cases (str_eq k key)) [
    | inl same ↦ rw (same, same) refl
    | inr other ↦ rw (other, other) (find_client-put_client key c clients)
  ]

  find_client-put_other :
      (key other : String) (c : ClientBucket F) (clients : List (String × ClientBucket F))
      → str_eq key other ≡ false
      → find_client a other (put_client a key c clients) ≡ find_client a other clients
  unfolding find_client put_client
  find_client-put_other key other c [] apart = rw apart refl
  find_client-put_other key other c ((k, old) ∷ clients) apart = elim (Bool-cases (str_eq k key)) [
    | inl same ↦
        let no : str_eq k other ≡ false =
          subst (λ x. str_eq x other ≡ false) (sym ((eq_iff k key).0 same)) apart in
        rw (same, no) refl
    | inr different ↦ rw different (
        ap (λ r. if str_eq k other then some old else r)
          (find_client-put_other key other c clients apart))
  ]

  module _ (key : String) (now : Time) (l : RateLimiter F) where
    -- The global bucket of the call, refilled, and whether it has a token.
    abbrev pub global_take : (Bool × RetryAfter F) × TokenBucket F
    global_take = can_take a now l.config.global_rate_per_minute l.config.global_burst l.global

    abbrev pub remaining : List (String × ClientBucket F)
    remaining = cleanup a now l.idle_after l.clients

    abbrev pub client_take : (Bool × RetryAfter F) × TokenBucket F
    client_take =
        can_take a now l.config.per_client_rate_per_minute l.config.per_client_burst
          (client_bucket a l.config now (find_client a key remaining))

    -- A call is granted exactly if the global bucket and the client's both have a token, and then it takes one from each; a call that is refused takes none from either. A client that the global bucket refuses is not looked at, otherwise it is remembered as seen now. Every other client that is not idle stays as it is.
    pub allow_both :
        (other : String)
        → str_eq key other ≡ false
        → ((allow a key now l).0.0 ≡ (global_take.0.0 && client_take.0.0))
          × ((allow a key now l).1.global ≡ (
              if global_take.0.0 && client_take.0.0 then spend a global_take.1 else global_take.1))
          × (find_client a key (allow a key now l).1.clients ≡ (
              if global_take.0.0
              then some (record {
                bucket = if client_take.0.0 then spend a client_take.1 else client_take.1;
                last_seen = now;
              })
              else find_client a key remaining))
          × (find_client a other (allow a key now l).1.clients ≡ find_client a other remaining)
    unfolding allow
    allow_both other apart =
        let found = λ (c : ClientBucket F). find_client-put_client key c remaining in
        let kept = λ (c : ClientBucket F). find_client-put_other key other c remaining apart in
        elim (Bool-cases global_take.0.0) [
          | inl open_gate ↦ elim (Bool-cases client_take.0.0) [
            | inl granted ↦ rw (open_gate, granted) (refl, refl, found _, kept _)
            | inr refused ↦ rw (open_gate, refused) (refused, refl, found _, kept _)
          ]
          | inr closed ↦ rw closed (closed, refl, refl, refl)
        ]
