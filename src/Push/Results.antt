-- ===== src/Push/Results.antt =====
-- The statements on `web_push_delivery_results` in internal/push/subscription.go.
use signa.Prelude.{
  ℕ, ◌*◌, ◌/◌, String, Bool, true, false, not, ◌&&◌, ◌||◌, Option, none, some, List, [], ◌∷◌, ◌==◌,
  if◌then◌else◌, str_eq, is_some,
}
use signa.Prelude.Int.{pos, negsuc, ◌+ℤ◌, ltb_ℤ}
use signa.Prelude.Result.{Result, ok, err, fail_if, ◌>>◌}
use signa.Prelude.Time.{Time, Duration}
use signa.Push.{
  Error, Outcome, bad_state, result_pending, DeliveryResultState, database_failed, result_retryable,
  ResultRow, result_permanent, Subscription, Tables, claim_lost, result_succeeded, result_expired,
  identity_required,
}
use signa.Push.Subscriptions.{without_row, delete_rows, has_row}

abbrev pub Results : Type 0
Results = ℕ → ℕ → Option ResultRow

abbrev pub is_key : ℕ → ℕ → ℕ → ℕ → Bool
is_key d s d' s' = d' == d && s' == s

unfoldable pub put : ℕ → ℕ → ResultRow → Results → Results
put d s row results d' s' = if is_key d s d' s' then some row else results d' s'

abbrev pub put_row : ℕ → ℕ → ResultRow → Tables → Tables
put_row d s row t = record t { results = put d s row t.results }

abbrev pub pending_row : Time → ResultRow
pending_row now = record {
  state = result_pending;
  provider_response = none;
  error_message = none;
  claimed_until = none;
  claim_token = none;
  completed_at = none;
  updated_at = now;
}

-- `SELECT 1 FROM push_subscriptions WHERE id = $2 AND user_id = $3`.
unfoldable pub insert_result : ℕ → ℕ → ℕ → Time → Tables → Tables
unfolding has_row put
insert_result d user s now t =
    if has_row user s t.subscriptions && not (is_some (t.results d s))
    then put_row d s (pending_row now) t
    else t

-- The loop of `EnsureDeliveryResults`; an id that is nil rolls everything back.
unfoldable pub insert_results : ℕ → ℕ → List Subscription → Time → Tables → Option Tables
unfolding insert_result
insert_results d user [] now t = some t
insert_results d user (s ∷ subscriptions) now t =
    let rest = insert_results d user subscriptions now (insert_result d user s.id now t) in
    if s.id == 0 then none else rest

abbrev pub committed : Bool → Tables → Option Tables → Outcome (Unit {0})
committed works t none = (err identity_required, t)
committed works t (some t') = if works then (ok tt, t') else (err database_failed, t)

-- `EnsureDeliveryResults`.
unfoldable pub ensure_delivery_results :
    Bool → ℕ → ℕ → List Subscription → Time → Tables → Outcome (Unit {0})
unfolding insert_results
ensure_delivery_results works d user subscriptions now t =
    if d == 0 || user == 0
    then (err identity_required, t)
    else committed works t (insert_results d user subscriptions now t)

-- `LoadDeliveryResults`: the results of a delivery, by subscription.
unfoldable pub load_delivery_results : Bool → ℕ → Tables → Result Error (ℕ → Option ResultRow)
load_delivery_results works d t = do
  fail_if (d == 0) identity_required
  fail_if (not works) database_failed
  ok (t.results d)

abbrev pub is_open : DeliveryResultState → Bool
is_open result_pending = true
is_open result_retryable = true
is_open _ = false

-- `claimed_until IS NULL OR claimed_until < now()`.
abbrev pub is_free : Option Time → Time → Bool
is_free none now = true
is_free (some deadline) now = ltb_ℤ deadline now

abbrev pub default_lease : Duration
default_lease = pos 300_000_000_000

-- `lease.Microseconds()` microseconds, in nanoseconds.
abbrev pub lease_of : Duration → Duration
lease_of (pos n) = if n == 0 then default_lease else pos (n / 1000 * 1000)
lease_of (negsuc n) = default_lease

abbrev pub claimed_row : ℕ → Time → ResultRow → ResultRow
claimed_row token deadline row = record row {
  claimed_until = some deadline;
  claim_token = some token;
}

unfoldable pub claim_row :
    ℕ → ℕ → Duration → ℕ → Time → Tables → Option ResultRow → Outcome (Option ℕ)
unfolding put ◌+ℤ◌
claim_row d s lease token now t none = (ok none, t)
claim_row d s lease token now t (some row) =
    if is_open row.state && is_free row.claimed_until now
    then (ok (some token), put_row d s (claimed_row token (now +ℤ lease_of lease) row) t)
    else (ok none, t)

-- `ClaimDeliveryResult`; `token` is the new claim token, and `none` means that nothing was claimed.
unfoldable pub claim_delivery_result :
    Bool → ℕ → ℕ → Duration → ℕ → Time → Tables → Outcome (Option ℕ)
unfolding claim_row
claim_delivery_result works d s lease token now t =
    if d == 0 || s == 0
    then (err identity_required, t)
    else if not works
    then (err database_failed, t)
    else claim_row d s lease token now t (t.results d s)

abbrev pub valid_delivery_result_state : DeliveryResultState → Bool
valid_delivery_result_state result_pending = false
valid_delivery_result_state _ = true

-- `state IN ('SUCCEEDED', 'EXPIRED', 'PERMANENT')`.
abbrev pub is_terminal : DeliveryResultState → Bool
is_terminal result_succeeded = true
is_terminal result_expired = true
is_terminal result_permanent = true
is_terminal _ = false

-- `NULLIF(value, '')`.
abbrev pub null_if_empty : String → Option String
null_if_empty value = if str_eq value "" then none else some value

abbrev pub completed_row : DeliveryResultState → String → String → Time → ResultRow → ResultRow
completed_row state response message now row = record {
  state = state;
  provider_response = null_if_empty response;
  error_message = null_if_empty message;
  claimed_until = none;
  claim_token = none;
  completed_at = if is_terminal state then some now else none;
  updated_at = now;
}

-- `claim_token = $3 AND claimed_until > now()`.
abbrev pub holds_claim : ℕ → Time → ResultRow → Bool
holds_claim token now row = elim row.claim_token [
  | none ↦ false
  | some held ↦ elim row.claimed_until [
    | none ↦ false
    | some deadline ↦ held == token && ltb_ℤ now deadline
  ]
]

unfoldable pub complete_row :
    ℕ
    → ℕ
    → ℕ
    → DeliveryResultState
    → String
    → String
    → Time
    → Tables
    → Option ResultRow
    → Outcome (Unit {0})
unfolding put
complete_row d s token state response message now t none = (err claim_lost, t)
complete_row d s token state response message now t (some row) =
    if holds_claim token now row
    then (ok tt, put_row d s (completed_row state response message now row) t)
    else (err claim_lost, t)

-- `CompleteDeliveryResult`.
unfoldable pub complete_delivery_result :
    Bool → ℕ → ℕ → ℕ → DeliveryResultState → String → String → Time → Tables → Outcome (Unit {0})
unfolding complete_row
complete_delivery_result works d s token state response message now t =
    if token == 0
    then (err claim_lost, t)
    else if not (valid_delivery_result_state state)
    then (err bad_state, t)
    else if not works
    then (err database_failed, t)
    else complete_row d s token state response message now t (t.results d s)

abbrev pub then_remove : ℕ → ℕ → Outcome (Unit {0}) → Outcome (Unit {0})
then_remove user s (ok _, t) = (ok tt, without_row user s t)
then_remove user s (err e, t) = (err e, t)

-- `CompleteExpiredDeliveryResult`, one transaction.
unfoldable pub complete_expired_delivery_result :
    Bool → ℕ → ℕ → ℕ → ℕ → String → String → Time → Tables → Outcome (Unit {0})
unfolding complete_row delete_rows
complete_expired_delivery_result works d user s token response message now t =
    if token == 0
    then (err claim_lost, t)
    else if not works
    then (err database_failed, t)
    else then_remove user s
        (complete_row d s token result_expired response message now t (t.results d s))
