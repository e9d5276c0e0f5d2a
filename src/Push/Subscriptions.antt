-- ===== src/Push/Subscriptions.antt =====
-- The statements on `push_subscriptions` in internal/push/subscription.go.
-- The row with this endpoint, by the unique index.
use signa.Prelude.{
  ℕ, Bool, true, false, not, ◌&&◌, ◌||◌, Option, none, some, List, [], ◌∷◌, ◌++◌, leb, ◌==◌,
  if◌then◌else◌,
}
use signa.Prelude.Result.{Result, ok, err, fail_if, ◌>>◌}
use signa.Prelude.Text.{equal_codes}
use signa.Prelude.Time.{Time}
use signa.Push.{
  Error, Outcome, subscription_not_found, SubscriptionInput, database_failed, subscription_conflict,
  Subscription, Tables, user_required,
}
use signa.Push.Validation.{Parsers, trim_input, validate_subscription}

unfoldable pub find_endpoint : List ℕ → List Subscription → Option Subscription
unfolding equal_codes
find_endpoint endpoint [] = none
find_endpoint endpoint (s ∷ rows) =
    if equal_codes s.endpoint endpoint then some s else find_endpoint endpoint rows

-- The row that `DO UPDATE` leaves.
abbrev pub updated_row : SubscriptionInput → Time → Subscription → Subscription
updated_row input now s = record s { p256dh = input.p256dh; auth = input.auth; updated_at = now }

unfoldable pub update_endpoint : SubscriptionInput → Time → List Subscription → List Subscription
unfolding equal_codes
update_endpoint input now [] = []
update_endpoint input now (s ∷ rows) =
    if equal_codes s.endpoint input.endpoint
    then updated_row input now s ∷ rows
    else s ∷ update_endpoint input now rows

abbrev pub inserted_row : ℕ → ℕ → SubscriptionInput → Time → Subscription
inserted_row fresh user input now = record {
  id = fresh;
  user_id = user;
  endpoint = input.endpoint;
  p256dh = input.p256dh;
  auth = input.auth;
  created_at = now;
  updated_at = now;
}

-- The statement of `Upsert`; a row that another user has is not returned, which is the conflict.
unfoldable pub upsert_found :
    ℕ → ℕ → SubscriptionInput → Time → Tables → Option Subscription → Outcome (Subscription × Bool)
unfolding update_endpoint
upsert_found fresh user input now t none =
    let s = inserted_row fresh user input now in
    (ok (s, true), record t { subscriptions = t.subscriptions ++ (s ∷ []) })
upsert_found fresh user input now t (some s) =
    if s.user_id == user
    then (
      ok (updated_row input now s, false),
      record t { subscriptions = update_endpoint input now t.subscriptions },
    )
    else (err subscription_conflict, t)

abbrev pub upsert_trimmed :
    Result Error (Unit {0})
    → Bool
    → ℕ
    → ℕ
    → SubscriptionInput
    → Time
    → Tables
    → Outcome (Subscription × Bool)
upsert_trimmed (err e) works fresh user input now t = (err e, t)
upsert_trimmed (ok _) works fresh user input now t =
    if works
    then upsert_found fresh user input now t (find_endpoint input.endpoint t.subscriptions)
    else (err database_failed, t)

-- `DELETE FROM push_subscriptions WHERE id = $1 AND user_id = $2`.
abbrev pub is_row : ℕ → ℕ → Subscription → Bool
is_row user id s = s.id == id && s.user_id == user

unfoldable pub delete_rows : ℕ → ℕ → List Subscription → List Subscription
delete_rows user id [] = []
delete_rows user id (s ∷ rows) =
    if is_row user id s then delete_rows user id rows else s ∷ delete_rows user id rows

unfoldable pub has_row : ℕ → ℕ → List Subscription → Bool
has_row user id [] = false
has_row user id (s ∷ rows) = is_row user id s || has_row user id rows

abbrev pub without_row : ℕ → ℕ → Tables → Tables
without_row user id t = record t { subscriptions = delete_rows user id t.subscriptions }

-- `Delete`.
unfoldable pub delete : Bool → ℕ → ℕ → Tables → Outcome (Unit {0})
unfolding delete_rows has_row
delete works user id t =
    if user == 0 || id == 0
    then (err subscription_not_found, t)
    else if not works
    then (err database_failed, t)
    else if has_row user id t.subscriptions
    then (ok tt, without_row user id t)
    else (err subscription_not_found, t)

-- `RemoveExpired`.
unfoldable pub remove_expired : Bool → ℕ → ℕ → Tables → Outcome (Unit {0})
unfolding delete_rows
remove_expired works user id t =
    if user == 0 || id == 0
    then (ok tt, t)
    else if not works
    then (err database_failed, t)
    else (ok tt, without_row user id t)

-- The rows of a user, `ORDER BY id`.
unfoldable pub insert_by_id : Subscription → List Subscription → List Subscription
insert_by_id s [] = s ∷ []
insert_by_id s (r ∷ rows) = if leb s.id r.id then s ∷ r ∷ rows else r ∷ insert_by_id s rows

unfoldable pub user_rows : ℕ → List Subscription → List Subscription
unfolding insert_by_id
user_rows user [] = []
user_rows user (s ∷ rows) =
    if s.user_id == user then insert_by_id s (user_rows user rows) else user_rows user rows

-- `ListForDelivery`.
unfoldable pub list_for_delivery : Bool → ℕ → Tables → Result Error (List Subscription)
unfolding user_rows
list_for_delivery works user t = do
  fail_if (user == 0) user_required
  fail_if (not works) database_failed
  ok (user_rows user t.subscriptions)

-- `Upsert`; `fresh` is the id that the database gives a new row.
unfoldable pub upsert :
    Parsers → Bool → ℕ → ℕ → SubscriptionInput → Time → Tables → Outcome (Subscription × Bool)
unfolding validate_subscription find_endpoint upsert_found
upsert p works fresh user input now t =
    let trimmed = trim_input input in
    if user == 0
    then (err user_required, t)
    else upsert_trimmed (validate_subscription p trimmed) works fresh user trimmed now t
