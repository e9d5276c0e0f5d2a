-- ===== src/Push/Owners.antt =====
-- The endpoints of the subscriptions of internal/push/subscription.go and the users they belong to.
pub mod Runs
pub mod Conflicts
-- No row of the list has the endpoint.
use signa.Prelude.{
  ℕ, ◌≡◌, if_case, refl, inl, inr, Bool, true, false, Option, none, some, List, [], ◌∷◌, ◌++◌,
  arith, ◌==◌, Bool-cases, All,
}
use signa.Prelude.Result.{Result, ok, err}
use signa.Prelude.Text.{equal_codes}
use signa.Prelude.Time.{Time}
use signa.Push.{Error, Outcome, SubscriptionInput, Subscription, Tables}
use signa.Push.Subscriptions.{
  delete_rows, upsert_found, is_row, upsert, find_endpoint, inserted_row, upsert_trimmed,
  update_endpoint,
}
use signa.Push.Validation.{Parsers, trim_input, validate_subscription}

abbrev pub IsFree : List ℕ → List Subscription → Type 0
IsFree endpoint = All (λ (s : Subscription). equal_codes s.endpoint endpoint ≡ false)

-- No two rows have the same endpoint.
abbrev pub IsUnique : List Subscription → Type 0
IsUnique [] = Unit
IsUnique (s ∷ rows) = IsFree s.endpoint rows × IsUnique rows

equal_codes_turn : (a b : List ℕ) → equal_codes a b ≡ false → equal_codes b a ≡ false
unfolding equal_codes
equal_codes_turn [] [] e = e
equal_codes_turn [] (y ∷ b) e = refl
equal_codes_turn (x ∷ a) [] e = refl
equal_codes_turn (x ∷ a) (y ∷ b) e = elim (Bool-cases (x == y)) [
  | inl same ↦
      let same2 : (y == x) ≡ true = ground arith in rw same2 (equal_codes_turn a b (rw same at e))
  | inr apart ↦ let apart2 : (y == x) ≡ false = ground arith in rw apart2 refl
]

find-IsFree :
    (endpoint : List ℕ) (rows : List Subscription)
    → find_endpoint endpoint rows ≡ none
    → IsFree endpoint rows
unfolding find_endpoint
find-IsFree endpoint [] e = tt
find-IsFree endpoint (s ∷ rows) e = elim (Bool-cases (equal_codes s.endpoint endpoint)) [
  | inl found ↦ let bad : Path (Option Subscription) (some s) none = rw found at e in absurd (cc)
  | inr apart ↦ (apart, find-IsFree endpoint rows (rw apart at e))
]

insert-IsFree :
    (endpoint : List ℕ) (rows : List Subscription) (s : Subscription)
    → IsFree endpoint rows
    → equal_codes s.endpoint endpoint ≡ false
    → IsFree endpoint (rows ++ (s ∷ []))
insert-IsFree endpoint [] s free apart = (apart, tt)
insert-IsFree endpoint (r ∷ rows) s (first, rest) apart =
    (first, insert-IsFree endpoint rows s rest apart)

insert-IsUnique :
    (rows : List Subscription) (s : Subscription)
    → IsUnique rows
    → IsFree s.endpoint rows
    → IsUnique (rows ++ (s ∷ []))
insert-IsUnique [] s unique free = (tt, tt)
insert-IsUnique (r ∷ rows) s (first, rest) (apart, free) = (
  insert-IsFree r.endpoint rows s first (equal_codes_turn r.endpoint s.endpoint apart),
  insert-IsUnique rows s rest free,
)

update-IsFree :
    (input : SubscriptionInput) (now : Time) (endpoint : List ℕ) (rows : List Subscription)
    → IsFree endpoint rows
    → IsFree endpoint (update_endpoint input now rows)
unfolding update_endpoint
update-IsFree input now endpoint [] free = tt
update-IsFree input now endpoint (s ∷ rows) (first, rest) =
    if_case (IsFree endpoint) (equal_codes s.endpoint input.endpoint) (first, rest)
      (first, update-IsFree input now endpoint rows rest)

update-IsUnique :
    (input : SubscriptionInput) (now : Time) (rows : List Subscription)
    → IsUnique rows
    → IsUnique (update_endpoint input now rows)
unfolding update_endpoint
update-IsUnique input now [] unique = tt
update-IsUnique input now (s ∷ rows) (first, rest) =
    if_case IsUnique (equal_codes s.endpoint input.endpoint) (first, rest)
      (update-IsFree input now s.endpoint rows first, update-IsUnique input now rows rest)

delete-IsFree :
    (user id : ℕ) (endpoint : List ℕ) (rows : List Subscription)
    → IsFree endpoint rows
    → IsFree endpoint (delete_rows user id rows)
unfolding delete_rows
delete-IsFree user id endpoint [] free = tt
delete-IsFree user id endpoint (s ∷ rows) (first, rest) =
    if_case (IsFree endpoint) (is_row user id s) (delete-IsFree user id endpoint rows rest)
      (first, delete-IsFree user id endpoint rows rest)

pub delete-IsUnique :
    (user id : ℕ) (rows : List Subscription) → IsUnique rows → IsUnique (delete_rows user id rows)
unfolding delete_rows
delete-IsUnique user id [] unique = tt
delete-IsUnique user id (s ∷ rows) (first, rest) =
    if_case IsUnique (is_row user id s) (delete-IsUnique user id rows rest)
      (delete-IsFree user id s.endpoint rows first, delete-IsUnique user id rows rest)

abbrev pub HasUnique : Tables → Type 0
HasUnique t = IsUnique t.subscriptions

upsert_found-IsUnique :
    (fresh user : ℕ) (input : SubscriptionInput) (now : Time) (t : Tables)
    (found : Option Subscription)
    → find_endpoint input.endpoint t.subscriptions ≡ found
    → HasUnique t
    → HasUnique (upsert_found fresh user input now t found).1
unfolding upsert_found
upsert_found-IsUnique fresh user input now t none e unique =
    insert-IsUnique t.subscriptions (inserted_row fresh user input now) unique
      (find-IsFree input.endpoint t.subscriptions e)
upsert_found-IsUnique fresh user input now t (some s) e unique =
    if_case (λ (o : Outcome (Subscription × Bool)). HasUnique o.1) (s.user_id == user)
      (update-IsUnique input now t.subscriptions unique) unique

upsert_trimmed-IsUnique :
    (v : Result Error (Unit {0})) (works : Bool) (fresh user : ℕ) (input : SubscriptionInput)
    (now : Time) (t : Tables)
    → HasUnique t
    → HasUnique (upsert_trimmed v works fresh user input now t).1
upsert_trimmed-IsUnique (err e) works fresh user input now t unique = unique
upsert_trimmed-IsUnique (ok _) works fresh user input now t unique =
    if_case (λ (o : Outcome (Subscription × Bool)). HasUnique o.1) works
      (upsert_found-IsUnique fresh user input now t _ refl unique) unique

-- An upsert leaves the endpoints unique, whatever the input and the database do.
pub upsert-HasUnique :
    (p : Parsers) (works : Bool) (fresh user : ℕ) (input : SubscriptionInput) (now : Time)
    (t : Tables)
    → HasUnique t
    → HasUnique (upsert p works fresh user input now t).1
unfolding upsert
upsert-HasUnique p works fresh user input now t unique =
    if_case (λ (o : Outcome (Subscription × Bool)). HasUnique o.1) (user == 0) unique
      (upsert_trimmed-IsUnique (validate_subscription p (trim_input input)) works fresh user
        (trim_input input) now t unique)
