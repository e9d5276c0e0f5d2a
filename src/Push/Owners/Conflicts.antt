-- ===== src/Push/Owners/Conflicts.antt =====
-- The owner of an endpoint in internal/push/subscription.go, when an upsert names it.
use signa.Prelude.{
  ◌⊎◌, sym, arith, ℕ, ◌≡◌, subst, if_case, refl, inl, inr, Bool, Option, none, some, List, [], ◌∷◌,
  ◌++◌, ◌==◌, Bool-cases,
}
use signa.Prelude.Result.{Result, ok, err}
use signa.Prelude.Text.{equal_codes}
use signa.Prelude.Time.{Time}
use signa.Push.{Error, Outcome, Tables, Subscription, SubscriptionInput}
use signa.Push.Subscriptions.{
  updated_row, find_endpoint, update_endpoint, upsert_trimmed, upsert, upsert_found,
}
use signa.Push.Validation.{Parsers, validate_subscription, trim_input}

-- The row is the same subscription of the same user, and unless that user is `user` it is the same row.
abbrev pub IsOwned : ℕ → Subscription → Option Subscription → Type 0
IsOwned user s o =
    (found : Subscription) × (o ≡ some found)
    × (found.id ≡ s.id)
    × (found.user_id ≡ s.user_id)
    × ((found ≡ s) ⊎ (s.user_id ≡ user))

some_row_inj : (a b : Subscription) → Path (Option Subscription) (some a) (some b) → a ≡ b
some_row_inj a b e = cc

no_row : {A : Type 0} (s : Subscription) → Path (Option Subscription) none (some s) → A
no_row s e = absurd (cc)

find-append :
    (endpoint : List ℕ) (rows more : List Subscription) (s : Subscription)
    → find_endpoint endpoint rows ≡ some s
    → find_endpoint endpoint (rows ++ more) ≡ some s
unfolding find_endpoint
find-append endpoint [] more s e = no_row s e
find-append endpoint (r ∷ rows) more s e = elim (Bool-cases (equal_codes r.endpoint endpoint)) [
  | inl here ↦ rw here (rw here at e)
  | inr apart ↦ rw apart (find-append endpoint rows more s (rw apart at e))
]

unchanged : (user : ℕ) (s : Subscription) (o : Option Subscription) → o ≡ some s → IsOwned user s o
unchanged user s o e = (s, e, refl, refl, inl refl)

-- The update of the first row of the input's endpoint, whose owner is `user`.
find-update :
    (user : ℕ) (input : SubscriptionInput) (now : Time) (endpoint : List ℕ)
    (rows : List Subscription) (owned s : Subscription)
    → find_endpoint input.endpoint rows ≡ some owned
    → owned.user_id ≡ user
    → find_endpoint endpoint rows ≡ some s
    → IsOwned user s (find_endpoint endpoint (update_endpoint input now rows))
unfolding find_endpoint update_endpoint
find-update user input now endpoint [] owned s e owner found = no_row s found
find-update user input now endpoint (r ∷ rows) owned s e owner found =
    elim (Bool-cases (equal_codes r.endpoint input.endpoint)) [
      | inl named ↦
          let first : r ≡ owned = some_row_inj r owned (rw named at e) in
          let mine : r.user_id ≡ user =
            subst (λ (x : Subscription). x.user_id ≡ user) (sym first) owner in
          elim (Bool-cases (equal_codes r.endpoint endpoint)) [
            | inl here ↦
                let same : r ≡ s = some_row_inj r s (rw here at found) in
                rw named (
                  subst
                    (λ x. IsOwned user x (find_endpoint endpoint (updated_row input now r ∷ rows)))
                    same (updated_row input now r, rw here refl, refl, refl, inr mine))
            | inr apart ↦ rw named (
                unchanged user s (find_endpoint endpoint (updated_row input now r ∷ rows))
                  (rw apart (rw apart at found)))
          ]
      | inr unnamed ↦ elim (Bool-cases (equal_codes r.endpoint endpoint)) [
        | inl here ↦ rw unnamed (
            unchanged user s (find_endpoint endpoint (r ∷ update_endpoint input now rows))
              (rw here (rw here at found)))
        | inr apart ↦
            rw (unnamed, apart)
              (find-update user input now endpoint rows owned s (rw unnamed at e) owner
                (rw apart at found))
      ]
    ]

upsert_found-IsOwned :
    (fresh user : ℕ) (input : SubscriptionInput) (now : Time) (t : Tables) (o : Option Subscription)
    (endpoint : List ℕ) (s : Subscription)
    → find_endpoint input.endpoint t.subscriptions ≡ o
    → find_endpoint endpoint t.subscriptions ≡ some s
    → IsOwned user s
        (find_endpoint endpoint (upsert_found fresh user input now t o).1.subscriptions)
unfolding upsert_found
upsert_found-IsOwned fresh user input now t none endpoint s named e =
    unchanged user s _ (find-append endpoint t.subscriptions _ s e)
upsert_found-IsOwned fresh user input now t (some r) endpoint s named e =
    elim (Bool-cases (r.user_id == user)) [
      | inl mine ↦
          let owner : r.user_id ≡ user = ground arith in
          let kept = find-update user input now endpoint t.subscriptions r s named owner e in
          rw mine kept
      | inr other_user ↦ rw other_user (unchanged user s _ e)
    ]

upsert_trimmed-IsOwned :
    (v : Result Error (Unit {0})) (works : Bool) (fresh user : ℕ) (input : SubscriptionInput)
    (now : Time) (t : Tables) (endpoint : List ℕ) (s : Subscription)
    → find_endpoint endpoint t.subscriptions ≡ some s
    → IsOwned user s
        (find_endpoint endpoint (upsert_trimmed v works fresh user input now t).1.subscriptions)
upsert_trimmed-IsOwned (err e) works fresh user input now t endpoint s found =
    unchanged user s _ found
upsert_trimmed-IsOwned (ok _) works fresh user input now t endpoint s found =
    if_case
      (λ (o : Outcome (Subscription × Bool)).
        IsOwned user s (find_endpoint endpoint o.1.subscriptions))
      works
      (upsert_found-IsOwned fresh user input now t (find_endpoint input.endpoint t.subscriptions)
        endpoint s refl found)
      (unchanged user s _ found)

-- An upsert, by whichever user and of whichever endpoint, leaves every stored endpoint with the same subscription of the same user, and changes no field of that subscription, its keys included, unless the user of the upsert is its owner.
pub upsert-IsOwned :
    (p : Parsers) (works : Bool) (fresh user : ℕ) (input : SubscriptionInput) (now : Time)
    (t : Tables) (endpoint : List ℕ) (s : Subscription)
    → find_endpoint endpoint t.subscriptions ≡ some s
    → IsOwned user s
        (find_endpoint endpoint (upsert p works fresh user input now t).1.subscriptions)
unfolding upsert
upsert-IsOwned p works fresh user input now t endpoint s found =
    if_case
      (λ (o : Outcome (Subscription × Bool)).
        IsOwned user s (find_endpoint endpoint o.1.subscriptions))
      (user == 0) (unchanged user s _ found)
      (upsert_trimmed-IsOwned (validate_subscription p (trim_input input)) works fresh user
        (trim_input input) now t endpoint s found)
