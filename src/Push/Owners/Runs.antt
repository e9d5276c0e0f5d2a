-- ===== src/Push/Owners/Runs.antt =====
-- The endpoints of the subscriptions of internal/push/subscription.go, along any sequence of calls.
use signa.Prelude.{
  ℕ, String, ◌≡◌, subst, if_case, refl, sym, ◌∙◌, inl, inr, Bool, not, ◌&&◌, ◌||◌, Option, none,
  some, List, [], ◌∷◌, ◌==◌, Bool-cases, is_some,
}
use signa.Prelude.Result.{ok, err}
use signa.Prelude.Time.{Time, Duration}
use signa.Push.{Outcome, Tables, ResultRow, Subscription, result_expired, DeliveryResultState}
use signa.Push.Calls.{
  run, claims, upserts, deletes, apply, ensures, Call, expires, removes, completes,
}
use signa.Push.Owners.{IsUnique, upsert-HasUnique, HasUnique, delete-IsUnique}
use signa.Push.Results.{
  is_open, then_remove, complete_row, complete_expired_delivery_result, committed, holds_claim,
  claim_delivery_result, insert_results, claim_row, ensure_delivery_results,
  complete_delivery_result, valid_delivery_result_state, insert_result, is_free,
}
use signa.Push.Subscriptions.{delete, without_row, has_row, remove_expired}

abbrev Same : Tables → Tables → Type 0
Same t t' = t'.subscriptions ≡ t.subscriptions

claim_delivery_result-Same :
    (works : Bool) (d s : ℕ) (lease : Duration) (token : ℕ) (now : Time) (t : Tables)
    → Same t (claim_delivery_result works d s lease token now t).1
unfolding claim_delivery_result claim_row
claim_delivery_result-Same works d s lease token now t =
    if_case (λ (o : Outcome (Option ℕ)). Same t o.1) (d == 0 || s == 0) refl
      (if_case (λ (o : Outcome (Option ℕ)). Same t o.1) (not works) refl
        (found_lem (t.results d s)))
  where
    found_lem : (found : Option ResultRow) → Same t (claim_row d s lease token now t found).1
    found_lem none = refl
    found_lem (some row) =
        if_case (λ (o : Outcome (Option ℕ)). Same t o.1)
          (is_open row.state && is_free row.claimed_until now) refl refl

complete_row-Same :
    (d s token : ℕ) (state : DeliveryResultState) (response message : String) (now : Time)
    (t : Tables) (found : Option ResultRow)
    → Same t (complete_row d s token state response message now t found).1
unfolding complete_row
complete_row-Same d s token state response message now t none = refl
complete_row-Same d s token state response message now t (some row) =
    if_case (λ (o : Outcome (Unit {0})). Same t o.1) (holds_claim token now row) refl refl

complete_delivery_result-Same :
    (works : Bool) (d s token : ℕ) (state : DeliveryResultState) (response message : String)
    (now : Time) (t : Tables)
    → Same t (complete_delivery_result works d s token state response message now t).1
unfolding complete_delivery_result
complete_delivery_result-Same works d s token state response message now t =
    let P = λ (o : Outcome (Unit {0})). Same t o.1 in
    if_case P (token == 0) refl (
      if_case P (not (valid_delivery_result_state state)) refl (
        if_case P (not works) refl
          (complete_row-Same d s token state response message now t (t.results d s))))

insert_result-Same :
    (d user s : ℕ) (now : Time) (t : Tables) → Same t (insert_result d user s now t)
unfolding insert_result
insert_result-Same d user s now t =
    if_case (Same t) (has_row user s t.subscriptions && not (is_some (t.results d s))) refl refl

insert_results-Same :
    (d user : ℕ) (subscriptions : List Subscription) (now : Time) (t t' : Tables)
    → insert_results d user subscriptions now t ≡ some t'
    → Same t t'
unfolding insert_results
insert_results-Same d user [] now t t' e = let same : t ≡ t' = cc in subst (Same t) same refl
insert_results-Same d user (s ∷ subscriptions) now t t' e = elim (Bool-cases (s.id == 0)) [
  | inl nil_id ↦ let impossible = rw nil_id at e in absurd (cc)
  | inr real ↦
      insert_results-Same d user subscriptions now (insert_result d user s.id now t) t'
        (rw real at e)
      ∙ insert_result-Same d user s.id now t
]

committed-Same :
    (works : Bool) (t : Tables) (found : Option Tables)
    → ((t' : Tables) → found ≡ some t' → Same t t')
    → Same t (committed works t found).1
committed-Same works t none same = refl
committed-Same works t (some t') same =
    if_case (λ (o : Outcome (Unit {0})). Same t o.1) works (same t' refl) refl

ensure_delivery_results-Same :
    (works : Bool) (d user : ℕ) (subscriptions : List Subscription) (now : Time) (t : Tables)
    → Same t (ensure_delivery_results works d user subscriptions now t).1
unfolding ensure_delivery_results
ensure_delivery_results-Same works d user subscriptions now t =
    if_case (λ (o : Outcome (Unit {0})). Same t o.1) (d == 0 || user == 0) refl
      (committed-Same works t _ λ t' e. insert_results-Same d user subscriptions now t t' e)

Same-HasUnique : (t t' : Tables) → Same t t' → HasUnique t → HasUnique t'
Same-HasUnique t t' same unique = subst IsUnique (sym same) unique

remove-HasUnique : (user id : ℕ) (t : Tables) → HasUnique t → HasUnique (without_row user id t)
remove-HasUnique user id t unique = delete-IsUnique user id t.subscriptions unique

delete-HasUnique :
    (works : Bool) (user id : ℕ) (t : Tables) → HasUnique t → HasUnique (delete works user id t).1
unfolding delete
delete-HasUnique works user id t unique =
    let P = λ (o : Outcome (Unit {0})). HasUnique o.1 in
    if_case P (user == 0 || id == 0) unique (
      if_case P (not works) unique
        (if_case P (has_row user id t.subscriptions) (remove-HasUnique user id t unique) unique))

remove_expired-HasUnique :
    (works : Bool) (user id : ℕ) (t : Tables)
    → HasUnique t
    → HasUnique (remove_expired works user id t).1
unfolding remove_expired
remove_expired-HasUnique works user id t unique =
    let P = λ (o : Outcome (Unit {0})). HasUnique o.1 in
    if_case P (user == 0 || id == 0) unique
      (if_case P (not works) unique (remove-HasUnique user id t unique))

then_remove-HasUnique :
    (user s : ℕ) (o : Outcome (Unit {0})) → HasUnique o.1 → HasUnique (then_remove user s o).1
then_remove-HasUnique user s (ok _, t) unique = remove-HasUnique user s t unique
then_remove-HasUnique user s (err e, t) unique = unique

complete_expired_delivery_result-HasUnique :
    (works : Bool) (d user s token : ℕ) (response message : String) (now : Time) (t : Tables)
    → HasUnique t
    → HasUnique (complete_expired_delivery_result works d user s token response message now t).1
unfolding complete_expired_delivery_result
complete_expired_delivery_result-HasUnique works d user s token response message now t unique =
    let P = λ (o : Outcome (Unit {0})). HasUnique o.1 in
    if_case P (token == 0) unique (
      if_case P (not works) unique (
        then_remove-HasUnique user s expired (
          Same-HasUnique t expired.1
            (complete_row-Same d s token result_expired response message now t (t.results d s))
            unique)))
  where
    expired : Outcome (Unit {0})
    expired = complete_row d s token result_expired response message now t (t.results d s)

apply-HasUnique : (c : Call) (t : Tables) → HasUnique t → HasUnique (apply c t)
apply-HasUnique (upserts p works fresh user input now) t unique =
    upsert-HasUnique p works fresh user input now t unique
apply-HasUnique (deletes works user id) t unique = delete-HasUnique works user id t unique
apply-HasUnique (removes works user id) t unique = remove_expired-HasUnique works user id t unique
apply-HasUnique (ensures works d user subscriptions now) t unique =
    Same-HasUnique t (ensure_delivery_results works d user subscriptions now t).1
      (ensure_delivery_results-Same works d user subscriptions now t) unique
apply-HasUnique (claims works d s lease token now) t unique =
    Same-HasUnique t (claim_delivery_result works d s lease token now t).1
      (claim_delivery_result-Same works d s lease token now t) unique
apply-HasUnique (completes works d s token state response message now) t unique =
    Same-HasUnique t (complete_delivery_result works d s token state response message now t).1
      (complete_delivery_result-Same works d s token state response message now t) unique
apply-HasUnique (expires works d user s token response message now) t unique =
    complete_expired_delivery_result-HasUnique works d user s token response message now t unique

-- If no two subscriptions have the same endpoint, this stays so along any sequence of calls of the store; an upsert finds the endpoint before it inserts a row.
pub run-HasUnique : (calls : List Call) (t : Tables) → HasUnique t → HasUnique (run calls t)
unfolding run
run-HasUnique [] t unique = unique
run-HasUnique (c ∷ calls) t unique = run-HasUnique calls (apply c t) (apply-HasUnique c t unique)
