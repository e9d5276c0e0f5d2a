-- ===== src/Push/Settled/Runs.antt =====
-- The terminal results of internal/push/subscription.go, along any sequence of calls of the store.
use signa.Prelude.{
  ℕ, String, ◌≡◌, subst, if_case, if_cases, refl, sym, ap, inl, inr, Bool, true, not, ◌&&◌, ◌||◌,
  Option, none, some, List, [], ◌∷◌, arith, ◌==◌, Bool-cases, is_some,
}
use signa.Prelude.Result.{Result, ok, err}
use signa.Prelude.Time.{Time}
use signa.Push.{Error, Outcome, Tables, Subscription, SubscriptionInput, result_expired}
use signa.Push.Calls.{
  upserts, expires, run, completes, apply, Call, removes, claims, deletes, ensures,
}
use signa.Push.Results.{
  complete_expired_delivery_result, insert_results, insert_result, pending_row, then_remove,
  ensure_delivery_results, committed,
}
use signa.Push.Settled.{
  Keeps, claim_delivery_result-IsGood, complete_delivery_result-IsGood, complete_row-IsGood,
  Keeps-trans, Keeps-refl, IsSound, put-IsGood, IsGood,
}
use signa.Push.Subscriptions.{
  delete, upsert, upsert_trimmed, find_endpoint, remove_expired, has_row, upsert_found,
}
use signa.Push.Validation.{Parsers, trim_input, validate_subscription}

then_remove-IsGood :
    (user s : ℕ) (t : Tables) (o : Outcome (Unit {0}))
    → IsGood t o.1
    → IsGood t (then_remove user s o).1
then_remove-IsGood user s t (ok _, u) good = good
then_remove-IsGood user s t (err e, u) good = good

pub complete_expired_delivery_result-IsGood :
    (works : Bool) (d user s token : ℕ) (response message : String) (now : Time) (t : Tables)
    → IsSound t
    → IsGood t (complete_expired_delivery_result works d user s token response message now t).1
unfolding complete_expired_delivery_result
complete_expired_delivery_result-IsGood works d user s token response message now t sound =
    let P = λ (o : Outcome (Unit {0})). IsGood t o.1 in
    if_case P (token == 0) (sound, Keeps-refl t)
      (if_case P (not works) (sound, Keeps-refl t)
        (then_remove-IsGood user s t _ (
          complete_row-IsGood d s token result_expired response message now t (t.results d s) refl
            sound)))

insert_result-IsGood :
    (d user s : ℕ) (now : Time) (t : Tables) → IsSound t → IsGood t (insert_result d user s now t)
unfolding insert_result
insert_result-IsGood d user s now t sound =
    if_cases (IsGood t) (has_row user s t.subscriptions && not (is_some (t.results d s)))
      (λ new.
        put-IsGood d s (pending_row now) t sound (λ terminal. refl)
          λ old e.
            let there : is_some (t.results d s) ≡ true = ap is_some e in absurd (ground arith))
      (λ refused. (sound, Keeps-refl t))

insert_results-IsGood :
    (d user : ℕ) (subscriptions : List Subscription) (now : Time) (t t' : Tables)
    → IsSound t
    → insert_results d user subscriptions now t ≡ some t'
    → IsGood t t'
unfolding insert_results
insert_results-IsGood d user [] now t t' sound e =
    let same : t ≡ t' = cc in subst (IsGood t) same (sound, Keeps-refl t)
insert_results-IsGood d user (s ∷ subscriptions) now t t' sound e = elim (Bool-cases (s.id == 0)) [
  | inl nil_id ↦ let impossible = rw nil_id at e in absurd (cc)
  | inr real ↦
      let (first_sound, first) = insert_result-IsGood d user s.id now t sound in
      let (rest_sound, rest) =
        insert_results-IsGood d user subscriptions now (insert_result d user s.id now t) t'
          first_sound (rw real at e) in
      (rest_sound, Keeps-trans t (insert_result d user s.id now t) t' first rest)
]

committed-IsGood :
    (works : Bool) (t : Tables) (found : Option Tables)
    → IsSound t
    → ((t' : Tables) → found ≡ some t' → IsGood t t')
    → IsGood t (committed works t found).1
committed-IsGood works t none sound good = (sound, Keeps-refl t)
committed-IsGood works t (some t') sound good =
    if_case (λ (o : Outcome (Unit {0})). IsGood t o.1) works (good t' refl) (sound, Keeps-refl t)

pub ensure_delivery_results-IsGood :
    (works : Bool) (d user : ℕ) (subscriptions : List Subscription) (now : Time) (t : Tables)
    → IsSound t
    → IsGood t (ensure_delivery_results works d user subscriptions now t).1
unfolding ensure_delivery_results
ensure_delivery_results-IsGood works d user subscriptions now t sound =
    if_case (λ (o : Outcome (Unit {0})). IsGood t o.1) (d == 0 || user == 0) (sound, Keeps-refl t)
      (committed-IsGood works t _ sound
        λ t' e. insert_results-IsGood d user subscriptions now t t' sound e)

-- The statements on subscriptions leave the results alone.
upsert-results :
    (p : Parsers) (works : Bool) (fresh user : ℕ) (input : SubscriptionInput) (now : Time)
    (t : Tables)
    → (upsert p works fresh user input now t).1.results ≡ t.results
unfolding upsert
upsert-results p works fresh user input now t =
    if_case (λ (o : Outcome (Subscription × Bool)). o.1.results ≡ t.results) (user == 0) refl
      (validated (validate_subscription p (trim_input input)))
  where
    found_lem :
        (found : Option Subscription)
        → (upsert_found fresh user (trim_input input) now t found).1.results ≡ t.results
    found_lem none = refl
    found_lem (some s) =
        if_case (λ (o : Outcome (Subscription × Bool)). o.1.results ≡ t.results) (s.user_id == user)
          refl refl

    validated :
        (v : Result Error (Unit {0}))
        → (upsert_trimmed v works fresh user (trim_input input) now t).1.results ≡ t.results
    validated (err e) = refl
    validated (ok _) =
        if_case (λ (o : Outcome (Subscription × Bool)). o.1.results ≡ t.results) works
          (found_lem (find_endpoint (trim_input input).endpoint t.subscriptions)) refl

delete-results :
    (works : Bool) (user id : ℕ) (t : Tables) → (delete works user id t).1.results ≡ t.results
unfolding delete
delete-results works user id t =
    let P = λ (o : Outcome (Unit {0})). o.1.results ≡ t.results in
    if_case P (user == 0 || id == 0) refl
      (if_case P (not works) refl (if_case P (has_row user id t.subscriptions) refl refl))

remove_expired-results :
    (works : Bool) (user id : ℕ) (t : Tables)
    → (remove_expired works user id t).1.results ≡ t.results
unfolding remove_expired
remove_expired-results works user id t =
    let P = λ (o : Outcome (Unit {0})). o.1.results ≡ t.results in
    if_case P (user == 0 || id == 0) refl (if_case P (not works) refl refl)

same_results-IsGood : (t t' : Tables) → t'.results ≡ t.results → IsSound t → IsGood t t'
same_results-IsGood t t' same sound = (
  λ d s row e. sound d s row (subst (λ r. r d s ≡ some row) same e),
  λ d s row e terminal. subst (λ r. r d s ≡ some row) (sym same) e,
)

pub apply-IsGood : (c : Call) (t : Tables) → IsSound t → IsGood t (apply c t)
apply-IsGood (upserts p works fresh user input now) t sound =
    same_results-IsGood t (upsert p works fresh user input now t).1
      (upsert-results p works fresh user input now t) sound
apply-IsGood (deletes works user id) t sound =
    same_results-IsGood t (delete works user id t).1 (delete-results works user id t) sound
apply-IsGood (removes works user id) t sound =
    same_results-IsGood t (remove_expired works user id t).1
      (remove_expired-results works user id t) sound
apply-IsGood (ensures works d user subscriptions now) t sound =
    ensure_delivery_results-IsGood works d user subscriptions now t sound
apply-IsGood (claims works d s lease token now) t sound =
    claim_delivery_result-IsGood works d s lease token now t sound
apply-IsGood (completes works d s token state response message now) t sound =
    complete_delivery_result-IsGood works d s token state response message now t sound
apply-IsGood (expires works d user s token response message now) t sound =
    complete_expired_delivery_result-IsGood works d user s token response message now t sound

-- Along any sequence of calls of the store a result that is succeeded, expired or permanent stays exactly as it was stored, and every such result stays without a claim, if each of them has no claim token at the start, as in an empty table.
pub run-Keeps :
    (calls : List Call) (t : Tables) → IsSound t → IsSound (run calls t) × Keeps t (run calls t)
unfolding run
run-Keeps [] t sound = (sound, Keeps-refl t)
run-Keeps (c ∷ calls) t sound =
    let (sound_c, keeps_c) = apply-IsGood c t sound in
    let (sound_rest, keeps_rest) = run-Keeps calls (apply c t) sound_c in
    (sound_rest, Keeps-trans t (apply c t) (run calls (apply c t)) keeps_c keeps_rest)
