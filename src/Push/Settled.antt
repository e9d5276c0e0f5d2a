-- ===== src/Push/Settled.antt =====
-- The terminal results of internal/push/subscription.go, and the statements on one result.
pub mod Runs
-- A result that is terminal is under no claim.
use signa.Prelude.{
  ℕ, String, ◌≡◌, subst, if_case, if_cases, refl, sym, ◌∙◌, inl, inr, Bool, true, false, not, ◌&&◌,
  ◌||◌, Option, none, some, arith, ◌==◌, Bool-cases,
}
use signa.Prelude.Time.{Time, Duration}
use signa.Push.{
  Outcome, DeliveryResultState, Tables, result_retryable, result_expired, result_pending,
  result_succeeded, ResultRow, result_permanent,
}
use signa.Push.Results.{
  is_terminal, is_open, put, put_row, claim_delivery_result, Results, complete_row, claim_row,
  valid_delivery_result_state, is_free, complete_delivery_result, holds_claim, is_key,
}

abbrev pub IsUnclaimed : ResultRow → Type 0
IsUnclaimed row = is_terminal row.state ≡ true → row.claim_token ≡ none

abbrev pub IsSound : Tables → Type 0
IsSound t = (d s : ℕ) (row : ResultRow) → t.results d s ≡ some row → IsUnclaimed row

-- No terminal result is changed.
abbrev pub Keeps : Tables → Tables → Type 0
Keeps t t' =
    (d s : ℕ) (row : ResultRow)
    → t.results d s ≡ some row
    → is_terminal row.state ≡ true
    → t'.results d s ≡ some row

abbrev pub IsGood : Tables → Tables → Type 0
IsGood t t' = IsSound t' × Keeps t t'

pub Keeps-refl : (t : Tables) → Keeps t t
Keeps-refl t d s row e terminal = e

pub Keeps-trans : (t u v : Tables) → Keeps t u → Keeps u v → Keeps t v
Keeps-trans t u v first second d s row e terminal =
    second d s row (first d s row e terminal) terminal

pub some_inj : (a b : ResultRow) → Path (Option ResultRow) (some a) (some b) → a ≡ b
some_inj a b e = cc

pub put_at : (d s : ℕ) (row : ResultRow) (results : Results) → put d s row results d s ≡ some row
unfolding put
put_at d s row results = ground arith

put-IsSound :
    (d s : ℕ) (row : ResultRow) (t : Tables)
    → IsSound t
    → IsUnclaimed row
    → IsSound (put_row d s row t)
unfolding put
put-IsSound d s row t sound unclaimed d' s' other e = elim (Bool-cases (is_key d s d' s')) [
  | inl same ↦ subst IsUnclaimed (some_inj row other (rw same at e)) unclaimed
  | inr apart ↦ sound d' s' other (rw apart at e)
]

-- The row that is replaced must not be terminal.
put-Keeps :
    (d s : ℕ) (row : ResultRow) (t : Tables)
    → ((old : ResultRow) → t.results d s ≡ some old → is_terminal old.state ≡ false)
    → Keeps t (put_row d s row t)
unfolding put
put-Keeps d s row t replaced d' s' other e terminal = elim (Bool-cases (is_key d s d' s')) [
  | inl same ↦
      let dd : d' ≡ d = ground arith in
      let ss : s' ≡ s = ground arith in
      let clash = replaced other (
        subst (λ x. t.results x s ≡ some other) dd
          (subst (λ y. t.results d' y ≡ some other) ss e)) in
      absurd (cc)
  | inr apart ↦ rw apart e
]

pub put-IsGood :
    (d s : ℕ) (row : ResultRow) (t : Tables)
    → IsSound t
    → IsUnclaimed row
    → ((old : ResultRow) → t.results d s ≡ some old → is_terminal old.state ≡ false)
    → IsGood t (put_row d s row t)
put-IsGood d s row t sound unclaimed replaced =
    (put-IsSound d s row t sound unclaimed, put-Keeps d s row t replaced)

open-is_terminal : (state : DeliveryResultState) → is_open state ≡ true → is_terminal state ≡ false
open-is_terminal result_pending h = refl
open-is_terminal result_retryable h = refl
open-is_terminal result_succeeded h = absurd (cc)
open-is_terminal result_expired h = absurd (cc)
open-is_terminal result_permanent h = absurd (cc)

and_left : (a b : Bool) → (a && b) ≡ true → a ≡ true
and_left a b h = ground arith

claim_row-IsGood :
    (d s : ℕ) (lease : Duration) (token : ℕ) (now : Time) (t : Tables) (found : Option ResultRow)
    → t.results d s ≡ found
    → IsSound t
    → IsGood t (claim_row d s lease token now t found).1
unfolding claim_row
claim_row-IsGood d s lease token now t none at_key sound = (sound, Keeps-refl t)
claim_row-IsGood d s lease token now t (some row) at_key sound =
    if_cases (λ (o : Outcome (Option ℕ)). IsGood t o.1)
      (is_open row.state && is_free row.claimed_until now)
      (λ claimable.
        let not_terminal = open-is_terminal row.state (and_left (is_open row.state) _ claimable) in
        put-IsGood d s _ t sound (λ terminal. absurd (cc))
          λ old e.
            subst (λ r. is_terminal r.state ≡ false) (some_inj row old (sym at_key ∙ e))
              not_terminal)
      (λ refused. (sound, Keeps-refl t))

pub claim_delivery_result-IsGood :
    (works : Bool) (d s : ℕ) (lease : Duration) (token : ℕ) (now : Time) (t : Tables)
    → IsSound t
    → IsGood t (claim_delivery_result works d s lease token now t).1
unfolding claim_delivery_result
claim_delivery_result-IsGood works d s lease token now t sound =
    if_case (λ (o : Outcome (Option ℕ)). IsGood t o.1) (d == 0 || s == 0) (sound, Keeps-refl t)
      (if_case (λ (o : Outcome (Option ℕ)). IsGood t o.1) (not works) (sound, Keeps-refl t)
        (claim_row-IsGood d s lease token now t (t.results d s) refl sound))

held-is_terminal :
    (token : ℕ) (now : Time) (row : ResultRow)
    → IsUnclaimed row
    → holds_claim token now row ≡ true
    → is_terminal row.state ≡ false
held-is_terminal token now row unclaimed held = elim (Bool-cases (is_terminal row.state)) [
  | inl terminal ↦ let no_token = unclaimed terminal in absurd (cc)
  | inr not_terminal ↦ not_terminal
]

pub complete_row-IsGood :
    (d s token : ℕ) (state : DeliveryResultState) (response message : String) (now : Time)
    (t : Tables) (found : Option ResultRow)
    → t.results d s ≡ found
    → IsSound t
    → IsGood t (complete_row d s token state response message now t found).1
unfolding complete_row
complete_row-IsGood d s token state response message now t none at_key sound = (sound, Keeps-refl t)
complete_row-IsGood d s token state response message now t (some row) at_key sound =
    if_cases (λ (o : Outcome (Unit {0})). IsGood t o.1) (holds_claim token now row)
      (λ held.
        put-IsGood d s _ t sound (λ terminal. refl)
          λ old e.
            subst (λ r. is_terminal r.state ≡ false) (some_inj row old (sym at_key ∙ e))
              (held-is_terminal token now row (sound d s row at_key) held))
      (λ lost. (sound, Keeps-refl t))

pub complete_delivery_result-IsGood :
    (works : Bool) (d s token : ℕ) (state : DeliveryResultState) (response message : String)
    (now : Time) (t : Tables)
    → IsSound t
    → IsGood t (complete_delivery_result works d s token state response message now t).1
unfolding complete_delivery_result
complete_delivery_result-IsGood works d s token state response message now t sound =
    let P = λ (o : Outcome (Unit {0})). IsGood t o.1 in
    if_case P (token == 0) (sound, Keeps-refl t)
      (if_case P (not (valid_delivery_result_state state)) (sound, Keeps-refl t)
        (if_case P (not works) (sound, Keeps-refl t)
          (complete_row-IsGood d s token state response message now t (t.results d s) refl sound)))
