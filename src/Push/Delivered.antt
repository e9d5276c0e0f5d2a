-- ===== src/Push/Delivered.antt =====
-- What `Deliver` of internal/webpush/adapter.go reports, against the results in the store.
pub mod Turns
pub mod Reports
-- The result of the delivery for the subscription is terminal; it is a success.
use signa.Prelude.{
  ℕ, ◌<◌, String, ◌≡◌, subst, if_case, refl, sym, ◌∙◌, ◌⊎◌, inl, inr, Bool, true, not, Option, none,
  some, ◌==◌,
}
use signa.Prelude.Result.{ok, err}
use signa.Prelude.Text.{concat}
use signa.Prelude.Time.{Time}
use signa.Push.{Outcome, result_expired, DeliveryResultState, result_succeeded, Tables, ResultRow}
use signa.Push.Adapter.{World, failed_record, Progress, recorded, note_transient}
use signa.Push.Results.{
  is_terminal, valid_delivery_result_state, complete_row, then_remove,
  complete_expired_delivery_result, holds_claim, completed_row, complete_delivery_result,
}
use signa.Push.Settled.{IsSound, IsGood, Keeps-trans, put_at}

abbrev pub IsDone : ℕ → Tables → ℕ → Type 0
IsDone d t s = (row : ResultRow) × (t.results d s ≡ some row) × (is_terminal row.state ≡ true)

abbrev pub HasSucceeded : ℕ → Tables → ℕ → Type 0
HasSucceeded d t s = (row : ResultRow) × (t.results d s ≡ some row) × (row.state ≡ result_succeeded)

-- A completion that succeeds has stored its state.
abbrev pub IsStored : DeliveryResultState → ℕ → ℕ → Outcome (Unit {0}) → Type 0
IsStored state d s (err e, t) = Unit {0}
IsStored state d s (ok _, t) = (row : ResultRow) × (t.results d s ≡ some row) × (row.state ≡ state)

complete_row-IsStored :
    (d s token : ℕ) (state : DeliveryResultState) (response message : String) (now : Time)
    (t : Tables) (found : Option ResultRow)
    → IsStored state d s (complete_row d s token state response message now t found)
unfolding complete_row
complete_row-IsStored d s token state response message now t none = tt
complete_row-IsStored d s token state response message now t (some row) =
    if_case (IsStored state d s) (holds_claim token now row)
      (completed_row state response message now row, put_at d s _ t.results, refl) tt

pub complete_delivery_result-IsStored :
    (works : Bool) (d s token : ℕ) (state : DeliveryResultState) (response message : String)
    (now : Time) (t : Tables)
    → IsStored state d s (complete_delivery_result works d s token state response message now t)
unfolding complete_delivery_result
complete_delivery_result-IsStored works d s token state response message now t =
    if_case (IsStored state d s) (token == 0) tt (
      if_case (IsStored state d s) (not (valid_delivery_result_state state)) tt (
        if_case (IsStored state d s) (not works) tt
          (complete_row-IsStored d s token state response message now t (t.results d s))))

then_remove-IsStored :
    (state : DeliveryResultState) (d user s : ℕ) (o : Outcome (Unit {0}))
    → IsStored state d s o
    → IsStored state d s (then_remove user s o)
then_remove-IsStored state d user s (ok _, t) stored = stored
then_remove-IsStored state d user s (err e, t) stored = tt

pub complete_expired_delivery_result-IsStored :
    (works : Bool) (d user s token : ℕ) (response message : String) (now : Time) (t : Tables)
    → IsStored result_expired d s
        (complete_expired_delivery_result works d user s token response message now t)
unfolding complete_expired_delivery_result
complete_expired_delivery_result-IsStored works d user s token response message now t =
    if_case (IsStored result_expired d s) (token == 0) tt (
      if_case (IsStored result_expired d s) (not works) tt (
        then_remove-IsStored result_expired d user s _
          (complete_row-IsStored d s token result_expired response message now t (t.results d s))))

-- What a turn leaves: unless there is a transient error, the subscription is done, and a success that
-- is counted in the turn is stored.
abbrev pub TurnIsGood : ℕ → ℕ → Progress → Tables → Progress × Tables → Type 0
TurnIsGood d s p t o =
    IsGood t o.1
    × (o.0.transient_err ≡ none
        → (p.transient_err ≡ none)
          × IsDone d o.1 s
          × (0 < o.0.succeeded → (0 < p.succeeded) ⊎ HasSucceeded d o.1 s))

pub transient_turn :
    (d s : ℕ) (message : String) (p q : Progress) (t t' : Tables)
    → IsGood t t'
    → TurnIsGood d s p t (note_transient message q, t')
transient_turn d s message p q t t' good = (good, λ quiet. absurd (cc))

-- A turn that ends by a completion with a terminal state.
pub recorded-IsGood :
    (world : World) (d user s : ℕ) (text : String) (p q finished : Progress) (t : Tables)
    (state : DeliveryResultState) (o : Outcome (Unit {0}))
    → IsGood t o.1
    → IsStored state d s o
    → is_terminal state ≡ true
    → (finished.transient_err ≡ none → p.transient_err ≡ none)
    → (0 < finished.succeeded → (0 < p.succeeded) ⊎ (state ≡ result_succeeded))
    → TurnIsGood d s p t (recorded o (failed_record world d user text q) finished)
recorded-IsGood world d user s text p q finished t state (err e, t') good stored last quiet
      counted =
    transient_turn d s (concat text (world.message_of e)) p q t t' good
recorded-IsGood world d user s text p q finished t state (ok _, t') good (row, at_key, e) last quiet
      counted =
    (
      good,
      λ calm. (
        quiet calm,
        (row, at_key, subst (λ x. is_terminal x ≡ true) (sym e) last),
        λ some_sent. elim (counted some_sent) [
          | inl before ↦ inl before
          | inr success ↦ inr (row, at_key, e ∙ success)
        ],
      ),
    )

-- A turn that ends by a completion to be retried.
pub retried-IsGood :
    (world : World) (d user s : ℕ) (text message : String) (p q r : Progress) (t : Tables)
    (o : Outcome (Unit {0}))
    → IsGood t o.1
    → TurnIsGood d s p t (recorded o (failed_record world d user text q) (note_transient message r))
retried-IsGood world d user s text message p q r t (err e, t') good =
    transient_turn d s (concat text (world.message_of e)) p q t t' good
retried-IsGood world d user s text message p q r t (ok _, t') good =
    transient_turn d s message p r t t' good

pub IsGood-trans : (t u v : Tables) → IsGood t u → (IsSound u → IsGood u v) → IsGood t v
IsGood-trans t u v (sound, keeps) next =
    let (sound_v, keeps_v) = next sound in (sound_v, Keeps-trans t u v keeps keeps_v)
