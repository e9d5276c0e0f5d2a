-- ===== src/Delivery/Store.antt =====
-- `PostgresStore` of internal/delivery/store.go: all deliveries, by their id. `fault` says that a
-- statement of the transaction fails, which rolls it back. Two transactions on one delivery exclude each
-- other by `FOR UPDATE`, so a transaction is one step.
-- The deliveries that the database holds.
use signa.Delivery.{
  Error, FinishResult, Config, not_found, StartResult, Attempt, Request, DeliveryError, Slot,
  database,
}
use signa.Delivery.Finish.{finish_slot}
use signa.Delivery.Start.{start_slot}
use signa.Prelude.{
  String, ◌≡◌, refl, ◌≢◌, inl, inr, Bool, Option, none, some, List, [], ◌∷◌, if◌then◌else◌, str_eq,
  Bool-cases, sym, ap, ◌∙◌, false, eq_iff,
}
use signa.Prelude.Result.{Result, ok, err}
use signa.Prelude.Time.{Time}

abbrev pub Deliveries : Type 0
Deliveries = List (String × Slot)

unfoldable pub find : String → Deliveries → Option Slot
find id [] = none
find id ((k, s) ∷ store) = if str_eq k id then some s else find id store

-- `UPDATE ... WHERE id = $1`.
unfoldable pub put : String → Slot → Deliveries → Deliveries
put id s [] = []
put id s ((k, old) ∷ store) = if str_eq k id then (k, s) ∷ store else (k, old) ∷ put id s store

abbrev pub settle :
    String → Deliveries → Result Error (StartResult × Slot) → Result Error StartResult × Deliveries
settle id store (err e) = (err e, store)
settle id store (ok (r, s)) = (ok r, put id s store)

-- `StartAttempt`.
unfoldable pub start_attempt :
    Config
    → (String → Bool)
    → Bool
    → Request
    → Time
    → Deliveries
    → Result Error StartResult × Deliveries
unfolding find put start_slot
start_attempt config superseded fault request now store =
    if fault then (err database, store) else elim (find request.delivery_id store) [
      | none ↦ (err not_found, store)
      | some s ↦
          settle request.delivery_id store
            (start_slot config (superseded request.alert_id) request now s)
    ]

-- `FinishAttempt`.
unfoldable pub finish_attempt :
    Config
    → Bool
    → Attempt
    → String
    → Option DeliveryError
    → Time
    → Deliveries
    → Result Error FinishResult × Deliveries
unfolding find put finish_slot
finish_attempt config fault attempt response failure now store =
    if fault then (err database, store) else elim (find attempt.delivery_id store) [
      | none ↦ (err not_found, store)
      | some s ↦
          let done = finish_slot config attempt.attempt response failure now s in
          (ok done.0, put attempt.delivery_id done.1 store)
    ]

str_eq-apart : (a b : String) → a ≢ b → str_eq a b ≡ false
str_eq-apart a b apart = elim (Bool-cases (str_eq a b)) [
  | inl e ↦ absurd (apart ((eq_iff a b).0 e))
  | inr e ↦ e
]

pub find-put :
    (id : String) (s old : Slot) (store : Deliveries)
    → find id store ≡ some old
    → find id (put id s store) ≡ some s
unfolding find put
find-put id s old [] h = absurd (cc)
find-put id s old ((k, x) ∷ store) h = elim (Bool-cases (str_eq k id)) [
  | inl e ↦ rw e (rw e refl)
  | inr e ↦ rw e (rw e (find-put id s old store (rw e at h)))
]

pub find-put_other :
    (id other : String) (s : Slot) (store : Deliveries)
    → other ≢ id
    → find other (put id s store) ≡ find other store
unfolding find put
find-put_other id other s [] apart = refl
find-put_other id other s ((k, x) ∷ store) apart = elim (Bool-cases (str_eq k id)) [
  | inl e ↦
      let same = (eq_iff k id).0 e in rw (e, str_eq-apart k other (λ q. apart (sym q ∙ same))) refl
  | inr e ↦
      rw e (ap (λ r. if str_eq k other then some x else r) (find-put_other id other s store apart))
]
