-- ===== src/Push/Delivered/Reports.antt =====
-- What `Deliver` of internal/webpush/adapter.go reports when its loop is over.
-- Some subscription of the list has a stored success.
use signa.Delivery.{Attempt, DeliveryError, FailureKind, transient, permanent}
use signa.Prelude.{
  ℕ, ◌<◌, ◌≡◌, ap, ◌⊎◌, inl, inr, true, Option, none, List, [], ◌∷◌, All, String, subst, refl, sym,
  not, some, arith, ltb, ◌==◌, str_eq, Bool-cases, Option-cases, length, ltb→lt,
}
use signa.Prelude.Result.{Result, ok, err, fail_if, ok_inj, >>=-eq-ok}
use signa.Prelude.Text.{concat}
use signa.Prelude.Time.{Duration}
use signa.Push.{
  ResultRow, Tables, Subscription, Error, Outcome, user_required, identity_required,
  database_failed,
}
use signa.Push.Adapter.{
  World, stored_progress, deliver_each, Progress, take_turn, failure, deliver_result, no_progress,
  deliver, deliver_listed, deliver_to, deliver_loaded, deliver_ensured,
}
use signa.Push.Calls.{run}
use signa.Push.Delivered.{HasSucceeded, IsDone, TurnIsGood, IsGood-trans}
use signa.Push.Delivered.Turns.{IsLoaded, take_turn-IsGood, stored_progress-IsGood}
use signa.Push.Results.{is_terminal, load_delivery_results}
use signa.Push.Settled.{IsSound, IsGood, Keeps}
use signa.Push.Settled.Runs.{run-Keeps, ensure_delivery_results-IsGood}
use signa.Push.Subscriptions.{user_rows, list_for_delivery}

abbrev pub AnySucceeded : ℕ → Tables → List Subscription → Type 0
AnySucceeded d t [] = ⊥
AnySucceeded d t (s ∷ subscriptions) = HasSucceeded d t s.id ⊎ AnySucceeded d t subscriptions

IsDone-Keeps : (d s : ℕ) (t u : Tables) → Keeps t u → IsDone d t s → IsDone d u s
IsDone-Keeps d s t u keeps (row, at_key, last) = (row, keeps d s row at_key last, last)

HasSucceeded-Keeps : (d s : ℕ) (t u : Tables) → Keeps t u → HasSucceeded d t s → HasSucceeded d u s
HasSucceeded-Keeps d s t u keeps (row, at_key, success) =
    let last : is_terminal row.state ≡ true = ap is_terminal success in
    (row, keeps d s row at_key last, success)

-- What the loop leaves of the subscriptions that it was given.
abbrev LoopIsGood : ℕ → List Subscription → Progress → Tables → Progress × Tables → Type 0
LoopIsGood d subscriptions p t o =
    IsGood t o.1
    × (o.0.transient_err ≡ none
        → (p.transient_err ≡ none)
          × All (λ (s : Subscription). IsDone d o.1 s.id) subscriptions
          × (0 < o.0.succeeded → (0 < p.succeeded) ⊎ AnySucceeded d o.1 subscriptions))

LoopIsGood-cons :
    (d : ℕ) (s : Subscription) (subscriptions : List Subscription) (p : Progress) (t : Tables)
    (o r : Progress × Tables)
    → TurnIsGood d s.id p t o
    → LoopIsGood d subscriptions o.0 o.1 r
    → LoopIsGood d (s ∷ subscriptions) p t r
LoopIsGood-cons d s subscriptions p t o r (good, turn) (goods, loop) = (
  IsGood-trans t o.1 r.1 good (λ sound. goods),
  λ quiet.
      let (quiet_o, rest, counted) = loop quiet in
      let (quiet_p, one_done, counted_one) = turn quiet_o in
      (
        quiet_p,
        (IsDone-Keeps d s.id o.1 r.1 goods.1 one_done, rest),
        λ some_sent. elim (counted some_sent) [
          | inr later ↦ inr (inr later)
          | inl earlier ↦ elim (counted_one earlier) [
            | inl before ↦ inl before
            | inr success ↦ inr (inl (HasSucceeded-Keeps d s.id o.1 r.1 goods.1 success))
          ]
        ],
      ),
)

module _ (world : World) where
  deliver_each-IsGood :
      (d user : ℕ) (lease : Duration) (loaded : ℕ → Option ResultRow)
      (subscriptions : List Subscription) (p : Progress) (t : Tables)
      → IsSound t
      → IsLoaded world d user loaded t
      → LoopIsGood d subscriptions p t (deliver_each world d user lease loaded subscriptions p t)
  unfolding deliver_each
  deliver_each-IsGood d user lease loaded [] p t sound known =
      ((sound, λ d s row e last. e), λ quiet. (quiet, tt, λ some_sent. inl some_sent))
  deliver_each-IsGood d user lease loaded (s ∷ subscriptions) p t sound known =
      let turn = world.turn s.id in
      let u = run turn.before t in
      let good = run-Keeps turn.before t sound in
      let stored = stored_progress (loaded s.id) p in
      let o = take_turn world d user stored lease s.id turn p u in
      let turned = take_turn-IsGood world d user stored lease s.id turn p t u good λ q noted.
        stored_progress-IsGood world d user (loaded s.id) s.id p q t u good
          (λ row e last. good.1 d s.id row (known s.id row e last) last) noted in
      LoopIsGood-cons d s subscriptions p t o
        (deliver_each world d user lease loaded subscriptions o.0 o.1) turned
        (deliver_each-IsGood d user lease loaded subscriptions o.0 o.1 turned.0.0
          λ s' row e last. turned.0.1 d s' row (known s' row e last) last)

-- Only a loop with no transient error and with a success is reported as a success.
deliver_result-none :
    (count : ℕ) (p : Progress) (response : String)
    → deliver_result count p ≡ (response, none)
    → (p.transient_err ≡ none) × (0 < p.succeeded)
unfolding deliver_result
deliver_result-none count p response e = elim (Option-cases p.transient_err) [
  | inr (message, set) ↦ let bad = rw set at e in absurd (cc)
  | inl quiet ↦ elim (Bool-cases (ltb 0 p.succeeded)) [
    | inl some_sent ↦ (quiet, ltb→lt 0 p.succeeded some_sent)
    | inr no_one ↦ elim (Option-cases p.permanent_err) [
      | inl no_error ↦ let bad = rw (quiet, no_one, no_error) at e in absurd (cc)
      | inr (message, set) ↦ elim (Bool-cases (p.terminal == count)) [
        | inl all_over ↦ let bad = rw (quiet, no_one, set, all_over) at e in absurd (cc)
        | inr some_left ↦ let bad = rw (quiet, no_one, set, some_left) at e in absurd (cc)
      ]
    ]
  ]
]

abbrev Report : Type 0
Report = (String × Option DeliveryError) × Tables

failure_lem :
    {A : Type 0} (kind : FailureKind) (message response : String) (t u : Tables)
    → Path Report (failure kind message, t) ((response, none), u)
    → A
failure_lem kind message response t u e = absurd (cc)

-- What a report of success promises of these subscriptions.
abbrev Promise : ℕ → Tables → List Subscription → Type 0
Promise d u subscriptions =
    All (λ (s : Subscription). IsDone d u s.id) subscriptions × AnySucceeded d u subscriptions

module _ (world : World) (lease : Duration) (user : ℕ) (response : String) (u : Tables) where
  loop-Promise :
      (d : ℕ) (subscriptions : List Subscription) (o : Progress × Tables) (t : Tables)
      → LoopIsGood d subscriptions no_progress t o
      → Path Report (deliver_result (length subscriptions) o.0, o.1) ((response, none), u)
      → Promise d u subscriptions
  loop-Promise d subscriptions o t (good, loop) e =
      let reported : deliver_result (length subscriptions) o.0 ≡ (response, none) =
        ap (λ (r : Report). r.0) e in
      let left : o.1 ≡ u = ap (λ (r : Report). r.1) e in
      let (quiet, some_sent) = deliver_result-none (length subscriptions) o.0 response reported in
      let (calm, all_done, counted) = loop quiet in
      subst (λ v. Promise d v subscriptions) left
        (
          all_done,
          elim (counted some_sent) [ inl before ↦ absurd (omega arith) | inr success ↦ success ],
        )

  deliver_loaded-Promise :
      (d : ℕ) (subscriptions : List Subscription) (found : Result Error (ℕ → Option ResultRow))
      (t : Tables)
      → ((loaded : ℕ → Option ResultRow) → found ≡ ok loaded → IsLoaded world d user loaded t)
      → IsSound t
      → deliver_loaded world lease d user subscriptions found t ≡ ((response, none), u)
      → Promise d u subscriptions
  deliver_loaded-Promise d subscriptions (err x) t known sound e =
      failure_lem transient (concat "load web push delivery results: " (world.message_of x))
        response t u e
  deliver_loaded-Promise d subscriptions (ok loaded) t known sound e =
      loop-Promise d subscriptions
        (deliver_each world d user lease loaded subscriptions no_progress t) t
        (deliver_each-IsGood world d user lease loaded subscriptions no_progress t sound
          (known loaded refl))
        e

  load-IsLoaded :
      (d : ℕ) (t : Tables) (loaded : ℕ → Option ResultRow)
      → load_delivery_results world.load_works d t ≡ ok loaded
      → IsLoaded world d user loaded t
  unfolding load_delivery_results
  load-IsLoaded d t loaded e =
      let (tt, real, e2) = >>=-eq-ok (fail_if (d == 0) identity_required) _ e in
      let (tt, up, e3) = >>=-eq-ok (fail_if (not world.load_works) database_failed) _ e2 in
      let same : t.results d ≡ loaded = ok_inj e3 in
      λ s row found last. subst (λ (f : ℕ → Option ResultRow). f s ≡ some row) (sym same) found

  deliver_ensured-Promise :
      (d : ℕ) (subscriptions : List Subscription) (o : Outcome (Unit {0}))
      → IsSound o.1
      → deliver_ensured world lease d user subscriptions o ≡ ((response, none), u)
      → Promise d u subscriptions
  deliver_ensured-Promise d subscriptions (err x, t) sound e =
      failure_lem transient (concat "initialize web push delivery results: " (world.message_of x))
        response t u e
  deliver_ensured-Promise d subscriptions (ok _, t) sound e =
      deliver_loaded-Promise d subscriptions
        (load_delivery_results world.load_works d (run world.ensured t)) (run world.ensured t)
        (λ loaded found. load-IsLoaded d (run world.ensured t) loaded found)
        (run-Keeps world.ensured t sound).0 e

  deliver_listed-Promise :
      (d : ℕ) (subscriptions : List Subscription) (t : Tables)
      → IsSound t
      → deliver_listed world lease d user (ok subscriptions) t ≡ ((response, none), u)
      → Promise d u subscriptions
  deliver_listed-Promise d [] t sound e =
      failure_lem permanent "user has no active push subscriptions" response t u e
  deliver_listed-Promise d (s ∷ subscriptions) t sound e =
      deliver_ensured-Promise d (s ∷ subscriptions) _
        (ensure_delivery_results-IsGood world.ensure_works d user (s ∷ subscriptions)
          world.ensured_at (run world.listed t) (run-Keeps world.listed t sound).0).0
        e

  found-Promise :
      (d : ℕ) (found : Result Error (List Subscription)) (t : Tables)
      → list_for_delivery world.list_works user t ≡ found
      → IsSound t
      → deliver_listed world lease d user found t ≡ ((response, none), u)
      → Promise d u (user_rows user t.subscriptions)
  unfolding list_for_delivery
  found-Promise d (err x) t listed sound e =
      failure_lem transient (concat "list web push subscriptions: " (world.message_of x)) response t
        u e
  found-Promise d (ok subscriptions) t listed sound e =
      let (tt, real, e2) = >>=-eq-ok (fail_if (user == 0) user_required) _ listed in
      let (tt, up, e3) = >>=-eq-ok (fail_if (not world.list_works) database_failed) _ e2 in
      subst (Promise d u) (sym (ok_inj e3)) (deliver_listed-Promise d subscriptions t sound e)

  deliver_to-Promise :
      (id : Result String ℕ) (t : Tables)
      → IsSound t
      → deliver_to world lease id user t ≡ ((response, none), u)
      → (d : ℕ) × (id ≡ ok d) × Promise d u (user_rows user t.subscriptions)
  deliver_to-Promise (err message) t sound e =
      failure_lem permanent (concat "web push delivery ID is invalid: " message) response t u e
  deliver_to-Promise (ok d) t sound e =
      (d, refl, found-Promise d (list_for_delivery world.list_works user t) t refl sound e)

  -- The adapter reports success only if, in the tables that it leaves, the result of this delivery is succeeded, expired or permanent for every subscription that the user had when it listed them, and succeeded for one of them at least, whatever the sender answers, the database does and other workers do to the store between its steps; terminal results must be under no claim at the start.
  pub deliver-Promise :
      (attempt : Attempt) (t : Tables)
      → IsSound t
      → deliver world lease attempt user t ≡ ((response, none), u)
      → (d : ℕ) × (world.parse_uuid attempt.delivery_id ≡ ok d)
        × All (λ (s : Subscription). IsDone d u s.id) (user_rows user t.subscriptions)
        × AnySucceeded d u (user_rows user t.subscriptions)
  unfolding deliver
  deliver-Promise attempt t sound e = elim (Bool-cases (str_eq attempt.channel "WEB_PUSH")) [
    | inr other ↦
        failure_lem permanent "delivery channel is not WEB_PUSH" response t u (rw other at e)
    | inl push ↦ elim (Bool-cases (user == 0)) [
      | inl no_user ↦
          failure_lem permanent "web push delivery user is required" response t u
            (rw (push, no_user) at e)
      | inr real ↦
          let (d, parsed, (all_done, success)) =
            deliver_to-Promise (world.parse_uuid attempt.delivery_id) t sound
              (rw (push, real) at e) in
          (d, parsed, all_done, success)
    ]
  ]
