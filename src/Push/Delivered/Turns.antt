-- ===== src/Push/Delivered/Turns.antt =====
-- The loop of `Deliver` of internal/webpush/adapter.go, turn by turn.
use signa.Prelude.{
  ℕ, ◌<◌, String, ◌≡◌, subst, refl, sym, ap, ◌∙◌, inl, inr, true, Option, none, some, Bool,
}
use signa.Prelude.Result.{Result, ok, err}
use signa.Prelude.Text.{concat}
use signa.Prelude.Time.{Duration, Time}
use signa.Push.{
  Outcome, Tables, result_succeeded, ResultRow, result_pending, result_permanent, result_expired,
  DeliveryResultState, result_retryable,
}
use signa.Push.Adapter.{
  Verdict, Turn, World, rejected, accepted, SendResult, after_claim, note_success, note_permanent,
  take_turn, stored_progress, with_status, Progress, judge_status, note_stored, record_verdict,
  unclear, after_send, gone, or_empty,
}
use signa.Push.Calls.{run}
use signa.Push.Delivered.{
  recorded-IsGood, IsGood-trans, transient_turn, retried-IsGood, complete_delivery_result-IsStored,
  TurnIsGood, complete_expired_delivery_result-IsStored,
}
use signa.Push.Results.{
  is_terminal, claim_delivery_result, complete_expired_delivery_result, complete_delivery_result,
}
use signa.Push.Settled.{IsGood, claim_delivery_result-IsGood, complete_delivery_result-IsGood}
use signa.Push.Settled.Runs.{run-Keeps, complete_expired_delivery_result-IsGood}

complete-IsGood :
    (works : Bool) (d s token : ℕ) (state : DeliveryResultState) (response message : String)
    (now : Time) (t u : Tables)
    → IsGood t u
    → IsGood t (complete_delivery_result works d s token state response message now u).1
complete-IsGood works d s token state response message now t u good =
    IsGood-trans t u (complete_delivery_result works d s token state response message now u).1 good
      (complete_delivery_result-IsGood works d s token state response message now u)

expire-IsGood :
    (works : Bool) (d user s token : ℕ) (response message : String) (now : Time) (t u : Tables)
    → IsGood t u
    → IsGood t (complete_expired_delivery_result works d user s token response message now u).1
expire-IsGood works d user s token response message now t u good =
    IsGood-trans t u
      (complete_expired_delivery_result works d user s token response message now u).1 good
      (complete_expired_delivery_result-IsGood works d user s token response message now u)

module _ (world : World) (d user : ℕ) where
  record_verdict-IsGood :
      (v : Verdict) (s : ℕ) (turn : Turn) (token : ℕ) (r : SendResult) (p : Progress) (t u : Tables)
      → IsGood t u
      → TurnIsGood d s p t
          (record_verdict world d user v s turn token r (record p { last_response = r.response }) u)
  record_verdict-IsGood accepted s turn token r p t u good =
      let q = record p { last_response = r.response } in
      recorded-IsGood world d user s "record web push success: " p q (note_success q) t
        result_succeeded
        (complete_delivery_result turn.complete_works d s token result_succeeded r.response ""
          turn.completed_at u)
        (complete-IsGood turn.complete_works d s token result_succeeded r.response ""
          turn.completed_at t u good)
        (complete_delivery_result-IsStored turn.complete_works d s token result_succeeded r.response
          "" turn.completed_at u)
        refl (λ quiet. quiet) (λ some_sent. inr refl)
  record_verdict-IsGood gone s turn token r p t u good =
      let q = record p { last_response = r.response } in
      let message = with_status "web push subscription expired: status " r.status_code in
      recorded-IsGood world d user s "record expired web push subscription: " p q
        (note_permanent message q) t result_expired
        (complete_expired_delivery_result turn.complete_works d user s token r.response message
          turn.completed_at u)
        (expire-IsGood turn.complete_works d user s token r.response message turn.completed_at t u
          good)
        (complete_expired_delivery_result-IsStored turn.complete_works d user s token r.response
          message turn.completed_at u)
        refl (λ quiet. quiet) (λ some_sent. inl some_sent)
  record_verdict-IsGood rejected s turn token r p t u good =
      let q = record p { last_response = r.response } in
      let message = with_status "web push provider rejected subscription: status " r.status_code in
      recorded-IsGood world d user s "record web push permanent result: " p q
        (note_permanent message q) t result_permanent
        (complete_delivery_result turn.complete_works d s token result_permanent r.response message
          turn.completed_at u)
        (complete-IsGood turn.complete_works d s token result_permanent r.response message
          turn.completed_at t u good)
        (complete_delivery_result-IsStored turn.complete_works d s token result_permanent r.response
          message turn.completed_at u)
        refl (λ quiet. quiet) (λ some_sent. inl some_sent)
  record_verdict-IsGood unclear s turn token r p t u good =
      let q = record p { last_response = r.response } in
      let message = with_status "web push provider returned status " r.status_code in
      retried-IsGood world d user s "record web push retryable result: " message p q q t
        (complete_delivery_result turn.complete_works d s token result_retryable r.response message
          turn.completed_at u)
        (complete-IsGood turn.complete_works d s token result_retryable r.response message
          turn.completed_at t u good)

  after_send-IsGood :
      (answer : Result String SendResult) (s : ℕ) (turn : Turn) (token : ℕ) (p : Progress)
      (t u : Tables)
      → IsGood t u
      → TurnIsGood d s p t (after_send world d user answer s turn token p u)
  after_send-IsGood (err message) s turn token p t u good =
      retried-IsGood world d user s "record web push retryable result: "
        (concat "send web push notification: " message) p p p t
        (complete_delivery_result turn.complete_works d s token result_retryable "" message
          turn.completed_at u)
        (complete-IsGood turn.complete_works d s token result_retryable "" message turn.completed_at
          t u good)
  after_send-IsGood (ok r) s turn token p t u good =
      record_verdict-IsGood (judge_status r.status_code) s turn token r p t u good

  after_claim-IsGood :
      (o : Outcome (Option ℕ)) (s : ℕ) (turn : Turn) (p : Progress) (t : Tables)
      → IsGood t o.1
      → TurnIsGood d s p t (after_claim world d user o s turn p)
  after_claim-IsGood (err e, u) s turn p t good =
      transient_turn d s (concat "claim web push delivery result: " (world.message_of e)) p p t u
        good
  after_claim-IsGood (ok none, u) s turn p t good =
      transient_turn d s "web push delivery recipient is already being processed" p p t u good
  after_claim-IsGood (ok (some token), u) s turn p t good =
      after_send-IsGood turn.answer s turn token p t (run turn.during u)
        (IsGood-trans t u (run turn.during u) good (run-Keeps turn.during u))

  -- What the loaded results say of the tables.
  abbrev pub IsLoaded : (ℕ → Option ResultRow) → Tables → Type 0
  IsLoaded loaded t =
      (s : ℕ) (row : ResultRow)
      → loaded s ≡ some row
      → is_terminal row.state ≡ true
      → t.results d s ≡ some row

  note_stored-IsGood :
      (state : DeliveryResultState) (s : ℕ) (p q : Progress) (t u : Tables) (row : ResultRow)
      → row.state ≡ state
      → IsGood t u
      → (is_terminal row.state ≡ true → u.results d s ≡ some row)
      → note_stored state row.provider_response p ≡ some q
      → TurnIsGood d s p t (q, u)
  note_stored-IsGood result_succeeded s p q t u row e good at_key noted =
      let last : is_terminal row.state ≡ true = rw e refl in
      let same : note_success (record p { last_response = or_empty row.provider_response }) ≡ q =
        cc in
      (
        good,
        λ quiet. (
          ap (λ (x : Progress). x.transient_err) same ∙ quiet,
          (row, at_key last, last),
          λ some_sent. inr (row, at_key last, e),
        ),
      )
  note_stored-IsGood result_expired s p q t u row e good at_key noted =
      let last : is_terminal row.state ≡ true = rw e refl in
      let same : note_permanent "web push subscription result is expired"
            (record p { last_response = or_empty row.provider_response })
          ≡ q =
        cc in
      (
        good,
        λ quiet. (
          ap (λ (x : Progress). x.transient_err) same ∙ quiet,
          (row, at_key last, last),
          λ some_sent. inl (subst (λ (x : Progress). 0 < x.succeeded) (sym same) some_sent),
        ),
      )
  note_stored-IsGood result_permanent s p q t u row e good at_key noted =
      let last : is_terminal row.state ≡ true = rw e refl in
      let same : note_permanent "web push subscription result is permanent"
            (record p { last_response = or_empty row.provider_response })
          ≡ q =
        cc in
      (
        good,
        λ quiet. (
          ap (λ (x : Progress). x.transient_err) same ∙ quiet,
          (row, at_key last, last),
          λ some_sent. inl (subst (λ (x : Progress). 0 < x.succeeded) (sym same) some_sent),
        ),
      )
  note_stored-IsGood result_pending s p q t u row e good at_key noted = absurd (cc)
  note_stored-IsGood result_retryable s p q t u row e good at_key noted = absurd (cc)

  pub stored_progress-IsGood :
      (found : Option ResultRow) (s : ℕ) (p q : Progress) (t u : Tables)
      → IsGood t u
      → ((row : ResultRow)
          → found ≡ some row
          → is_terminal row.state ≡ true
          → u.results d s ≡ some row)
      → stored_progress found p ≡ some q
      → TurnIsGood d s p t (q, u)
  stored_progress-IsGood none s p q t u good at_key noted = absurd (cc)
  stored_progress-IsGood (some row) s p q t u good at_key noted =
      note_stored-IsGood row.state s p q t u row refl good (at_key row refl) noted

  pub take_turn-IsGood :
      (stored : Option Progress) (lease : Duration) (s : ℕ) (turn : Turn) (p : Progress)
      (t u : Tables)
      → IsGood t u
      → ((q : Progress) → stored ≡ some q → TurnIsGood d s p t (q, u))
      → TurnIsGood d s p t (take_turn world d user stored lease s turn p u)
  take_turn-IsGood (some q) lease s turn p t u good noted = noted q refl
  take_turn-IsGood none lease s turn p t u good noted =
      after_claim-IsGood
        (claim_delivery_result turn.claim_works d s lease turn.token turn.claimed_at u) s turn p t
        (IsGood-trans t u
          (claim_delivery_result turn.claim_works d s lease turn.token turn.claimed_at u).1 good
          (claim_delivery_result-IsGood turn.claim_works d s lease turn.token turn.claimed_at u))
