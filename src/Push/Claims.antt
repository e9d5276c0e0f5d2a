-- ===== src/Push/Claims.antt =====
-- The claims on the results of internal/push/subscription.go.
-- What a claim that was granted found and left.
use signa.Prelude.{
  ℕ, ◌≡◌, sym, ap, inl, inr, Bool, true, false, ◌&&◌, ◌||◌, Option, none, some, arith, ◌==◌,
  Bool-cases, String, subst, refl, if◌then◌else◌,
}
use signa.Prelude.Int.{◌+ℤ◌, ltb_ℤ, leb_ℤ}
use signa.Prelude.Result.{ok, err}
use signa.Prelude.Time.{Time, Duration}
use signa.Push.{
  Outcome, identity_required, Tables, ResultRow, database_failed, claim_lost, DeliveryResultState,
}
use signa.Push.Results.{
  is_open, claim_delivery_result, lease_of, put_row, claimed_row, claim_row, is_free,
  valid_delivery_result_state, complete_row, complete_delivery_result, completed_row,
}
use signa.Push.Settled.{put_at}

pub record Granted (d s : ℕ) (lease : Duration) (token : ℕ) (now : Time) (t t' : Tables)
    : Type 0 where
  pub row : ResultRow
  pub real : (d == 0 || s == 0) ≡ false
  pub open_before : is_open row.state ≡ true
  pub after : t' ≡ put_row d s (claimed_row token (now +ℤ lease_of lease) row) t

ok_none_some :
    {A : Type 0} (a : ℕ) (t u : Tables)
    → Path (Outcome (Option ℕ)) (ok none, t) (ok (some a), u)
    → A
ok_none_some a t u e = absurd (cc)

claim_row-Granted :
    (d s : ℕ) (lease : Duration) (token : ℕ) (now : Time) (t t' : Tables) (found : Option ResultRow)
    → (d == 0 || s == 0) ≡ false
    → claim_row d s lease token now t found ≡ (ok (some token), t')
    → Granted d s lease token now t t'
unfolding claim_row
claim_row-Granted d s lease token now t t' none real e = ok_none_some token t t' e
claim_row-Granted d s lease token now t t' (some row) real e =
    elim (Bool-cases (is_open row.state && is_free row.claimed_until now)) [
      | inl claimable ↦
          let left : put_row d s (claimed_row token (now +ℤ lease_of lease) row) t ≡ t' =
            ap (λ (o : Outcome (Option ℕ)). o.1) (rw claimable at e) in
          record { row = row; real = real; open_before = ground arith; after = sym left }
      | inr refused ↦ ok_none_some token t t' (rw refused at e)
    ]

claim-Granted :
    (works : Bool) (d s : ℕ) (lease : Duration) (token : ℕ) (now : Time) (t t' : Tables)
    → claim_delivery_result works d s lease token now t ≡ (ok (some token), t')
    → Granted d s lease token now t t'
unfolding claim_delivery_result
claim-Granted works d s lease token now t t' e = elim (Bool-cases (d == 0 || s == 0)) [
  | inl nil_id ↦
      let bad : Path (Outcome (Option ℕ)) (err identity_required, t) (ok (some token), t') =
        rw nil_id at e in
      absurd (cc)
  | inr real ↦ elim (Bool-cases works) [
    | inl up ↦ claim_row-Granted d s lease token now t t' (t.results d s) real (rw (real, up) at e)
    | inr down ↦
        let bad : Path (Outcome (Option ℕ)) (err database_failed, t) (ok (some token), t') =
          rw (real, down) at e in
        absurd (cc)
  ]
]

claimed-claim_row :
    (d s : ℕ) (lease : Duration) (token : ℕ) (later deadline : Time) (t : Tables) (held : ℕ)
    (row : ResultRow)
    → leb_ℤ later deadline ≡ true
    → claim_row d s lease token later t (some (claimed_row held deadline row)) ≡ (ok none, t)
unfolding claim_row
claimed-claim_row d s lease token later deadline t held row early =
    let busy : (is_open row.state && ltb_ℤ deadline later) ≡ false = ground arith in rw busy refl

-- After a claim that was granted, no other claim of the same result is granted until the lease is over, up to its last moment: it returns nothing and changes nothing, whoever makes it and for whichever lease.
pub claim-claim :
    (works : Bool) (d s : ℕ) (lease other_lease : Duration) (token other : ℕ) (now later : Time)
    (t t' : Tables)
    → claim_delivery_result works d s lease token now t ≡ (ok (some token), t')
    → leb_ℤ later (now +ℤ lease_of lease) ≡ true
    → claim_delivery_result true d s other_lease other later t' ≡ (ok none, t')
unfolding claim_delivery_result
claim-claim works d s lease other_lease token other now later t t' e early =
    let g = claim-Granted works d s lease token now t t' e in
    let row = claimed_row token (now +ℤ lease_of lease) g.row in
    let at_key : t'.results d s ≡ some row =
      subst (λ (u : Tables). u.results d s ≡ some row) (sym g.after) (put_at d s row t.results) in
    rw (g.real, at_key)
      (claimed-claim_row d s other_lease other later (now +ℤ lease_of lease) t' token g.row early)

-- After a claim that was granted, a completion with any token succeeds exactly if the token is the one of the claim and the lease is not over; it then stores its state with the texts that are not empty and ends the claim, and otherwise the claim is lost and nothing changes.
pub claim_row-complete_row :
    (works : Bool) (d s : ℕ) (lease : Duration) (token other : ℕ) (now later : Time) (t t' : Tables)
    (state : DeliveryResultState) (response message : String)
    → claim_delivery_result works d s lease token now t ≡ (ok (some token), t')
    → (other == 0) ≡ false
    → valid_delivery_result_state state ≡ true
    → (row : ResultRow) × (t'.results d s ≡ some row)
      × (complete_delivery_result true d s other state response message later t' ≡ (
          if token == other && ltb_ℤ later (now +ℤ lease_of lease)
          then (ok tt, put_row d s (completed_row state response message later row) t')
          else (err claim_lost, t')))
unfolding complete_delivery_result complete_row
claim_row-complete_row works d s lease token other now later t t' state response message e real
      valid =
    let g = claim-Granted works d s lease token now t t' e in
    let row = claimed_row token (now +ℤ lease_of lease) g.row in
    let at_key : t'.results d s ≡ some row =
      subst (λ (u : Tables). u.results d s ≡ some row) (sym g.after) (put_at d s row t.results) in
    (row, at_key, rw (real, valid, at_key) refl)
