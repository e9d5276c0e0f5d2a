-- ===== src/Push/Calls.antt =====
-- The calls that the workers and the API make of the store of internal/push, in any order.
use signa.Prelude.{ℕ, String, Bool, List, [], ◌∷◌}
use signa.Prelude.Time.{Time, Duration}
use signa.Push.{DeliveryResultState, Tables, Subscription, SubscriptionInput}
use signa.Push.Results.{
  claim_delivery_result, ensure_delivery_results, complete_expired_delivery_result,
  complete_delivery_result,
}
use signa.Push.Subscriptions.{delete, upsert, remove_expired}
use signa.Push.Validation.{Parsers}

pub data Call : Type 0 where
  upserts : Parsers → Bool → ℕ → ℕ → SubscriptionInput → Time → Call
  deletes : Bool → ℕ → ℕ → Call
  removes : Bool → ℕ → ℕ → Call
  ensures : Bool → ℕ → ℕ → List Subscription → Time → Call
  claims : Bool → ℕ → ℕ → Duration → ℕ → Time → Call
  completes : Bool → ℕ → ℕ → ℕ → DeliveryResultState → String → String → Time → Call
  expires : Bool → ℕ → ℕ → ℕ → ℕ → String → String → Time → Call

abbrev pub apply : Call → Tables → Tables
apply (upserts p works fresh user input now) t = (upsert p works fresh user input now t).1
apply (deletes works user id) t = (delete works user id t).1
apply (removes works user id) t = (remove_expired works user id t).1
apply (ensures works d user subscriptions now) t =
    (ensure_delivery_results works d user subscriptions now t).1
apply (claims works d s lease token now) t = (claim_delivery_result works d s lease token now t).1
apply (completes works d s token state response message now) t =
    (complete_delivery_result works d s token state response message now t).1
apply (expires works d user s token response message now) t =
    (complete_expired_delivery_result works d user s token response message now t).1

unfoldable pub run : List Call → Tables → Tables
run [] t = t
run (c ∷ calls) t = run calls (apply c t)
