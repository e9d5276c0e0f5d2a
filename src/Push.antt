-- ===== src/Push.antt =====
-- internal/push/subscription.go: the subscriptions of users to web pushes, and the result of each
-- delivery for each subscription. An id is a number, 0 is `uuid.Nil`; a text is its code points. The
-- primary key of the results is the pair of a delivery and a subscription, so that they are a map;
-- `works` says of a call whether its statements and its commit succeed in the database.
pub mod Validation
pub mod Subscriptions
pub mod Results
pub mod Calls
pub mod Adapter
pub mod Settled
pub mod Claims
pub mod Owners
pub mod Delivered
pub mod Tests
use signa.Prelude.{ℕ, String, Option, List}
use signa.Prelude.Result.{Result}
use signa.Prelude.Time.{Time}

pub record SubscriptionInput : Type 0 where
  pub endpoint : List ℕ
  pub p256dh : List ℕ
  pub auth : List ℕ

pub record Subscription : Type 0 where
  pub id : ℕ
  pub user_id : ℕ
  pub endpoint : List ℕ
  pub p256dh : List ℕ
  pub auth : List ℕ
  pub created_at : Time
  pub updated_at : Time

pub data DeliveryResultState : Type 0 where
  result_pending result_succeeded result_expired : DeliveryResultState
  result_permanent result_retryable : DeliveryResultState

-- A row of `web_push_delivery_results`.
pub record ResultRow : Type 0 where
  pub state : DeliveryResultState
  pub provider_response : Option String
  pub error_message : Option String
  pub claimed_until : Option Time
  pub claim_token : Option ℕ
  pub completed_at : Option Time
  pub updated_at : Time

pub record Tables : Type 0 where
  pub subscriptions : List Subscription
  pub results : ℕ → ℕ → Option ResultRow

pub data Error : Type 0 where
  user_required endpoint_not_https endpoint_not_public bad_p256dh bad_auth : Error
  subscription_conflict subscription_not_found identity_required : Error
  claim_lost bad_state database_failed : Error

-- What a call returns, and the tables that it leaves.
abbrev pub Outcome : Type 0 → Type 0
Outcome A = Result Error A × Tables
