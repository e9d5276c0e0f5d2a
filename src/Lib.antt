-- ===== src/Lib.antt =====
-- Signa: reports from the public become incidents, incidents become alerts, and alerts are delivered.
--
-- The program's parts, the files that model them, and how they interact. Paths are from the
-- repository's root.
--   Lifecycle (internal/incidents/lifecycle/policy.go): a sweep ages an incident from open through
--     resolving and resolved to expired. `evaluate` is `Evaluate`; `decide` is what it does after its
--     checks.
--   Confidence (internal/incidents/confidence/policy.go): the confidence and the severity of an incident
--     from its reports. `gather` is the loop of `EvaluateWithCoordination`, one turn of which is
--     `add_item`; `outcome` is what follows the loop.
--   Attachment (internal/incidents/policy.go): `decide_attachment` is `DecideAttachment`. Its insertion
--     sort keeps the sorted part of the slice as a list with the last candidate first.
--   Incidents (internal/incidents/processor.go and lifecycle_processor.go): the transactions around the
--     policies. In Incidents/Assessing `assess_excluding`, `recheck` and `apply` are `assessExcluding`, the
--     loop of `apply` and `apply`, on the tables of Incidents/Attaching, and Incidents/Processor has `Process`;
--     Incidents/LifecycleProcessor has `evaluateLocked`, `Process` and `Sweep`.
--   Contradiction (internal/ai/contradiction and a check of internal/ai/location): Contradiction/Evaluator
--     has the rule-based evaluator, and Contradiction/Validator the validator after the JSON schema and the
--     processor that calls a provider.
--   Independence (internal/ai/independence): whether two reports are of independent origin.
--     Independence/Evaluator has the rule-based evaluator with its word sets, Independence/Validator the
--     validator after the JSON schema, the search for opaque tokens and the processor.
--   Priority (internal/priority/policy.go, and route_policy.go in Priority/Routes): the level of an
--     incident for a user, from its state and the distance.
--   Alerts (internal/alerts/policy.go): which incidents are alerted. Alerts/Agreement joins it with
--     Priority.
--   Outbox (internal/outbox/outbox.go): the publisher that moves the events of the database to Redis
--     streams. In Outbox/Publisher the state is the table and the entries added to the streams, and
--     `World` says what fails.
--   Stream (internal/ai/extraction/event.go, and the merging of consumer.go in Stream/Merge): the
--     messages that consumers read from these streams.
--   Delivery (internal/delivery): `Slot` is all that the database holds of one delivery, `start_slot` and
--     `finish_slot` are the transactions of `StartAttempt` and `FinishAttempt` on it, Delivery/Store has
--     them on the whole table, and Delivery/Processor has `ParseRequest` and `Process`, which calls the
--     adapter between the two. Delivery/Consumer has the loop over one batch of messages. Delivery/Runs
--     has sequences of transactions: the row lock makes each of them one step, so that any interleaving
--     of workers is such a sequence.
--   Push (internal/push/subscription.go and internal/webpush/adapter.go): the subscriptions of browsers
--     and the results of a delivery for each of them. Push/Validation has `ValidateSubscription`,
--     Push/Subscriptions and Push/Results the operations of the store, each one statement or transaction,
--     Push/Calls a sequence of them, and Push/Adapter has `Deliver`, between whose steps other workers
--     may call the store; it is the adapter that Delivery calls.
--   Config (internal/config): the settings and policies that are read from the environment, among them
--     the ones of Lifecycle, Confidence, Priority, Attachment and Retention.
--   RateLimit (internal/api/rate_limit.go): the token buckets in front of the HTTP API. `Allow` holds a
--     mutex throughout, so a call is one step.
--   Realtime (internal/realtime/sse.go): the event stream to browsers and the cursor that resumes it.
--   Latency (internal/latency/timeline.go): the timeline from a report to the delivery of its alert, which
--     `build_timeline` in Latency/Build makes.
--   Retention (internal/retention/retention.go): the loop that takes old rows away in batches.
--   Prelude: names that the modules share, and what the model needs of the Go language: results and
--     errors, integers, times, texts and `float64`.
--
-- What stands for the Go types. A `time.Time` is a number of nanoseconds since Go's zero time, without a
-- bound; `Sub` stops at the largest and the smallest `int64`, and a duration times a count, and the rest
-- of a lease, wrap round as `int64` does. A Go `int` that counts is a natural number or an integer without
-- a bound. A `float64` is a type with the operations that the code uses, of which the theorems assume what
-- IEEE 754 says. `lower` is exact on ASCII text. An error is a constructor of the component's own type,
-- without its message; a nil pointer is `none`.
--
-- Loops are recursion on a list, or, in `publish_from`, on the number of events that the batch still has
-- room for: the code's loop claims a new event in each turn that goes on, so it takes no more turns.
-- `sweep_from` has fuel for one turn more than there are rows to take, and running out of it is `none`.
-- `recheck` has fuel too, and running out of it is an error of its own: each of its turns excludes one
-- more candidate, so that more fuel than there are candidates is enough.
--
-- Parameters stand for what is not in the repository: decoding JSON and base64, parsing UUIDs,
-- `strings.EqualFold`, parsing URLs and addresses, the environment, the answers of the database to read-only
-- queries, the sender of web pushes, and, for Delivery, its adapter. A statement of a transaction that
-- fails rolls the transaction back. Two transactions of Incidents on the same report do not overlap, since
-- each locks the report's row.
--
-- Not modelled: the web application, SQL and the migrations, the Redis client, the HTTP handlers apart
-- from the two above, authentication, storage of media, logging and metrics: they are input and output.
-- Of internal/incidents the confidence processor, the loops of the consumers and the reads are left out,
-- and of internal/ai the extraction, the similarity and coordination assessments and the evaluation
-- suites, as are the alert store, the latency store, verification requests, geography and routing.
pub mod Prelude
pub mod Lifecycle
pub mod Confidence
pub mod Priority
pub mod Alerts
pub mod Stream
pub mod Delivery
pub mod Latency
pub mod RateLimit
pub mod Realtime
pub mod Attachment
pub mod Contradiction
pub mod Outbox
pub mod Retention
pub mod Independence
pub mod Push
pub mod Config
pub mod Incidents
