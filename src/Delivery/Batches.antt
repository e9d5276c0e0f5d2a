-- ===== src/Delivery/Batches.antt =====
-- Which messages of a batch internal/delivery/consumer.go handles.
use signa.Delivery.Consumer.{
  is_waiting, Batch, remove_deferred, find_deferred, Deferred, Tick, retry_after_or, after_process,
  handled_by, process_messages, process_batch, defer_message, acknowledge,
}
use signa.Delivery.Processor.{ProcessResult}
use signa.Prelude.{
  String, ◌≡◌, subst, refl, sym, ap, inl, inr, false, some, List, [], ◌∷◌, if◌then◌else◌, str_eq,
  eq_iff, Bool-cases, All, if_case, if_cases, ◌∙◌, Bool, true, not, ◌||◌,
}
use signa.Prelude.Result.{Result, ok, err}
use signa.Prelude.Text.{contains}
use signa.Prelude.Time.{Duration}
use signa.Stream.{StreamMessage}
use signa.Stream.Merge.{merge_messages, Distinct, merge_messages-Distinct}

find-remove_other :
    (id other : String) (deferred : Deferred)
    → str_eq id other ≡ false
    → find_deferred other (remove_deferred id deferred) ≡ find_deferred other deferred
unfolding find_deferred remove_deferred
find-remove_other id other [] apart = refl
find-remove_other id other ((k, until) ∷ deferred) apart =
    let rest = find-remove_other id other deferred apart in
    elim (Bool-cases (str_eq k id)) [
      | inl same ↦
          let no : str_eq k other ≡ false =
            subst (λ x. str_eq x other ≡ false) (sym ((eq_iff k id).0 same)) apart in
          rw (same, no) rest
      | inr different ↦ rw different (ap (λ r. if str_eq k other then some until else r) rest)
    ]

module _ {S : Type 0} {E : Type 0} (handle : StreamMessage → S → Result E ProcessResult × S)
    (tick : String → Tick) (poll : Duration) (deferred : Deferred) where
  -- The message is not deferred, or its time has come.
  abbrev pub IsDue : String → Type 0
  IsDue id = is_waiting (find_deferred id deferred) (tick id).checked_at ≡ false

  -- The ids are different.
  abbrev pub AllDifferent : List String → Type 0
  AllDifferent [] = Unit
  AllDifferent (id ∷ ids) = (contains ids id ≡ false) × AllDifferent ids

  -- What is known in the loop: of the ids outside `seen` nothing has changed.
  record Known (seen : List String) (b : Batch S) : Type 0 where
    same :
        (id : String)
        → contains seen id ≡ false
        → find_deferred id b.deferred ≡ find_deferred id deferred
    fresh_ids : (id : String) → contains seen id ≡ false → contains b.handled id ≡ false
    due : All IsDue b.handled
    different : AllDifferent b.handled

  -- What is to be shown at the end.
  abbrev pub Handled : Batch S → Type 0
  Handled b = All IsDue b.handled × AllDifferent b.handled

  neither : (a b : Bool) → (a || b) ≡ false → (a ≡ false) × (b ≡ false)
  neither false b h = (refl, h)
  neither true b h = absurd (cc)

  Known-skip : (id : String) (seen : List String) (b : Batch S) → Known seen b → Known (id ∷ seen) b
  unfolding contains
  Known-skip id seen b k = record {
    same = λ other h. k.same other ((neither (str_eq id other) (contains seen other) h).1);
    fresh_ids =
        λ other h. k.fresh_ids other ((neither (str_eq id other) (contains seen other) h).1);
    due = k.due;
    different = k.different;
  }

  Known-handled_by :
      (m : StreamMessage) (s : S) (seen : List String) (b : Batch S)
      → contains seen m.id ≡ false
      → is_waiting (find_deferred m.id b.deferred) (tick m.id).checked_at ≡ false
      → Known seen b
      → Known (m.id ∷ seen) (handled_by handle tick poll m s b)
  unfolding contains
  Known-handled_by m s seen b new ready k = record {
    same = λ other h.
        let (apart, before) = neither (str_eq m.id other) (contains seen other) h in
        find-remove_other m.id other b.deferred apart ∙ k.same other before;
    fresh_ids = λ other h.
        let (apart, before) = neither (str_eq m.id other) (contains seen other) h in
        rw (apart, k.fresh_ids other before) refl;
    due = (subst (λ o. is_waiting o (tick m.id).checked_at ≡ false) (k.same m.id new) ready, k.due);
    different = (k.fresh_ids m.id new, k.different);
  }

  Known-defer_message :
      (id : String) (delay : Duration) (seen : List String) (b : Batch S)
      → Known (id ∷ seen) b
      → Known (id ∷ seen) (defer_message handle tick poll id delay b)
  unfolding contains find_deferred
  Known-defer_message id delay seen b k = record {
    same = λ other h.
        let (apart, before) = neither (str_eq id other) (contains seen other) h in
        rw apart (k.same other h);
    fresh_ids = k.fresh_ids;
    due = k.due;
    different = k.different;
  }

  Known-acknowledge :
      (id : String) (seen : List String) (b : Batch S)
      → Known seen b
      → Known seen (acknowledge handle tick poll id b)
  Known-acknowledge id seen b k = record {
    same = k.same;
    fresh_ids = k.fresh_ids;
    due = k.due;
    different = k.different;
  }

  after_process-Handled :
      (id : String) (r : Result E ProcessResult) (seen : List String) (b : Batch S)
      (rest : Batch S → Batch S)
      → Known (id ∷ seen) b
      → ((next : Batch S) → Known (id ∷ seen) next → Handled (rest next))
      → Handled (after_process handle tick poll id r b rest)
  after_process-Handled id (err e) seen b rest k on =
      on (defer_message handle tick poll id poll b) (Known-defer_message id poll seen b k)
  after_process-Handled id (ok r) seen b rest k on =
      if_case Handled (not r.ack)
        (on (defer_message handle tick poll id (retry_after_or r poll) b)
          (Known-defer_message id (retry_after_or r poll) seen b k))
        (if_case Handled (tick id).ack_fails (k.due, k.different)
          (on (acknowledge handle tick poll id b) (Known-acknowledge id (id ∷ seen) b k)))

  process_messages-Handled :
      (seen : List String) (messages : List StreamMessage) (b : Batch S)
      → Distinct seen messages
      → Known seen b
      → Handled (process_messages handle tick poll messages b)
  unfolding process_messages
  process_messages-Handled seen [] b d k = (k.due, k.different)
  process_messages-Handled seen (m ∷ messages) b (new, d) k =
      let answer = handle m b.state in
      if_cases Handled (is_waiting (find_deferred m.id b.deferred) (tick m.id).checked_at)
        (λ waiting. process_messages-Handled (m.id ∷ seen) messages b d (Known-skip m.id seen b k))
        (λ ready.
          after_process-Handled m.id answer.0 seen (handled_by handle tick poll m answer.1 b)
            (λ next. process_messages handle tick poll messages next)
            (Known-handled_by m answer.1 seen b new ready k)
            (λ next known. process_messages-Handled (m.id ∷ seen) messages next d known))

  -- In one batch, however often a message stands in it, `Process` is called at most once for each id, and only for messages that were not deferred at the start of the batch or whose time has come when they are looked at.
  pub process_batch-Handled :
      (messages : List StreamMessage) (s : S)
      → Handled (process_batch handle tick poll messages s deferred)
  unfolding process_batch contains
  process_batch-Handled messages s =
      process_messages-Handled [] (merge_messages messages) _ ((merge_messages-Distinct messages).0)
        (record { same = λ id h. refl; fresh_ids = λ id h. refl; due = tt; different = tt })
