-- ===== src/Stream/Merge.antt =====
-- `MergeMessages` and `filterBlockedMessages` of internal/ai/extraction/consumer.go.
-- The loop of `MergeMessages`; `seen` holds the ids of the messages that are merged already.
use signa.Prelude.{
  String, ◌≡◌, refl, inl, inr, false, ◌||◌, List, [], ◌∷◌, if◌then◌else◌, Bool-cases, subst, Bool,
  true, str_eq, eq_iff, arith,
}
use signa.Prelude.Text.{contains}
use signa.Stream.{StreamMessage}

unfoldable pub merge_from : List String → List StreamMessage → List StreamMessage
unfolding contains
merge_from seen [] = []
merge_from seen (m ∷ messages) =
    let rest = merge_from seen messages in
    let rest_seen = merge_from (m.id ∷ seen) messages in
    if contains seen m.id then rest else m ∷ rest_seen

-- `MergeMessages`, of groups that are joined one after another.
unfoldable pub merge_messages : List StreamMessage → List StreamMessage
unfolding merge_from
merge_messages messages = merge_from [] messages

-- `filterBlockedMessages`.
unfoldable pub filter_blocked : List StreamMessage → List String → List StreamMessage
unfolding contains
filter_blocked [] blocked = []
filter_blocked (m ∷ messages) blocked =
    let rest = filter_blocked messages blocked in if contains blocked m.id then rest else m ∷ rest

abbrev pub ids : List StreamMessage → List String
ids [] = []
ids (m ∷ messages) = m.id ∷ ids messages

-- No two messages have the same id, and none has an id of the list.
abbrev pub Distinct : List String → List StreamMessage → Type 0
Distinct seen [] = Unit
Distinct seen (m ∷ messages) = (contains seen m.id ≡ false) × Distinct (m.id ∷ seen) messages

merge_from-Distinct :
    (seen : List String) (messages : List StreamMessage) → Distinct seen (merge_from seen messages)
unfolding merge_from
merge_from-Distinct seen [] = tt
merge_from-Distinct seen (m ∷ messages) = elim (Bool-cases (contains seen m.id)) [
  | inl known ↦ rw known (merge_from-Distinct seen messages)
  | inr new ↦ rw new (new, merge_from-Distinct (m.id ∷ seen) messages)
]

or_false : (a b : Bool) → (a || false) ≡ (b || false) → a ≡ b
or_false a b e = ground arith

known_lem :
    (same a b s : Bool)
    → (same ≡ true → s ≡ true)
    → (a || s) ≡ (b || s)
    → (a || s) ≡ ((same || b) || s)
known_lem same a b s h e = ground arith

new_lem :
    (same a b s : Bool)
    → (a || (same || s)) ≡ (b || (same || s))
    → ((same || a) || s) ≡ ((same || b) || s)
new_lem same a b s e = ground arith

-- An id is merged or was seen before exactly if it is among the messages or was seen before.
merge_from-ids :
    (seen : List String) (messages : List StreamMessage) (id : String)
    → (contains (ids (merge_from seen messages)) id || contains seen id)
      ≡ (contains (ids messages) id || contains seen id)
unfolding merge_from contains
merge_from-ids seen [] id = refl
merge_from-ids seen (m ∷ messages) id = elim (Bool-cases (contains seen m.id)) [
  | inl known ↦ rw known (
      known_lem (str_eq m.id id) _ (contains (ids messages) id) (contains seen id)
        (λ e. subst (λ k. contains seen k ≡ true) ((eq_iff m.id id).0 e) known)
        (merge_from-ids seen messages id))
  | inr new ↦ rw new (
      new_lem (str_eq m.id id) _ (contains (ids messages) id) (contains seen id)
        (merge_from-ids (m.id ∷ seen) messages id))
]

-- Merging keeps every id that some message has, adds none, and leaves one message for each id.
pub merge_messages-Distinct :
    (messages : List StreamMessage)
    → Distinct [] (merge_messages messages)
      × ((id : String) → contains (ids (merge_messages messages)) id ≡ contains (ids messages) id)
unfolding merge_messages contains
merge_messages-Distinct messages =
    (merge_from-Distinct [] messages, λ id. or_false _ _ (merge_from-ids [] messages id))
