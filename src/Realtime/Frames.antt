-- ===== src/Realtime/Frames.antt =====
-- The text of an event of internal/realtime/sse.go.
-- The parts with the separator between each two.
use signa.Prelude.{
  ℕ, String, ◌≡◌, if_case, refl, sym, ap, ◌∙◌, inl, inr, false, some, List, [], ◌∷◌, ◌++◌, arith,
  ◌==◌, Bool-cases, is_empty, All, Option, none,
}
use signa.Prelude.Result.{Result, ok, Result-cases}
use signa.Prelude.Text.{codes}
use signa.Realtime.{
  contains_code, split_on, event_text, write_event, CursorError, Cursor, newline_in, prepend, Event,
  data_lines,
}

unfoldable pub join_with : ℕ → List (List ℕ) → List ℕ
join_with sep [] = []
join_with sep (part ∷ []) = part
join_with sep (part ∷ (next ∷ parts)) = part ++ (sep ∷ join_with sep (next ∷ parts))

join_with-prepend :
    (sep c : ℕ) (parts : List (List ℕ)) → join_with sep (prepend c parts) ≡ c ∷ join_with sep parts
unfolding join_with
join_with-prepend sep c [] = refl
join_with-prepend sep c (part ∷ []) = refl
join_with-prepend sep c (part ∷ (next ∷ parts)) = refl

prepend-not_empty : (c : ℕ) (parts : List (List ℕ)) → is_empty (prepend c parts) ≡ false
prepend-not_empty c [] = refl
prepend-not_empty c (part ∷ parts) = refl

split_on-not_empty : (sep : ℕ) (s : List ℕ) → is_empty (split_on sep s) ≡ false
unfolding split_on
split_on-not_empty sep [] = refl
split_on-not_empty sep (c ∷ s) =
    if_case (λ (l : List (List ℕ)). is_empty l ≡ false) (c == sep) refl
      (prepend-not_empty c (split_on sep s))

join_with-separator :
    (sep : ℕ) (parts : List (List ℕ))
    → is_empty parts ≡ false
    → join_with sep ([] ∷ parts) ≡ sep ∷ join_with sep parts
unfolding join_with
join_with-separator sep [] h = absurd (cc)
join_with-separator sep (part ∷ parts) h = refl

-- Splitting loses nothing.
pub join_with-split_on : (sep : ℕ) (s : List ℕ) → join_with sep (split_on sep s) ≡ s
unfolding split_on join_with
join_with-split_on sep [] = refl
join_with-split_on sep (c ∷ s) = elim (Bool-cases (c == sep)) [
  | inl same ↦
      let equal : c ≡ sep = ground arith in
      rw same (
        join_with-separator sep (split_on sep s) (split_on-not_empty sep s)
        ∙ ap (λ r. sep ∷ r) (join_with-split_on sep s)
        ∙ ap (λ k. k ∷ s) (sym equal))
  | inr other ↦
      rw other
        (join_with-prepend sep c (split_on sep s) ∙ ap (λ r. c ∷ r) (join_with-split_on sep s))
]

abbrev pub Free : ℕ → List ℕ → Type 0
Free sep part = contains_code sep part ≡ false

prepend-Free :
    (sep c : ℕ) (parts : List (List ℕ))
    → (c == sep) ≡ false
    → All (Free sep) parts
    → All (Free sep) (prepend c parts)
unfolding contains_code
prepend-Free sep c [] h all = (rw h refl, tt)
prepend-Free sep c (part ∷ parts) h (p, all) = (rw h p, all)

-- No part holds the separator.
pub split_on-Free : (sep : ℕ) (s : List ℕ) → All (Free sep) (split_on sep s)
unfolding split_on contains_code
split_on-Free sep [] = (refl, tt)
split_on-Free sep (c ∷ s) = elim (Bool-cases (c == sep)) [
  | inl same ↦ rw same (refl, split_on-Free sep s)
  | inr other ↦ rw other (prepend-Free sep c (split_on sep s) other (split_on-Free sep s))
]

none-some : {w : List ℕ} → ¬ Path (Option (List ℕ)) none (some w)
none-some e = cc

text_inj : {v w : List ℕ} → Path (Option (List ℕ)) (some v) (some w) → w ≡ v
text_inj e = cc

-- An event is written only if its name has no line break and its cursor can be encoded. Then the text is the id line, the event line, one data line for each line of the payload and an empty line; no data line is broken by a newline, and the lines joined by newlines are the payload.
pub write_event-lines :
    (encode : Cursor → Result CursorError String) (cursor : Cursor) (event : Event) (words : List ℕ)
    → write_event encode cursor event ≡ some words
    → (newline_in event.name ≡ false)
      × (id : String) × (lines : List (List ℕ)) × (encode cursor ≡ ok id)
      × (words
          ≡ codes "id: "
            ++ codes id
            ++ codes "\nevent: "
            ++ codes event.name
            ++ (10 ∷ data_lines lines)
            ++ (10 ∷ []))
      × All (Free 10) lines
      × (join_with 10 lines ≡ codes event.payload)
unfolding write_event event_text
write_event-lines encode cursor event words e = elim (Bool-cases (newline_in event.name)) [
  | inl broken ↦ absurd (none-some (rw (write_event, broken) at e))
  | inr whole ↦ elim (Result-cases (encode cursor)) [
    | inl (id, encoded) ↦ (
      whole,
      id,
      split_on 10 (codes event.payload),
      encoded,
      text_inj (rw (write_event, whole, encoded) at e),
      split_on-Free 10 (codes event.payload),
      join_with-split_on 10 (codes event.payload),
    )
    | inr (bad, encoded) ↦ absurd (none-some (rw (write_event, whole, encoded) at e))
  ]
]
