-- ===== src/Independence/Secrecy.antt =====
-- The opaque tokens of an input, and the texts of an answer that internal/ai/independence accepts.
-- The text stands in the document, at some depth.
use signa.Independence.{Input, validate_input, echoed}
use signa.Independence.Agreement.{provider}
use signa.Independence.Validator.{
  Json, validate, some_contains, Answer, validate_for_input, echoes, string_value, or_failed,
  object, array, text_contains, contains_string, Items, private_values, process, cons, other, nil,
}
use signa.Prelude.{
  String, ◌≡◌, subst, inl, inr, Bool, true, false, not, ◌&&◌, ◌||◌, Option, List, [], ◌∷◌, arith,
  str_eq, eq_iff, Bool-cases,
}
use signa.Prelude.Float.{Float, FloatArith}
use signa.Prelude.Result.{ok, fail_if, ok_inj, >>=-eq-ok}
use signa.Prelude.Text.{contains}

mutual
  pub data Holds : Json → String → Type 0 where
    here : (s : String) → Holds (string_value s) s
    in_array : {items : Items} {s : String} → HoldsOne items s → Holds (array items) s
    in_object : {items : Items} {s : String} → HoldsOne items s → Holds (object items) s

  pub data HoldsOne : Items → String → Type 0 where
    first : {item : Json} {items : Items} {s : String} → Holds item s → HoldsOne (cons item items) s
    later :
        {item : Json} {items : Items} {s : String} → HoldsOne items s → HoldsOne (cons item items) s

or_false : (a b : Bool) → (a || b) ≡ false → (a ≡ false) × (b ≡ false)
or_false a b h = ground arith

mutual
  unfolding contains_string

  contains_string-Holds :
      (d : Json) (s needle : String)
      → Holds d s
      → contains_string d needle ≡ false
      → text_contains s needle ≡ false
  contains_string-Holds (string_value t) s needle (here u) none_found = none_found
  contains_string-Holds (array items) s needle (in_array h) none_found =
      some_contains-Holds items s needle h none_found
  contains_string-Holds (object items) s needle (in_object h) none_found =
      some_contains-Holds items s needle h none_found
  contains_string-Holds other s needle h none_found = elim h [ ]

  some_contains-Holds :
      (items : Items) (s needle : String)
      → HoldsOne items s
      → some_contains items needle ≡ false
      → text_contains s needle ≡ false
  some_contains-Holds nil s needle h none_found = elim h [ ]
  some_contains-Holds (cons item items) s needle (first h) none_found =
      contains_string-Holds item s needle h
        (or_false (contains_string item needle) (some_contains items needle) none_found).0
  some_contains-Holds (cons item items) s needle (later h) none_found =
      some_contains-Holds items s needle h
        (or_false (contains_string item needle) (some_contains items needle) none_found).1

echoes-contains_string :
    (d : Json) (values : List String) (v : String)
    → echoes d values ≡ false
    → contains values v ≡ true
    → str_eq v "" ≡ false
    → contains_string d v ≡ false
unfolding echoes contains
echoes-contains_string d [] v e member filled = absurd (cc)
echoes-contains_string d (x ∷ values) v e member filled = elim (Bool-cases (str_eq x v)) [
  | inl same ↦
      let clear = (or_false (not (str_eq x "") && contains_string d x) (echoes d values) e).0 in
      let x-v = (eq_iff x v).0 same in
      let clear2 : (not (str_eq v "") && contains_string d v) ≡ false =
        subst (λ y. (not (str_eq y "") && contains_string d y) ≡ false) x-v clear in
      ground arith
  | inr apart ↦
      echoes-contains_string d values v
        (or_false (not (str_eq x "") && contains_string d x) (echoes d values) e).1
        (rw apart at member) filled
]

module _ {F : Type 0} ⦃f : Float F⦄ ⦃r : FloatArith F⦄ where
  -- The processor gives no opaque token away: no text, at any depth of the document that it accepts, is an origin or a media fingerprint of the two observations, and none contains one of at least four bytes, whatever the provider answers; an empty token is not looked for.
  pub process-Holds :
      (provider : Input → Option (Answer F)) (input : Input) (answer : Answer F) (token s : String)
      → process provider input ≡ ok answer
      → contains (private_values input) token ≡ true
      → str_eq token "" ≡ false
      → Holds answer.document s
      → text_contains s token ≡ false
  unfolding process validate_for_input
  process-Holds provider input answer token s accepted member filled held =
      let (tt, valid, rest) = >>=-eq-ok (validate_input input) _ accepted in
      let (given, answered, rest2) = >>=-eq-ok (or_failed (provider input)) _ rest in
      let (tt, validated, rest3) = >>=-eq-ok (validate given.assessment) _ rest2 in
      let (tt, quiet, last) =
        >>=-eq-ok (fail_if (echoes given.document (private_values input)) echoed) _ rest3 in
      let same : given ≡ answer = ok_inj last in
      let silent : echoes given.document (private_values input) ≡ false = ground arith in
      contains_string-Holds answer.document s token held (
        echoes-contains_string answer.document (private_values input) token
          (subst (λ (a : Answer F). echoes a.document (private_values input) ≡ false) same silent)
          member filled)
