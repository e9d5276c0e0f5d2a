-- ===== src/Independence/Completeness.antt =====
-- The factors of an assessment that the validator of internal/ai/independence accepts.
use mathlib.Core.List.Perm
use mathlib.Core.List.{Perm, append-nil}
use signa.Independence.{note, no_summary, Factor, Assessment, Summary}
use signa.Independence.Validator.{
  validate, is_allowed, check_summary, delete, required, check_factors,
}
use signa.Prelude.{
  String, ◌≡◌, subst, inl, inr, true, not, List, [], ◌∷◌, ◌++◌, arith, str_eq, eq_iff, Bool-cases,
  is_empty,
}
use signa.Prelude.Float.{Float, FloatArith}
use signa.Prelude.Result.{ok, fail_if, >>=-eq-ok}
use signa.Prelude.Text.{contains}

delete-perm :
    (name : String) (wanted : List String)
    → contains wanted name ≡ true
    → Perm (name ∷ delete name wanted) wanted
unfolding delete contains
delete-perm name [] member = absurd (cc)
delete-perm name (w ∷ wanted) member = elim (Bool-cases (str_eq w name)) [
  | inl same ↦ rw (same, (eq_iff w name).0 same) (Perm.refl (name ∷ wanted))
  | inr apart ↦ rw apart (
      Perm.trans (Perm.swap w name (delete name wanted))
        (Perm.cons w (delete-perm name wanted (rw apart at member))))
]

module _ {F : Type 0} where
  abbrev pub names : List (Factor F) → List String
  names [] = []
  names (x ∷ factors) = x.name ∷ names factors

  -- The names that the loop has met and the ones that it still wants are the ones it wanted.
  check_factors-perm :
      (factors : List (Factor F)) (wanted : List String) (s : Summary) (rest : List String)
      (last : Summary)
      → check_factors factors wanted s ≡ ok (rest, last)
      → Perm (names factors ++ rest) wanted
  unfolding check_factors
  check_factors-perm [] wanted s rest last e =
      let same : wanted ≡ rest = cc in rw same (Perm.refl rest)
  check_factors-perm (x ∷ factors) wanted s rest last e =
      let (tt, member, e2) = >>=-eq-ok (fail_if (not (contains wanted x.name)) _) _ e in
      let (tt, allowed, e3) = >>=-eq-ok (fail_if (not (is_allowed x.name x.outcome)) _) _ e2 in
      Perm.trans
        (Perm.cons x.name
          (check_factors-perm factors (delete x.name wanted) (note x s) rest last e3))
        (delete-perm x.name wanted (ground arith))

module _ {F : Type 0} ⦃f : Float F⦄ ⦃r : FloatArith F⦄ where
  -- The validator accepts an assessment only if it has the four factors, each once, in whatever order.
  pub validate-perm : (a : Assessment F) → validate a ≡ ok tt → Perm (names a.factors) required
  unfolding validate
  validate-perm a e =
      let ((rest, s), checked, e2) =
        >>=-eq-ok (check_factors a.factors required no_summary) (check_summary a) e in
      let (tt, complete, e3) = >>=-eq-ok (fail_if (not (is_empty rest)) _) _ e2 in
      no_rest a rest s checked (ground arith)
    where
      no_rest :
          (a : Assessment F) (rest : List String) (s : Summary)
          → check_factors a.factors required no_summary ≡ ok (rest, s)
          → is_empty rest ≡ true
          → Perm (names a.factors) required
      no_rest a [] s checked complete =
          subst (λ l. Perm l required) (append-nil (names a.factors))
            (check_factors-perm a.factors required no_summary [] s checked)
      no_rest a (w ∷ rest) s checked complete = absurd (cc)
