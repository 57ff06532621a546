-- ===== src/Yul/Movable/Safe.antt =====
-- libyul/optimiser/Semantics.cpp: where a movable expression is evaluated does not matter.
use mathlib.Core.Bool.{false≢true}
use lity.Prelude.{
  ℕ, ◌≡◌, refl, ap, subst, ◌∙◌, true, false, List, [], ◌∷◌, if◌then◌else◌, Bool-cases, inl, inr,
  AllOf,
}
use lity.Evmasm.SemanticInformation.{movable}
use lity.Evmasm.Opcode.{Instruction}
use lity.Yul.Expression.{
  Name, LiteralKind, Expression, Arguments, functional_instruction, function_call, identifier,
  literal, no_argument, argument,
}
use lity.Yul.Evaluation.{Meaning, Variables, eval, eval_all, IsPure}
use lity.Yul.Movable.{MovableChecker, visit, visit_all, check}

module _ {State : Type 0} (m : Meaning State) (pure : IsPure m) (v w : Variables) where
  -- Two evaluations, by variables v in state s and by w in t: the first changes nothing, and the
  -- values agree.
  abbrev Alike : Expression → Type 0
  Alike e = (s t : State) → ((eval m v e s).1 ≡ s) × ((eval m v e s).0 ≡ (eval m w e t).0)

  abbrev AlikeAll : Arguments → Type 0
  AlikeAll xs =
      (s t : State) → ((eval_all m v xs s).1 ≡ s) × ((eval_all m v xs s).0 ≡ (eval_all m w xs t).0)

  -- The visit has found nothing so far that is not movable, and only variables on which v and w agree.
  abbrev IsQuiet : MovableChecker → Type 0
  IsQuiet c = (c.is_movable ≡ true) × AllOf (λ n. v n ≡ w n) c.references

  instruction-Alike :
      (i : Instruction) (xs : Arguments)
      → movable i ≡ true
      → AlikeAll xs
      → Alike (functional_instruction i xs)
  unfolding eval
  instruction-Alike i xs h a s t =
      let (kept, same) = a s t in
      let left = eval_all m v xs s in
      let right = eval_all m w xs t in
      let (still, value) = pure i left.0 left.1 right.1 h in
      (still ∙ kept, value ∙ ap (λ x. (m.run i x right.1).0) same)

  argument-AlikeAll :
      (e : Expression) (xs : Arguments) → Alike e → AlikeAll xs → AlikeAll (argument e xs)
  unfolding eval_all
  argument-AlikeAll e xs a b s t =
      let (kept, same) = b s t in
      let left = eval_all m v xs s in
      let right = eval_all m w xs t in
      let (kept', same') = a left.1 right.1 in (kept' ∙ kept, cons_eq same' same)
    where
      cons_eq : {x y : ℕ} {zs us : List ℕ} → x ≡ y → zs ≡ us → x ∷ zs ≡ y ∷ us
      cons_eq {y} {zs} e h = ap (λ x. x ∷ zs) e ∙ ap (λ z. y ∷ z) h

  identifier-Alike : (n : Name) → v n ≡ w n → Alike (identifier n)
  unfolding eval
  identifier-Alike n e s t = (refl, e)

  literal-Alike : (k : LiteralKind) (x y : Name) → Alike (literal k x y)
  unfolding eval
  literal-Alike k x y s t = (refl, refl)

  nothing-AlikeAll : AlikeAll no_argument
  unfolding eval_all
  nothing-AlikeAll s t = (refl, refl)

  mutual
    unfolding visit visit_all

    visit-Alike : (e : Expression) (c : MovableChecker) → IsQuiet (visit e c) → IsQuiet c × Alike e
    visit-Alike (identifier n) c (h, (e, agree)) = ((h, agree), identifier-Alike n e)
    visit-Alike (literal k x y) c q = (q, literal-Alike k x y)
    visit-Alike (function_call f xs) c (h, agree) = absurd (false≢true h)
    visit-Alike (functional_instruction i xs) c q = elim (Bool-cases (movable i)) [
      | inl h ↦
          let (before, a) = visit_all-Alike xs c (
            subst (λ b. IsQuiet (if b then visit_all xs c else record c { is_movable = false })) h
              q) in
          (before, instruction-Alike i xs h a)
      | inr h ↦ absurd (
          false≢true
            (subst (λ b. IsQuiet (if b then visit_all xs c else record c { is_movable = false })) h
              q).0)
    ]

    visit_all-Alike :
        (xs : Arguments) (c : MovableChecker) → IsQuiet (visit_all xs c) → IsQuiet c × AlikeAll xs
    visit_all-Alike no_argument c q = (q, nothing-AlikeAll)
    visit_all-Alike (argument e xs) c q =
        let (between, a) = visit-Alike e (visit_all xs c) q in
        let (before, b) = visit_all-Alike xs c between in (before, argument-AlikeAll e xs a b)

-- Where instructions that are movable are pure, an expression that the checker finds movable can be
-- evaluated elsewhere: it does not change the state, and in any other state, and with any variables
-- that agree on those it has found, it has the same value.
pub check-Alike :
    {State : Type 0} (m : Meaning State) (v w : Variables) (e : Expression) (s t : State)
    → IsPure m
    → (check e).is_movable ≡ true
    → AllOf (λ n. v n ≡ w n) (check e).references
    → ((eval m v e s).1 ≡ s) × ((eval m v e s).0 ≡ (eval m w e t).0)
unfolding check
check-Alike m v w e s t pure h agree =
    (visit-Alike m pure v w e (record { is_movable = true; references = [] }) (h, agree)).1 s t
