-- ===== src/Yul/Substitution/Value.antt =====
-- libyul/optimiser/Substitution.cpp: what an expression computes after a substitution.
use mathlib.Core.Option.{some-injective}
use lity.Prelude.{
  ℕ, ◌≡◌, refl, ap, subst, ◌∙◌, Bool, true, false, Option, none, some, List, [], ◌∷◌, if◌then◌else◌,
  inl, inr, ◌⊎◌, AllOf, arith,
}
use lity.Devcore.StringUtils.{string_eq}
use lity.Yul.Expression.{
  Name, Expression, Arguments, functional_instruction, function_call, identifier, literal,
  no_argument, argument,
}
use lity.Yul.Evaluation.{Meaning, Variables, eval, eval_all, IsPure}
use lity.Yul.Movable.{check}
use lity.Yul.Movable.Safe.{check-Alike}
use lity.Yul.Substitution.{
  copy, copy_all, Substitutions, find, instead, replaced, translate, translate_all,
}

mutual
  unfolding copy copy_all

  copy_same : (e : Expression) → copy e ≡ e
  copy_same (functional_instruction i xs) = ap (functional_instruction i) (copy_all_same xs)
  copy_same (function_call f xs) = ap (function_call f) (copy_all_same xs)
  copy_same (identifier n) = refl
  copy_same (literal k v t) = refl

  copy_all_same : (xs : Arguments) → copy_all xs ≡ xs
  copy_all_same no_argument = refl
  copy_all_same (argument e xs) =
      ap (λ x. argument x (copy_all xs)) (copy_same e) ∙ ap (argument e) (copy_all_same xs)

-- Every expression that is put in is movable.
abbrev pub AreMovable : Substitutions → Type 0
AreMovable = AllOf (λ p. (check p.1).is_movable ≡ true)

if_some :
    (b : Bool) (f e : Expression) (o : Option Expression)
    → (if b then some f else o) ≡ some e
    → (f ≡ e) ⊎ (o ≡ some e)
if_some true f e o h = inl (some-injective _ _ h)
if_some false f e o h = inr h

find-movable :
    (substitutions : Substitutions) (n : Name) (e : Expression)
    → AreMovable substitutions
    → find substitutions n ≡ some e
    → (check e).is_movable ≡ true
unfolding find
find-movable [] n e all h = absurd (ground arith)
find-movable ((key, f) ∷ rest) n e (movable, all) h =
    elim (if_some (string_eq key n) f e (find rest n) h) [
      | inl same ↦ subst (λ x. (check x).is_movable ≡ true) same movable
      | inr later ↦ find-movable rest n e all later
    ]

AllOf-refl : (v : Variables) (names : List Name) → AllOf (λ n. v n ≡ v n) names
AllOf-refl v [] = tt
AllOf-refl v (n ∷ names) = (refl, AllOf-refl v names)

module _ {State : Type 0} (m : Meaning State) (v : Variables) (start : State) where
  unfoldable pub value_instead : Name → Option Expression → ℕ
  value_instead n none = v n
  value_instead n (some e) = (eval m v e start).0

  -- The variables, where those that are replaced have the values of what replaces them.
  unfoldable pub bound : Substitutions → Variables
  bound substitutions n = value_instead n (find substitutions n)

module _ {State : Type 0} (m : Meaning State) (pure : IsPure m) (v : Variables) (start : State)
    (substitutions : Substitutions) (movable : AreMovable substitutions) where
  identifier_value : (n : Name) (s : State) → eval m v (identifier n) s ≡ (v n, s)
  unfolding eval
  identifier_value n s = refl

  instead_value :
      (n : Name) (o : Option Expression)
      → find substitutions n ≡ o
      → (s : State) → eval m v (instead n o) s ≡ (value_instead m v start n o, s)
  unfolding instead value_instead
  instead_value n none h s = identifier_value n s
  instead_value n (some e) h s =
      let (kept, same) =
        check-Alike m v v e s start pure (find-movable substitutions n e movable h)
          (AllOf-refl v (check e).references) in
      ap (λ f. eval m v f s) (copy_same e) ∙ pair_eq (eval m v e start).0 s (eval m v e s) same kept
    where
      pair_eq : (x : ℕ) (t : State) (q : ℕ × State) → q.0 ≡ x → q.1 ≡ t → q ≡ (x, t)
      pair_eq x t q e h = ap (λ y. (y, q.1)) e ∙ ap (λ t. (x, t)) h

  replaced_value :
      (n : Name) (s : State)
      → eval m v (replaced substitutions n) s ≡ (bound m v start substitutions n, s)
  unfolding replaced bound
  replaced_value n s = instead_value n (find substitutions n) refl s

  abbrev put : List ℕ → ℕ × State → List ℕ × State
  put values q = (q.0 ∷ values, q.1)

  mutual
    unfolding translate translate_all eval eval_all

    translate_value :
        (e : Expression) (s : State)
        → eval m v (translate substitutions e) s ≡ eval m (bound m v start substitutions) e s
    translate_value (identifier n) s = replaced_value n s
    translate_value (literal k x t) s = refl
    translate_value (functional_instruction i xs) s =
        ap (λ q. m.run i q.0 q.1) (translate_all_value xs s)
    translate_value (function_call f xs) s = ap (λ q. m.call f q.0 q.1) (translate_all_value xs s)

    translate_all_value :
        (xs : Arguments) (s : State)
        → eval_all m v (translate_all substitutions xs) s
          ≡ eval_all m (bound m v start substitutions) xs s
    translate_all_value no_argument s = refl
    translate_all_value (argument e xs) s =
        let after = eval_all m (bound m v start substitutions) xs s in
        ap (λ q. put q.0 (eval m v (translate substitutions e) q.1)) (translate_all_value xs s)
        ∙ ap (put after.0) (translate_value e after.1)

-- Where instructions that are movable are pure and every expression that is put in is movable, the
-- expression after the substitution computes what it computed before, from variables that have the
-- values of the expressions that replace them, whatever the state in which those are evaluated.
pub translate-eval :
    {State : Type 0} (m : Meaning State) (v : Variables) (start : State)
    (substitutions : Substitutions) (e : Expression) (s : State)
    → IsPure m
    → AreMovable substitutions
    → eval m v (translate substitutions e) s ≡ eval m (bound m v start substitutions) e s
translate-eval m v start substitutions e s pure movable =
    translate_value m pure v start substitutions movable e s
