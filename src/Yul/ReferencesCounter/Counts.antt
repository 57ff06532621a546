-- ===== src/Yul/ReferencesCounter/Counts.antt =====
-- libyul/optimiser/NameCollector.cpp: the map of the counter has the number of references to each name,
-- and each name once.
use mathlib.Core.Bool.{true≢false}
use lity.Prelude.{
  ℕ, suc, ◌+◌, ◌≡◌, sym, ap, ◌∙◌, Bool, true, false, none, some, Option, List, [], ◌∷◌,
  if◌then◌else◌, Bool-cases, inl, inr, arith,
}
use lity.Devcore.StringUtils.{string_eq}
use lity.Yul.Expression.{
  Name, Expression, Arguments, functional_instruction, function_call, identifier, literal,
  no_argument, argument,
}
use lity.Yul.Statement.{
  Statement, instruction, label, stack_assignment, assignment, variable_declaration,
  expression_statement, function_definition, if_statement, switch, for_loop, block, Block,
  no_statement, statement, Cases, no_case, case,
}
use lity.Yul.NameCollector.{
  one, occurrences, references_in, references_each, references_optional, references,
  references_block, references_cases,
}
use lity.Devcore.StringUtils.Within.{string_eq_sound}
use lity.Yul.ReferencesCounter.{
  References, count_of, increment, increment_all, count, count_each, count_optional,
  count_statement, count_block, count_cases,
}

-- Names that are found equal are equal to the same names.
pub same_name : (n k m : Name) → string_eq k n ≡ true → string_eq n m ≡ string_eq k m
same_name n k m h = ap (λ x. string_eq x m) (sym (string_eq_sound k n h))

pub other_name :
    (n k m : Name) → string_eq k n ≡ false → string_eq k m ≡ true → string_eq n m ≡ false
other_name n k m other found = elim (Bool-cases (string_eq n m)) [
  | inl same ↦
      absurd (true≢false (sym found ∙ ap (string_eq k) (sym (string_eq_sound n m same)) ∙ other))
  | inr differ ↦ differ
]

module _ (m : Name) where
  count_of-increment :
      (r : References) (n : Name) → count_of (increment r n) m ≡ one n m + count_of r m
  unfolding count_of increment one
  count_of-increment [] n = ground arith
  count_of-increment ((key, k) ∷ rest) n = elim (Bool-cases (string_eq key n)) [
    | inl same ↦ rw (same, same_name n key m same) (by_key (string_eq key m) k (count_of rest m))
    | inr other ↦ elim (Bool-cases (string_eq key m)) [
      | inl found ↦ rw (other, found, other_name n key m other found) (omega arith)
      | inr later ↦ rw (other, later) (count_of-increment rest n)
    ]
  ]
    where
      by_key :
          (b : Bool) (k c : ℕ)
          → (if b then suc k else c) ≡ (if b then 1 else 0) + (if b then k else c)
      by_key b k c = ground arith

  pub count_of-increment_all :
      (r : References) (ns : List Name)
      → count_of (increment_all r ns) m ≡ occurrences m ns + count_of r m
  unfolding increment_all occurrences
  count_of-increment_all r [] = omega arith
  count_of-increment_all r (n ∷ ns) =
      omega (arith, count_of-increment_all (increment r n) ns, count_of-increment r n)

  mutual
    unfolding count count_each references_in references_each

    pub count_of-count :
        (e : Expression) (r : References)
        → count_of (count e r) m ≡ references_in m e + count_of r m
    count_of-count (functional_instruction i xs) r = count_of-count_each xs r
    count_of-count (function_call f xs) r =
        omega (arith, count_of-count_each xs (increment r f), count_of-increment r f)
    count_of-count (identifier n) r = count_of-increment r n
    count_of-count (literal k v t) r = omega arith

    count_of-count_each :
        (xs : Arguments) (r : References)
        → count_of (count_each xs r) m ≡ references_each m xs + count_of r m
    count_of-count_each no_argument r = omega arith
    count_of-count_each (argument e xs) r =
        omega (arith, count_of-count e (count_each xs r), count_of-count_each xs r)

  pub count_of-count_optional :
      (e : Option Expression) (r : References)
      → count_of (count_optional e r) m ≡ references_optional m e + count_of r m
  unfolding count_optional
  count_of-count_optional none r = omega arith
  count_of-count_optional (some e) r = count_of-count e r

  mutual
    unfolding count_statement count_block count_cases references references_block references_cases

    count_of-statement :
        (s : Statement) (r : References)
        → count_of (count_statement s r) m ≡ references m s + count_of r m
    count_of-statement (instruction i) r = omega arith
    count_of-statement (label n) r = omega arith
    count_of-statement (stack_assignment n) r = omega arith
    count_of-statement (assignment ns e) r =
        omega (arith, count_of-count e (increment_all r ns), count_of-increment_all r ns)
    count_of-statement (variable_declaration vs e) r = count_of-count_optional e r
    count_of-statement (expression_statement e) r = count_of-count e r
    count_of-statement (function_definition f ps rs b) r = count_of-block b r
    count_of-statement (if_statement e b) r =
        omega (arith, count_of-block b (count e r), count_of-count e r)
    count_of-statement (switch e cs) r =
        omega (arith, count_of-cases cs (count e r), count_of-count e r)
    count_of-statement (for_loop pre e post b) r =
        let after_pre = count_block pre r in
        omega (
          arith,
          count_of-block pre r,
          count_of-count e after_pre,
          count_of-block b (count e after_pre),
          count_of-block post (count_block b (count e after_pre)),
        )
    count_of-statement (block b) r = count_of-block b r

    pub count_of-block :
        (b : Block) (r : References)
        → count_of (count_block b r) m ≡ references_block m b + count_of r m
    count_of-block no_statement r = omega arith
    count_of-block (statement s b) r =
        omega (arith, count_of-statement s r, count_of-block b (count_statement s r))

    count_of-cases :
        (cs : Cases) (r : References)
        → count_of (count_cases cs r) m ≡ references_cases m cs + count_of r m
    count_of-cases no_case r = omega arith
    count_of-cases (case v b cs) r =
        omega (arith, count_of-block b r, count_of-cases cs (count_block b r))
