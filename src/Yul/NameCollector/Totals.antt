-- ===== src/Yul/NameCollector/Totals.antt =====
-- libyul/optimiser/NameCollector.cpp: names and references as sums over the statements.
use lity.Prelude.{◌+◌, ◌≡◌, refl, List, [], ◌∷◌, ◌++◌, ltb, arith}
use lity.Yul.Expression.{Name}
use lity.Yul.Statement.{
  Statement, instruction, label, stack_assignment, assignment, variable_declaration,
  expression_statement, function_definition, if_statement, switch, for_loop, block, Block,
  no_statement, statement, Cases, no_case, case,
}
use lity.Yul.Statement.Total.{Weights, total, total_block, total_cases}
use lity.Yul.NameDispenser.{contains}
use lity.Yul.NameCollector.{
  names_of, names, names_block, names_cases, one, occurrences, references_in, references_optional,
  references, references_block, references_cases,
}

unfoldable pub reference_weights : Name → Weights
reference_weights m = record {
  of_loose = 0;
  of_expression = references_in m;
  of_assigned = occurrences m;
  of_declared = λ vs e. references_optional m e;
  of_function = λ f ps rs. 0;
}

unfoldable pub name_weights : Name → Weights
name_weights m = record {
  of_loose = 0;
  of_expression = λ e. 0;
  of_assigned = λ ns. 0;
  of_declared = λ vs e. occurrences m (names_of vs);
  of_function = λ f ps rs. one f m + (occurrences m (names_of ps) + occurrences m (names_of rs));
}

occurrences-append :
    (m : Name) (xs ys : List Name) → occurrences m (xs ++ ys) ≡ occurrences m xs + occurrences m ys
unfolding occurrences
occurrences-append m [] ys = omega arith
occurrences-append m (x ∷ xs) ys = omega (arith, occurrences-append m xs ys)

-- A name is among others just if it stands there at least once.
pub contains-occurrences : (m : Name) (xs : List Name) → contains xs m ≡ ltb 0 (occurrences m xs)
unfolding contains occurrences one
contains-occurrences m [] = refl
contains-occurrences m (x ∷ xs) = ground (arith, contains-occurrences m xs)

module _ (m : Name) where
  mutual
    unfolding references references_block references_cases total total_block total_cases
        reference_weights

    references-total : (s : Statement) → references m s ≡ total (reference_weights m) s
    references-total (instruction i) = refl
    references-total (label n) = refl
    references-total (stack_assignment n) = refl
    references-total (assignment ns e) = refl
    references-total (variable_declaration vs e) = refl
    references-total (expression_statement e) = refl
    references-total (function_definition f ps rs b) = omega (arith, references_block-total b)
    references-total (if_statement e b) = omega (arith, references_block-total b)
    references-total (switch e cs) = omega (arith, references_cases-total cs)
    references-total (for_loop pre e post b) =
        omega
          (arith, references_block-total pre, references_block-total post, references_block-total b)
    references-total (block b) = references_block-total b

    pub references_block-total :
        (b : Block) → references_block m b ≡ total_block (reference_weights m) b
    references_block-total no_statement = refl
    references_block-total (statement s b) =
        omega (arith, references-total s, references_block-total b)

    references_cases-total :
        (cs : Cases) → references_cases m cs ≡ total_cases (reference_weights m) cs
    references_cases-total no_case = refl
    references_cases-total (case v b cs) =
        omega (arith, references_block-total b, references_cases-total cs)

  mutual
    unfolding names names_block names_cases total total_block total_cases name_weights occurrences

    names-total : (s : Statement) → occurrences m (names s) ≡ total (name_weights m) s
    names-total (instruction i) = refl
    names-total (label n) = refl
    names-total (stack_assignment n) = refl
    names-total (assignment ns e) = refl
    names-total (variable_declaration vs e) = refl
    names-total (expression_statement e) = refl
    names-total (function_definition f ps rs b) = omega (
      arith,
      names_block-total b,
      occurrences-append m (names_of ps) (names_of rs ++ names_block b),
      occurrences-append m (names_of rs) (names_block b),
    )
    names-total (if_statement e b) = omega (arith, names_block-total b)
    names-total (switch e cs) = omega (arith, names_cases-total cs)
    names-total (for_loop pre e post b) = omega (
      arith,
      names_block-total pre,
      names_block-total post,
      names_block-total b,
      occurrences-append m (names_block pre) (names_block b ++ names_block post),
      occurrences-append m (names_block b) (names_block post),
    )
    names-total (block b) = names_block-total b

    pub names_block-total :
        (b : Block) → occurrences m (names_block b) ≡ total_block (name_weights m) b
    names_block-total no_statement = refl
    names_block-total (statement s b) =
        omega (
          arith,
          names-total s,
          names_block-total b,
          occurrences-append m (names s) (names_block b),
        )

    names_cases-total :
        (cs : Cases) → occurrences m (names_cases cs) ≡ total_cases (name_weights m) cs
    names_cases-total no_case = refl
    names_cases-total (case v b cs) = omega (
      arith,
      names_block-total b,
      names_cases-total cs,
      occurrences-append m (names_block b) (names_cases cs),
    )
