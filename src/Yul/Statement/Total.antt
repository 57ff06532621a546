-- ===== src/Yul/Statement/Total.antt =====
-- libsolidity/inlineasm/AsmData.h: sums over the statements of a block, which a rewriting that only
-- moves statements keeps.
use lity.Prelude.{ℕ, ◌+◌, ◌≡◌, refl, ap, ◌∙◌, Bool, true, ◌&&◌, ◌==◌, Option, List, arith}
use lity.Yul.Expression.{Name, Expression}
use lity.Yul.Statement.{
  TypedName, Statement, instruction, label, stack_assignment, assignment, variable_declaration,
  expression_statement, function_definition, if_statement, switch, for_loop, block, Block,
  no_statement, statement, Cases, no_case, case, append, is_empty_block, is_strict, is_strict_block,
  is_strict_cases,
}

-- What each node adds to the sum; blocks and cases add nothing of their own.
pub record Weights : Type 0 where
  pub of_loose : ℕ
  pub of_expression : Expression → ℕ
  pub of_assigned : List Name → ℕ
  pub of_declared : List TypedName → Option Expression → ℕ
  pub of_function : Name → List TypedName → List TypedName → ℕ

module _ (w : Weights) where
  unfoldable mutual
    pub total : Statement → ℕ
    total (instruction i) = w.of_loose
    total (label n) = w.of_loose
    total (stack_assignment n) = w.of_loose
    total (assignment ns e) = w.of_assigned ns + w.of_expression e
    total (variable_declaration vs e) = w.of_declared vs e
    total (expression_statement e) = w.of_expression e
    total (function_definition f ps rs b) = w.of_function f ps rs + total_block b
    total (if_statement e b) = w.of_expression e + total_block b
    total (switch e cs) = w.of_expression e + total_cases cs
    total (for_loop pre e post b) =
        total_block pre + (w.of_expression e + (total_block b + total_block post))
    total (block b) = total_block b

    pub total_block : Block → ℕ
    total_block no_statement = 0
    total_block (statement s b) = total s + total_block b

    pub total_cases : Cases → ℕ
    total_cases no_case = 0
    total_cases (case v b cs) = total_block b + total_cases cs

  pub total-append : (b c : Block) → total_block (append b c) ≡ total_block b + total_block c
  unfolding total_block append
  total-append no_statement c = omega arith
  total-append (statement s b) c = omega (arith, total-append b c)

  pub total-empty : (s : Statement) → is_empty_block s ≡ true → total s ≡ 0
  unfolding total total_block is_empty_block
  total-empty (block no_statement) h = refl
  total-empty (block (statement s b)) h = absurd (ground arith)
  total-empty (function_definition f ps rs b) h = absurd (ground arith)
  total-empty (if_statement e b) h = absurd (ground arith)
  total-empty (switch e cs) h = absurd (ground arith)
  total-empty (for_loop pre e post b) h = absurd (ground arith)
  total-empty (instruction i) h = absurd (ground arith)
  total-empty (label n) h = absurd (ground arith)
  total-empty (stack_assignment n) h = absurd (ground arith)
  total-empty (assignment ns e) h = absurd (ground arith)
  total-empty (variable_declaration vs e) h = absurd (ground arith)
  total-empty (expression_statement e) h = absurd (ground arith)

-- The number of statements of loose assembly.
unfoldable pub loose_weights : Weights
loose_weights = record {
  of_loose = 1;
  of_expression = λ e. 0;
  of_assigned = λ ns. 0;
  of_declared = λ vs e. 0;
  of_function = λ f ps rs. 0;
}

zero_sum : (x y : Bool) (m n : ℕ) → x ≡ (m == 0) → y ≡ (n == 0) → (x && y) ≡ (m + n == 0)
zero_sum x y m n e h = ground arith

zero_add : (b : Block) → (total_block loose_weights b == 0) ≡ (0 + total_block loose_weights b == 0)
zero_add b = ap (λ n. n == 0) (omega arith)

zero_add_cases :
    (cs : Cases) → (total_cases loose_weights cs == 0) ≡ (0 + total_cases loose_weights cs == 0)
zero_add_cases cs = ap (λ n. n == 0) (omega arith)

rearranged :
    (pre post b : Block)
    → (total_block loose_weights pre
          + (total_block loose_weights post + total_block loose_weights b)
        == 0)
      ≡ (total_block loose_weights pre
            + (0 + (total_block loose_weights b + total_block loose_weights post))
          == 0)
rearranged pre post b = ap (λ n. n == 0) (omega arith)

mutual
  unfolding total total_block total_cases is_strict is_strict_block is_strict_cases loose_weights

  strict-total : (s : Statement) → is_strict s ≡ (total loose_weights s == 0)
  strict-total (instruction i) = refl
  strict-total (label n) = refl
  strict-total (stack_assignment n) = refl
  strict-total (assignment ns e) = refl
  strict-total (variable_declaration vs e) = refl
  strict-total (expression_statement e) = refl
  strict-total (function_definition f ps rs b) = strict_block-total b ∙ zero_add b
  strict-total (if_statement e b) = strict_block-total b ∙ zero_add b
  strict-total (switch e cs) = strict_cases-total cs ∙ zero_add_cases cs
  strict-total (for_loop pre e post b) =
      zero_sum _ _ _ _ (strict_block-total pre)
        (zero_sum _ _ _ _ (strict_block-total post) (strict_block-total b))
      ∙ rearranged pre post b
  strict-total (block b) = strict_block-total b

  pub strict_block-total : (b : Block) → is_strict_block b ≡ (total_block loose_weights b == 0)
  strict_block-total no_statement = refl
  strict_block-total (statement s b) = zero_sum _ _ _ _ (strict-total s) (strict_block-total b)

  strict_cases-total : (cs : Cases) → is_strict_cases cs ≡ (total_cases loose_weights cs == 0)
  strict_cases-total no_case = refl
  strict_cases-total (case v b cs) = zero_sum _ _ _ _ (strict_block-total b) (strict_cases-total cs)
