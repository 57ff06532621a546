-- ===== src/Yul/Metrics.antt =====
-- libyul/optimiser/Metrics.cpp: the number of nodes of a program, which is at most what is in memory,
-- so that a `size_t` holds it.
use lity.Prelude.{ℕ, suc, ◌+◌, Option, none, some, Result}
use lity.Yul.Expression.{
  Expression, Arguments, functional_instruction, function_call, identifier, literal, no_argument,
  argument,
}
use lity.Yul.Statement.{
  Statement, instruction, label, stack_assignment, assignment, variable_declaration,
  expression_statement, function_definition, if_statement, switch, for_loop, block, Block,
  no_statement, statement, Cases, no_case, case, walked,
}

-- What `visit` of an expression adds.
unfoldable mutual
  pub expression_size : Expression → ℕ
  expression_size (functional_instruction i xs) = suc (arguments_size xs)
  expression_size (function_call f xs) = suc (arguments_size xs)
  expression_size (identifier n) = 1
  expression_size (literal k v t) = 1

  pub arguments_size : Arguments → ℕ
  arguments_size no_argument = 0
  arguments_size (argument e xs) = arguments_size xs + expression_size e

abbrev pub optional_size : Option Expression → ℕ
optional_size none = 0
optional_size (some e) = expression_size e

-- What `visit` of a statement adds; the bodies of functions, loops and cases are walked over and not
-- visited, so that they add the sizes of their statements only.
unfoldable mutual
  pub statement_size : Statement → ℕ
  statement_size (instruction i) = 1
  statement_size (label n) = 1
  statement_size (stack_assignment n) = 1
  statement_size (assignment ns e) = suc (expression_size e)
  statement_size (variable_declaration vs e) = suc (optional_size e)
  statement_size (expression_statement e) = suc (expression_size e)
  statement_size (function_definition f ps rs b) = suc (block_size b)
  statement_size (if_statement e b) = suc (expression_size e + block_size b)
  statement_size (switch e cs) = suc (expression_size e + cases_size cs)
  statement_size (for_loop pre e post b) =
      suc (block_size pre + (expression_size e + (block_size b + block_size post)))
  statement_size (block b) = suc (block_size b)

  pub block_size : Block → ℕ
  block_size no_statement = 0
  block_size (statement s b) = statement_size s + block_size b

  pub cases_size : Cases → ℕ
  cases_size no_case = 0
  cases_size (case v b cs) = block_size b + cases_size cs

-- `CodeSize::codeSize(Block const&)`
abbrev pub code_size : Block → Result ℕ
code_size b = walked b (block_size b)
