-- ===== src/Yul/BlockFlattener.antt =====
-- libyul/optimiser/BlockFlattener.cpp: blocks that stand directly in blocks are dissolved.
pub mod Flat
use lity.Prelude.{Result}
use lity.Yul.Statement.{
  Statement, instruction, label, stack_assignment, assignment, variable_declaration,
  expression_statement, function_definition, if_statement, switch, for_loop, block, Block,
  no_statement, statement, Cases, no_case, case, append, walked,
}

-- `iterateReplacing` on the statements of a block, with the function that the flattener gives to it.
unfoldable pub spliced : Statement → Block → Block
spliced (block inner) rest = append inner rest
spliced s rest = statement s rest

unfoldable pub splice : Block → Block
splice no_statement = no_statement
splice (statement s b) = spliced s (splice b)

-- `BlockFlattener::operator()`: first on all that is inside.
unfoldable mutual
  pub flatten : Statement → Statement
  flatten (function_definition f ps rs b) = function_definition f ps rs (splice (flatten_each b))
  flatten (if_statement e b) = if_statement e (splice (flatten_each b))
  flatten (switch e cs) = switch e (flatten_cases cs)
  flatten (for_loop pre e post b) =
      for_loop (splice (flatten_each pre)) e (splice (flatten_each post)) (splice (flatten_each b))
  flatten (block b) = block (splice (flatten_each b))
  flatten (instruction i) = instruction i
  flatten (label n) = label n
  flatten (stack_assignment n) = stack_assignment n
  flatten (assignment ns e) = assignment ns e
  flatten (variable_declaration vs e) = variable_declaration vs e
  flatten (expression_statement e) = expression_statement e

  pub flatten_each : Block → Block
  flatten_each no_statement = no_statement
  flatten_each (statement s b) = statement (flatten s) (flatten_each b)

  pub flatten_cases : Cases → Cases
  flatten_cases no_case = no_case
  flatten_cases (case v b cs) = case v (splice (flatten_each b)) (flatten_cases cs)

abbrev pub flatten_block : Block → Block
flatten_block b = splice (flatten_each b)

abbrev pub flatten_program : Block → Result Block
flatten_program b = walked b (flatten_block b)
