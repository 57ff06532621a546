-- ===== src/Yul/FunctionHoister.antt =====
-- libyul/optimiser/FunctionHoister.cpp and Utilities.cpp: functions are moved to the top level.
pub mod Hoisted
use lity.Prelude.{Bool, Result, if◌then◌else◌}
use lity.Yul.Statement.{
  Statement, instruction, label, stack_assignment, assignment, variable_declaration,
  expression_statement, function_definition, if_statement, switch, for_loop, block, Block,
  no_statement, statement, Cases, no_case, case, append, is_empty_block, walked,
}

-- `removeEmptyBlocks`
unfoldable pub remove_empty_blocks : Block → Block
remove_empty_blocks no_statement = no_statement
remove_empty_blocks (statement s b) =
    let rest = remove_empty_blocks b in if is_empty_block s then rest else statement s rest

-- A function goes to the end of `m_functions`, and an empty block takes its place.
unfoldable pub moved : Statement → Block → Statement × Block
moved (function_definition f ps rs b) functions =
    (block no_statement, append functions (statement (function_definition f ps rs b) no_statement))
moved s functions = (s, functions)

-- `FunctionHoister::operator()` below the top level, with `m_functions` before and after.
unfoldable mutual
  pub hoist : Statement → Block → Statement × Block
  hoist (function_definition f ps rs b) functions =
      let (b', after) = hoist_each b functions in
      (function_definition f ps rs (remove_empty_blocks b'), after)
  hoist (if_statement e b) functions =
      let (b', after) = hoist_each b functions in (if_statement e (remove_empty_blocks b'), after)
  hoist (switch e cs) functions =
      let (cs', after) = hoist_cases cs functions in (switch e cs', after)
  hoist (for_loop pre e post b) functions =
      let (pre', after_pre) = hoist_each pre functions in
      let (post', after_post) = hoist_each post after_pre in
      let (b', after) = hoist_each b after_post in
      (
        for_loop (remove_empty_blocks pre') e (remove_empty_blocks post') (remove_empty_blocks b'),
        after,
      )
  hoist (block b) functions =
      let (b', after) = hoist_each b functions in (block (remove_empty_blocks b'), after)
  hoist (instruction i) functions = (instruction i, functions)
  hoist (label n) functions = (label n, functions)
  hoist (stack_assignment n) functions = (stack_assignment n, functions)
  hoist (assignment ns e) functions = (assignment ns e, functions)
  hoist (variable_declaration vs e) functions = (variable_declaration vs e, functions)
  hoist (expression_statement e) functions = (expression_statement e, functions)

  pub hoist_each : Block → Block → Block × Block
  hoist_each no_statement functions = (no_statement, functions)
  hoist_each (statement s b) functions =
      let (s', after_s) = hoist s functions in
      let (left, after_move) = moved s' after_s in
      let (b', after) = hoist_each b after_move in (statement left b', after)

  pub hoist_cases : Cases → Block → Cases × Block
  hoist_cases no_case functions = (no_case, functions)
  hoist_cases (case v b cs) functions =
      let (b', after_b) = hoist_each b functions in
      let (cs', after) = hoist_cases cs after_b in (case v (remove_empty_blocks b') cs', after)

-- The whole program: the functions stand behind what is left.
unfoldable pub hoist_block : Block → Block
hoist_block b =
    let (b', functions) = hoist_each b no_statement in append (remove_empty_blocks b') functions

abbrev pub hoist_program : Block → Result Block
hoist_program b = walked b (hoist_block b)
