-- ===== src/Yul/FunctionGrouper.antt =====
-- libyul/optimiser/FunctionGrouper.cpp: all that is not a function goes into a first block.
use lity.Prelude.{if◌then◌else◌}
use lity.Yul.Statement.{block, Block, no_statement, statement, append, is_function}

-- The loop, with the statements of the first block and what follows it.
unfoldable pub group_loop : Block → Block → Block → Block × Block
group_loop no_statement front functions = (front, functions)
group_loop (statement s b) front functions =
    let in_functions = group_loop b front (append functions (statement s no_statement)) in
    let in_front = group_loop b (append front (statement s no_statement)) functions in
    if is_function s then in_functions else in_front

-- `FunctionGrouper::operator()`
unfoldable pub group : Block → Block
group b =
    let (front, functions) = group_loop b no_statement no_statement in
    statement (block front) functions
