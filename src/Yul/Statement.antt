-- ===== src/Yul/Statement.antt =====
-- libsolidity/inlineasm/AsmData.h: the statements of Yul and of inline assembly, without locations.
pub mod Total
use lity.Prelude.{
  ℕ, zero, suc, Bool, true, false, ◌&&◌, Option, List, Result, ok, err, optimizer_exception,
  if◌then◌else◌,
}
use lity.Evmasm.Opcode.{Instruction}
use lity.Yul.Expression.{Name, LiteralKind, Expression}

-- A name and its type.
abbrev pub TypedName : Type 0
TypedName = Name × Name

-- The variants of a statement; the vectors of statements and of cases are lists of their own.
mutual
  pub data Statement : Type 0 where
    instruction : Instruction → Statement
    label : Name → Statement
    stack_assignment : Name → Statement
    assignment : List Name → Expression → Statement
    variable_declaration : List TypedName → Option Expression → Statement
    expression_statement : Expression → Statement
    function_definition : Name → List TypedName → List TypedName → Block → Statement
    if_statement : Expression → Block → Statement
    switch : Expression → Cases → Statement
    for_loop : Block → Expression → Block → Block → Statement
    block : Block → Statement

  pub data Block : Type 0 where
    no_statement : Block
    statement : Statement → Block → Block

  pub data Cases : Type 0 where
    no_case : Cases
    case : Option (LiteralKind × Name × Name) → Block → Cases → Cases

unfoldable pub append : Block → Block → Block
append no_statement c = c
append (statement s b) c = statement s (append b c)

unfoldable pub is_function : Statement → Bool
is_function (function_definition f ps rs b) = true
is_function _ = false

unfoldable pub is_empty_block : Statement → Bool
is_empty_block (block no_statement) = true
is_empty_block _ = false

-- Whether there is no instruction, label or assignment from the stack at any depth: `ASTWalker` and
-- `ASTModifier` throw an `OptimizerException` when they come to one.
unfoldable mutual
  pub is_strict : Statement → Bool
  is_strict (instruction i) = false
  is_strict (label n) = false
  is_strict (stack_assignment n) = false
  is_strict (assignment ns e) = true
  is_strict (variable_declaration vs e) = true
  is_strict (expression_statement e) = true
  is_strict (function_definition f ps rs b) = is_strict_block b
  is_strict (if_statement e b) = is_strict_block b
  is_strict (switch e cs) = is_strict_cases cs
  is_strict (for_loop pre e post b) =
      is_strict_block pre && (is_strict_block post && is_strict_block b)
  is_strict (block b) = is_strict_block b

  pub is_strict_block : Block → Bool
  is_strict_block no_statement = true
  is_strict_block (statement s b) = is_strict s && is_strict_block b

  pub is_strict_cases : Cases → Bool
  is_strict_cases no_case = true
  is_strict_cases (case v b cs) = is_strict_block b && is_strict_cases cs

-- The result of a walk over a block, if it does not throw.
abbrev pub walked : {A : Type 0} → Block → A → Result A
walked b result = if is_strict_block b then ok result else err optimizer_exception
