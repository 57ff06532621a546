-- ===== src/Tests/Statements.antt =====
-- Programs of Yul flattened, hoisted, grouped and pruned.
use lity.Prelude.{
  ◌+◌, ◌≡◌, refl, true, false, some, [], ◌∷◌, ok, err, optimizer_exception, ◌>>=◌, arith,
}
use lity.Devcore.StringUtils.{string_eq}
use lity.Yul.Expression.{Name, Expression, identifier, literal, number_literal}
use lity.Yul.Statement.{
  Statement, assignment, variable_declaration, function_definition, label, block, Block,
  no_statement, statement, append, is_empty_block, is_strict, is_strict_block,
}
use lity.Yul.Statement.Total.{total, total_block}
use lity.Yul.NameCollector.{names_block, names, occurrences, references_block, collect_names}
use lity.Yul.Metrics.{block_size, statement_size, expression_size, arguments_size}
use lity.Yul.BlockFlattener.{flatten_program, flatten_block, flatten, flatten_each, splice, spliced}
use lity.Yul.BlockFlattener.Flat.{is_flat, flatten_program-is_flat}
use lity.Yul.FunctionHoister.{hoist_program}
use lity.Yul.FunctionHoister.Hoisted.{is_tidy, are_functions, hoist_program-is_tidy}
use lity.Yul.Movable.{check, visit}
use lity.Yul.ReferencesCounter.{
  count_of, has_key, increment_all, count_block, count_statement, count_optional, count,
}
use lity.Yul.UnusedPruner.{
  UnusedPruner, unused_pruner, prune_block, run_until_stabilised, fates, fate, prune, prune_each,
  settle, any_used, used, unused_declaration, drop_counted, subtract_references, put_back,
}
use lity.Yul.UnusedPruner.Safe.{step_weights}
use lity.Yul.UnusedPruner.Ends.{prune_block-count, run_until_stabilised-ends}

abbrev name_a : Name
name_a = 97 ∷ []

abbrev name_f : Name
name_f = 102 ∷ []

abbrev name_r : Name
name_r = 114 ∷ []

abbrev name_x : Name
name_x = 120 ∷ []

abbrev one_value : Expression
one_value = literal number_literal (49 ∷ []) []

-- function f(a) -> r { r := a }
abbrev function_f : Statement
function_f =
    function_definition name_f ((name_a, []) ∷ []) ((name_r, []) ∷ [])
      (statement (assignment (name_r ∷ []) (identifier name_a)) no_statement)

-- { { let x := 1 function f(a) -> r { r := a } } { } }
abbrev program : Block
program =
    statement
      (block (
        statement (variable_declaration ((name_x, []) ∷ []) (some one_value))
          (statement function_f no_statement)))
      (statement (block no_statement) no_statement)

program-is_strict : is_strict_block program ≡ true
unfolding is_strict_block is_strict
program-is_strict = refl

program_size : block_size program ≡ 7
unfolding block_size statement_size expression_size arguments_size
program_size = refl

program_names : collect_names program ≡ ok (name_x ∷ name_f ∷ name_a ∷ name_r ∷ [])
unfolding names_block names is_strict_block is_strict
program_names = refl

flattened :
    flatten_program program
    ≡ ok (
        statement
          (variable_declaration ((name_x, []) ∷ []) (some one_value))
          (statement function_f no_statement))
unfolding flatten flatten_each splice spliced append is_strict_block is_strict
flattened = refl

loose_program : flatten_program (statement (label name_x) no_statement) ≡ err optimizer_exception
unfolding is_strict_block is_strict
loose_program = refl

flatten_program-is_flat_example :
    (c : Block) × (flatten_program program ≡ ok c)
    × (is_flat c ≡ true)
    × (flatten_block c ≡ c)
    × (occurrences name_x (names_block c) ≡ occurrences name_x (names_block program))
    × (references_block name_x c ≡ references_block name_x program)
flatten_program-is_flat_example = flatten_program-is_flat program name_x program-is_strict

hoist_program-is_tidy_example :
    (main : Block) × (functions : Block) × (hoist_program program ≡ ok (append main functions))
    × (is_tidy main ≡ true)
    × (are_functions functions ≡ true)
    × (occurrences name_a (names_block (append main functions))
        ≡ occurrences name_a (names_block program))
    × (references_block name_a (append main functions) ≡ references_block name_a program)
hoist_program-is_tidy_example = hoist_program-is_tidy program name_a program-is_strict

-- The function is used from outside.
prune_block-count_example :
    (c : Block) × (p : UnusedPruner) × ((unused_pruner program (name_f ∷ [])
        >>= prune_block program)
      ≡ ok (c, p))
    × (count_of p.references name_a ≡ references_block name_a c + occurrences name_a (name_f ∷ []))
prune_block-count_example = prune_block-count program (name_f ∷ []) name_a program-is_strict

program_steps : total_block step_weights program ≡ 4
unfolding total_block total step_weights
program_steps = refl

run_until_stabilised-ends_example :
    (c : Block) × (d : Block) × (p : UnusedPruner) × (run_until_stabilised 5 program []
      ≡ ok (some c))
    × ((unused_pruner d [] >>= prune_block d) ≡ ok (c, p))
    × (p.should_run_again ≡ false)
run_until_stabilised-ends_example =
    run_until_stabilised-ends 5 program [] program-is_strict (rw program_steps (omega arith))

-- The variable goes, but not the block around it, which another run would remove.
unsettled :
    run_until_stabilised 5
      (statement
        (block (statement (variable_declaration ((name_x, []) ∷ []) (some one_value)) no_statement))
        no_statement)
      []
    ≡ ok (some (statement (block no_statement) no_statement))
unfolding run_until_stabilised unused_pruner prune_block fates fate prune prune_each settle any_used
    used unused_declaration drop_counted subtract_references put_back has_key count_of increment_all
    count_block count_statement count_optional count check visit is_strict_block is_strict
    is_empty_block string_eq
unsettled = refl
