-- ===== src/Yul/MainFunction.antt =====
-- libyul/optimiser/MainFunction.cpp: the first block becomes a function.
pub mod Whole
use lity.Prelude.{
  Bool, true, not, ◌&&◌, [], ◌∷◌, Result, ok, err, optimizer_exception, ◌>>=◌, ◌>>◌, assert_throw,
}
use lity.Yul.Expression.{Name}
use lity.Yul.Statement.{
  Statement, function_definition, block, Block, no_statement, statement, is_function,
}
use lity.Yul.NameCollector.{collect_names}
use lity.Yul.NameDispenser.{contains}

-- "main"
abbrev pub main_name : Name
main_name = 109 ∷ 97 ∷ 105 ∷ 110 ∷ []

unfoldable pub all_functions : Block → Bool
all_functions no_statement = true
all_functions (statement s b) = is_function s && all_functions b

-- `MainFunction::operator()`
unfoldable pub main_function : Block → Result Block
main_function (statement (block b) rest) =
    assert_throw (all_functions rest) optimizer_exception
    >> (collect_names (statement (block b) rest) >>= λ names.
        assert_throw (not (contains names main_name)) optimizer_exception
        >> ok (statement (function_definition main_name [] [] b) rest))
main_function _ = err optimizer_exception
