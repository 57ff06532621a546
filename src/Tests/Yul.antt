-- ===== src/Tests/Yul.antt =====
-- Expressions of Yul and fresh names at concrete inputs.
use lity.Prelude.{
  ℕ, suc, ◌+◌, ◌≤◌, ◌≡◌, ◌↔◌, refl, true, false, some, List, [], ◌∷◌, length, if◌then◌else◌, arith,
  AllOf,
}
use lity.Devcore.StringUtils.{string_eq}
use lity.Evmasm.Opcode
use lity.Evmasm.Opcode.{Instruction}
use lity.Evmasm.Instruction.{is_dup_instruction, is_swap_instruction, instruction_info}
use lity.Evmasm.SemanticInformation.{movable}
use lity.Yul.Expression.{
  Name, Expression, functional_instruction, function_call, identifier, no_argument, argument, size,
}
use lity.Yul.SyntacticalEquality.{equal, equal_each, equal_iff}
use lity.Yul.Evaluation.{Meaning, Variables, eval, IsPure}
use lity.Yul.Movable.{check, visit, visit_all}
use lity.Yul.Movable.Safe.{check-Alike}
use lity.Yul.Substitution.{
  Substitutions, translate, translate_all, replaced, instead, find, copy, copy_all,
}
use lity.Yul.Substitution.Value.{bound, AreMovable, translate-eval}
use lity.Yul.NameDispenser.{
  NameDispenser, new_name_internal, new_name, contains, is_empty, digits, to_string, candidate,
  try_names, found_name,
}
use lity.Yul.NameDispenser.Fresh.{new_name_internal-fresh}

abbrev x_name : Name
x_name = 120 ∷ []

abbrev y_name : Name
y_name = 121 ∷ []

-- add(x, y) and add(y, y)
abbrev sum_of : Name → Name → Expression
sum_of n m =
    functional_instruction Opcode.add
      (argument (identifier n) (argument (identifier m) no_argument))

unequal_sums : equal (sum_of x_name y_name) (sum_of y_name y_name) ≡ false
unfolding equal equal_each string_eq size
unequal_sums = refl

equal_iff_example :
    (equal (sum_of x_name y_name) (sum_of x_name y_name) ≡ true)
    ↔ (sum_of x_name y_name ≡ sum_of x_name y_name)
equal_iff_example = equal_iff (sum_of x_name y_name) (sum_of x_name y_name)

abbrev total : List ℕ → ℕ
total [] = 0
total (x ∷ xs) = x + total xs

-- The state counts the calls and the instructions that are not movable.
abbrev counting : Meaning ℕ
counting = record {
  run = λ i xs s. (total xs, if movable i then s else suc s);
  call = λ f xs s. (s, suc s);
  literal_value = λ k v t. length v;
}

counting-IsPure : IsPure counting
counting-IsPure i xs s t h = rw h (refl, refl)

abbrev ten : Variables
ten n = 10

sum-is_movable : (check (sum_of x_name y_name)).is_movable ≡ true
unfolding check visit visit_all movable is_dup_instruction is_swap_instruction instruction_info
sum-is_movable = refl

call-is_movable : (check (function_call x_name no_argument)).is_movable ≡ false
unfolding check visit visit_all
call-is_movable = refl

sum_references : AllOf (λ n. ten n ≡ ten n) (check (sum_of x_name y_name)).references
unfolding check visit visit_all movable is_dup_instruction is_swap_instruction instruction_info
sum_references = (refl, (refl, tt))

check-Alike_example :
    ((eval counting ten (sum_of x_name y_name) 3).1 ≡ 3)
    × ((eval counting ten (sum_of x_name y_name) 3).0
        ≡ (eval counting ten (sum_of x_name y_name) 8).0)
check-Alike_example =
    check-Alike counting ten ten (sum_of x_name y_name) 3 8 counting-IsPure sum-is_movable
      sum_references

-- x is replaced by add(x, y); what is put in stays as it is.
abbrev x_by_sum : Substitutions
x_by_sum = (x_name, sum_of x_name y_name) ∷ []

abbrev call_of_x : Expression
call_of_x = function_call y_name (argument (identifier x_name) no_argument)

translate_call :
    translate x_by_sum call_of_x
    ≡ function_call y_name (argument (sum_of x_name y_name) no_argument)
unfolding translate translate_all replaced instead find copy copy_all string_eq
translate_call = refl

x_by_sum-AreMovable : AreMovable x_by_sum
x_by_sum-AreMovable = (sum-is_movable, tt)

translate-eval_example :
    eval counting ten (translate x_by_sum call_of_x) 5
    ≡ eval counting (bound counting ten 0 x_by_sum) call_of_x 5
translate-eval_example =
    translate-eval counting ten 0 x_by_sum call_of_x 5 counting-IsPure x_by_sum-AreMovable

-- x, x_1 and x_2 are used.
abbrev used : NameDispenser
used = record {
  used_names = x_name ∷ (120 ∷ 95 ∷ 49 ∷ []) ∷ (120 ∷ 95 ∷ 50 ∷ []) ∷ [];
  counter = 0;
}

new_name_of_x :
    new_name used x_name []
    ≡ some (
      120 ∷ 95 ∷ 51 ∷ [],
      record { used_names = (120 ∷ 95 ∷ 51 ∷ []) ∷ used.used_names; counter = 3 },
    )
unfolding new_name new_name_internal found_name try_names contains candidate to_string digits
    string_eq
new_name_of_x = refl

new_name_internal-fresh_example :
    (name : Name) × (after : NameDispenser) × (new_name_internal used x_name ≡ some (name, after))
    × (is_empty name ≡ false)
    × (contains used.used_names name ≡ false)
    × (after.used_names ≡ name ∷ used.used_names)
    × (0 ≤ after.counter)
    × (after.counter ≤ 4)
new_name_internal-fresh_example = new_name_internal-fresh used x_name (omega arith)
