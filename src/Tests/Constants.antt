-- ===== src/Tests/Constants.antt =====
-- Constants as code that computes them.
use lity.Prelude.{ℕ, ◌-◌, ◌*◌, ◌^◌, ◌≡◌, refl, true, false, List, [], ◌∷◌, ok, arith}
use lity.Evmasm.Opcode
use lity.Evmasm.Instruction.{instruction_info}
use lity.Evmasm.AssemblyItem.{AssemblyItem, op, push_item, arguments}
use lity.Evmasm.ConstantOptimiser.{Params, find_fuel, find_representation}
use lity.Evmasm.ConstantOptimiser.Check.{check_representation, run, step, compute}
use lity.Evmasm.ConstantOptimiser.Represent.{find_representation-checked}
use lity.Evmasm.ConstantOptimiser.Fuel.{find_representation-call}

abbrev deployed : Params
deployed = record { is_creation = false; runs = 200; multiplicity = 1; exp_byte_gas = 50 }

-- 3 * 2 ** 200 - 5
check_of_routine :
    check_representation (3 * 2 ^ 200 - 5) (
      push_item 5
      ∷ push_item 200
      ∷ push_item 2
      ∷ op Opcode.exp
      ∷ push_item 3
      ∷ op Opcode.mul
      ∷ op Opcode.sub
      ∷ [])
    ≡ true
unfolding check_representation run step compute arguments instruction_info
check_of_routine = refl

find_representation-checked_example :
    (routine : List AssemblyItem) × (steps' : ℕ) × (find_representation deployed (2 ^ 200) 10000
      ≡ ok (routine, steps'))
    × (check_representation (2 ^ 200) routine ≡ true)
find_representation-checked_example =
    find_representation-checked deployed (2 ^ 200) 10000 (omega arith)

find_representation-call_example :
    find_fuel 0x3_0000 deployed 0x2_0000 10000 ≡ find_representation deployed 0x2_0000 10000
find_representation-call_example =
    find_representation-call deployed 0x2_0000 10000 0x3_0000 (omega arith)
