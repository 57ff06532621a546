-- ===== src/Tests/Peephole.antt =====
-- The peephole optimiser on a small machine.
use lity.Prelude.{
  ℕ, zero, suc, ◌%◌, ◌^◌, ◌≤◌, ◌≡◌, refl, true, Option, none, some, List, [], ◌∷◌, replicate,
  length-replicate, arith, ok,
}
use lity.Prelude.Bits.{ones}
use lity.Evmasm.Opcode
use lity.Evmasm.Opcode.{Instruction}
use lity.Evmasm.Word.{constant_value}
use lity.Evmasm.Instruction.{
  instruction_info, is_dup_instruction, is_swap_instruction, get_swap_number,
}
use lity.Evmasm.AssemblyItem.{AssemblyItem, op, push_item, tag, push_tag, bytes_required, item_eq}
use lity.Evmasm.SemanticInformation.{is_dup, is_swap, is_commutative_operation}
use lity.Evmasm.Machine.{AreWords, Machine, execute, step, find_dest, stopped, run}
use lity.Evmasm.PeepholeOptimiser.{optimised_items, optimise, number_of_pops}
use lity.Evmasm.PeepholeOptimiser.Methods.{
  window_1, window_2, window_3, identity, push_pop, op_pop, double_swap, double_push,
  commutative_swap, swap_comparison, jump_to_next, tag_conjunctions, truthy_and, drop_to_tag,
  is_terminator, unreachable_code, apply_methods,
}
use lity.Evmasm.PeepholeOptimiser.Positions.{distinct_tags}
use lity.Evmasm.PeepholeOptimiser.Dests.{optimised_dest, find_dest-optimised_items}
use lity.Evmasm.PeepholeOptimiser.Rounds.{apply_methods-total}
use lity.Evmasm.PeepholeOptimiser.Correct.{run-optimise}

zeros-AreWords : (n : ℕ) → AreWords (replicate n 0)
zeros-AreWords zero = tt
zeros-AreWords (suc n) = (omega arith, zeros-AreWords n)

low-le-ones : (t : ℕ) → t % 2 ^ 32 ≤ ones 32
unfolding ones
low-le-ones t = omega arith

no-effect-AreWords :
    (s' : List ℕ) (w' : Unit {0}) (o : Option (Unit {0} × List ℕ))
    → o ≡ none
    → o ≡ some (w', s')
    → AreWords s'
no-effect-AreWords s' w' o e e' = absurd (cc)

-- A machine that knows no world: unknown results are 0, no other instruction has an effect, and the
-- result of a program is the stack that it leaves.
abbrev small : Machine
small = record {
  World = Unit {0};
  Final = List ℕ;
  address = λ t. t % 2 ^ 32;
  assigned = λ type t. 0;
  results = λ i w xs. replicate (instruction_info i).ret 0;
  effect = λ i w s. none;
  finish = λ i w s. some s;
  address-le = low-le-ones;
  assigned-lt = λ type t. omega arith;
  length-results = λ i w xs. length-replicate (instruction_info i).ret 0;
  results-AreWords = λ i w xs h. zeros-AreWords (instruction_info i).ret;
  effect-AreWords = λ i w w' s s' h e. no-effect-AreWords s' w' none refl e;
}

abbrev at : ℕ → AssemblyItem
at t = record (op 0) { type = tag; data_value = t }

abbrev push_at : ℕ → AssemblyItem
push_at t = record (op 0) { type = push_tag; data_value = t }

-- PUSH 7, PUSH 5, SWAP1, LT, PUSH tag 1, JUMP, tag 1, STOP, POP
abbrev program : List AssemblyItem
program =
    push_item 7
    ∷ push_item 5
    ∷ op Opcode.swap1
    ∷ op Opcode.lt
    ∷ push_at 1
    ∷ op Opcode.jump
    ∷ at 1
    ∷ op Opcode.stop
    ∷ op Opcode.pop
    ∷ []

-- PUSH 7, PUSH 5, GT, tag 1, STOP
abbrev shorter : List AssemblyItem
shorter = push_item 7 ∷ push_item 5 ∷ op Opcode.gt ∷ at 1 ∷ op Opcode.stop ∷ []

optimise-program : optimise program ≡ ok (true, shorter)
unfolding optimise optimised_items apply_methods window_1 window_2 window_3 identity push_pop op_pop
    double_swap double_push commutative_swap swap_comparison jump_to_next tag_conjunctions
    truthy_and drop_to_tag is_terminator unreachable_code item_eq is_dup is_swap
    is_commutative_operation instruction_info bytes_required number_of_pops is_dup_instruction
    is_swap_instruction
optimise-program = refl

program_stops : run small program 9 program tt [] ≡ stopped (0 ∷ [])
unfolding run step execute find_dest constant_value instruction_info is_dup_instruction
    is_swap_instruction get_swap_number
program_stops = refl

run-optimise_example : (g : ℕ) × (run small shorter g shorter tt [] ≡ stopped (0 ∷ []))
run-optimise_example =
    run-optimise small program shorter true 9 tt [] (0 ∷ []) optimise-program (omega arith)
      (unfold distinct_tags in refl) tt program_stops

find_dest-optimised_items_example :
    find_dest small 1 (optimised_items program) ≡ optimised_dest (find_dest small 1 program)
find_dest-optimised_items_example = find_dest-optimised_items small 1 program

apply_methods-total_example :
    (out : List AssemblyItem) × (rest : List AssemblyItem) × (apply_methods
        (push_item 7 ∷ op Opcode.pop ∷ [])
      ≡ some (out, rest))
apply_methods-total_example = apply_methods-total (push_item 7) (op Opcode.pop ∷ [])
