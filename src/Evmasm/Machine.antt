-- ===== src/Evmasm/Machine.antt =====
-- libevmasm/Instruction.h: what the enumerators' and the table's comments say that items do. The
-- virtual machine is not part of this repository: what its other instructions do is a parameter.
-- The machine runs items, not bytes: a tag stands for its address, and gas is not counted.
pub mod Words
pub mod Runs
use lity.Prelude.{
  ℕ, zero, suc, ◌+◌, ◌-◌, ◌^◌, ◌≤◌, ◌<◌, ◌≡◌, Bool, true, false, Option, none, some, List, [], ◌∷◌,
  ◌++◌, ◌&&◌, ◌||◌, get_elem?, set, length, ◌==◌, if◌then◌else◌,
}
use lity.Prelude.Bits.{ones}
use lity.Evmasm.Opcode
use lity.Evmasm.Opcode.{Instruction}
use lity.Evmasm.Word.{constant_value}
use lity.Evmasm.Instruction.{
  instruction_info, is_dup_instruction, is_swap_instruction, get_dup_number, get_swap_number,
}
use lity.Evmasm.AssemblyItem.{
  AssemblyItem, AssemblyItemType, undefined_item, operation, push, push_string, push_tag, push_sub,
  push_sub_size, push_program_size, tag, push_data, push_library_address, push_deploy_time_address,
  type_eq,
}

-- Every value is a word.
abbrev pub AreWords : List ℕ → Type 0
AreWords [] = Unit
AreWords (x ∷ xs) = (x < 2 ^ 256) × AreWords xs

-- What an item does to the world (memory, storage, logs) and the stack, its top first.
pub data Effect (W F : Type 0) : Type 0 where
  continue : W → List ℕ → Effect W F
  jump_to : ℕ → W → List ℕ → Effect W F
  stop : F → Effect W F
  fault : Effect W F

-- What the items' meaning takes from the virtual machine and from the assembler.
--   address: the code position of a tag, of which the assembler grants four bytes;
--   assigned: the values of the other pushes that the assembler fills in;
--   results: of an instruction without side effects, from the operands that it takes;
--   effect, finish: of the other instructions and of those that end the execution, none being a fault.
pub record Machine : Type 1 where
  pub World : Type 0
  pub Final : Type 0
  pub address : ℕ → ℕ
  pub assigned : AssemblyItemType → ℕ → ℕ
  pub results : Instruction → World → List ℕ → List ℕ
  pub effect : Instruction → World → List ℕ → Option (World × List ℕ)
  pub finish : Instruction → World → List ℕ → Option Final
  pub address-le : (t : ℕ) → address t ≤ ones 32
  pub assigned-lt : (type : AssemblyItemType) (t : ℕ) → assigned type t < 2 ^ 256
  pub length-results :
      (i : Instruction) (w : World) (xs : List ℕ)
      → length (results i w xs) ≡ (instruction_info i).ret
  pub results-AreWords :
      (i : Instruction) (w : World) (xs : List ℕ) → AreWords xs → AreWords (results i w xs)
  pub effect-AreWords :
      (i : Instruction) (w w' : World) (s s' : List ℕ)
      → AreWords s
      → effect i w s ≡ some (w', s')
      → AreWords s'

-- The n items on top, and the rest.
unfoldable pub split_at : ℕ → List ℕ → Option (List ℕ × List ℕ)
split_at zero s = some ([], s)
split_at (suc n) [] = none
split_at (suc n) (x ∷ s) = elim (split_at n s) [ none ↦ none | some (xs, r) ↦ some (x ∷ xs, r) ]

-- The instructions after which the execution does not go on.
unfoldable pub ends : Instruction → Bool
ends i =
    i == Opcode.return
    || i == Opcode.stop
    || i == Opcode.invalid
    || i == Opcode.selfdestruct
    || i == Opcode.revert

module _ (m : Machine) where
  open m use {World, Final, address, assigned, results, effect, finish}

  -- DUPn copies the n-th item to the top, SWAPn swaps the top with the n + 1-th.
  unfoldable pub dup : ℕ → World → List ℕ → Effect World Final
  dup n w s = elim (get_elem? s (n - 1)) [ none ↦ fault | some x ↦ continue w (x ∷ s) ]

  unfoldable pub swap : ℕ → World → List ℕ → Effect World Final
  swap n w [] = fault
  swap n w (x ∷ s) = elim (get_elem? s (n - 1)) [
    | none ↦ fault
    | some y ↦ continue w (y ∷ set s (n - 1) x)
  ]

  unfoldable pub jump : World → List ℕ → Effect World Final
  jump w [] = fault
  jump w (a ∷ s) = jump_to a w s

  unfoldable pub jump_if : World → List ℕ → Effect World Final
  jump_if w [] = fault
  jump_if w (a ∷ []) = fault
  jump_if w (a ∷ c ∷ s) = if c == 0 then continue w s else jump_to a w s

  unfoldable pub end : Instruction → World → List ℕ → Effect World Final
  end i w s = elim (finish i w s) [ none ↦ fault | some r ↦ stop r ]

  unfoldable pub act : Instruction → World → List ℕ → Effect World Final
  act i w s = elim (effect i w s) [ none ↦ fault | some (w', s') ↦ continue w' s' ]

  -- The results of an instruction without side effects: the value of its constants, if it has one.
  unfoldable pub outputs : Instruction → World → List ℕ → List ℕ
  outputs i w xs = elim (constant_value i xs) [ none ↦ results i w xs | some v ↦ v ∷ [] ]

  -- It takes its operands from the stack and puts its results there.
  unfoldable pub pure : Instruction → World → List ℕ → Effect World Final
  unfolding split_at outputs
  pure i w s = elim (split_at (instruction_info i).args s) [
    | none ↦ fault
    | some (xs, r) ↦ continue w (outputs i w xs ++ r)
  ]

  unfoldable pub execute : Instruction → World → List ℕ → Effect World Final
  unfolding dup swap jump jump_if end act pure ends
  execute i w s =
      if is_dup_instruction i
      then dup (get_dup_number i) w s
      else (if is_swap_instruction i
          then swap (get_swap_number i) w s
          else (if i == Opcode.jump
              then jump w s
              else (if i == Opcode.jumpi
                  then jump_if w s
                  else (if ends i
                      then end i w s
                      else (if (instruction_info i).side_effects then act i w s else pure i w s)))))

  unfoldable pub step_by_type :
      AssemblyItemType → Instruction → ℕ → World → List ℕ → Effect World Final
  step_by_type undefined_item i d w s = fault
  step_by_type operation i d w s = execute i w s
  step_by_type push i d w s = continue w (d ∷ s)
  step_by_type push_tag i d w s = continue w (address d ∷ s)
  step_by_type tag i d w s = continue w s
  step_by_type t i d w s = continue w (assigned t d ∷ s)

  unfoldable pub step : AssemblyItem → World → List ℕ → Effect World Final
  unfolding step_by_type
  step it w s = step_by_type it.type it.instruction it.data_value w s

  -- Items one after the other, up to the first that does not continue.
  unfoldable pub exec : List AssemblyItem → World → List ℕ → Effect World Final
  exec [] w s = continue w s
  exec (it ∷ items) w s = elim (step it w s) [
    | continue w' s' ↦ exec items w' s'
    | jump_to a w' s' ↦ jump_to a w' s'
    | stop r ↦ stop r
    | fault ↦ fault
  ]

  -- The code from the first tag at an address on.
  unfoldable pub find_dest : ℕ → List AssemblyItem → Option (List AssemblyItem)
  find_dest a [] = none
  find_dest a (it ∷ items) =
      if type_eq it.type tag && address it.data_value == a
      then some (it ∷ items)
      else find_dest a items

  -- A program runs from a position in it, which is the items that are left. Fuel bounds the steps.
  -- Where the code ends the machine stops.
  pub data Outcome : Type 0 where
    stopped : Final → Outcome
    failed out_of_fuel : Outcome

  unfoldable pub run : List AssemblyItem → ℕ → List AssemblyItem → World → List ℕ → Outcome
  run program zero items w s = out_of_fuel
  run program (suc fuel) [] w s = elim (finish Opcode.stop w s) [
    | none ↦ failed
    | some r ↦ stopped r
  ]
  run program (suc fuel) (it ∷ items) w s = elim (step it w s) [
    | continue w' s' ↦ run program fuel items w' s'
    | jump_to a w' s' ↦ elim (find_dest a program) [
      | none ↦ failed
      | some items' ↦ run program fuel items' w' s'
    ]
    | stop r ↦ stopped r
    | fault ↦ failed
  ]
