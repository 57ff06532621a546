-- ===== src/Evmasm/Machine/Runs/Known.antt =====
-- libevmasm/Instruction.h: the meaning of items whose instruction is known.

use lity.Prelude.{ℕ, ◌≡◌, refl, ap, sym, ◌∙◌, true, List, [], ◌∷◌, ◌++◌, ◌==◌, if◌then◌else◌, arith}
use lity.Evmasm.Opcode
use lity.Evmasm.Opcode.{Instruction}
use lity.Evmasm.Word.{constant_value}
use lity.Evmasm.Instruction.{instruction_info, is_dup_instruction, is_swap_instruction}
use lity.Evmasm.AssemblyItem.{
  AssemblyItem, AssemblyItemType, undefined_item, operation, push, push_string, push_tag, push_sub,
  push_sub_size, push_program_size, tag, push_data, push_library_address, push_deploy_time_address,
  index, type_eq, op, item_eq,
}
use lity.Evmasm.Machine.{continue, Machine, execute, step_by_type, step}
use lity.Evmasm.Machine.Runs.Stack.{length-zero}

-- The type with an index.
of_index : ℕ → AssemblyItemType
of_index n =
    if n == 0
    then undefined_item
    else (if n == 1
        then operation
        else (if n == 2
            then push
            else (if n == 3
                then push_string
                else (if n == 4
                    then push_tag
                    else (if n == 5
                        then push_sub
                        else (if n == 6
                            then push_sub_size
                            else (if n == 7
                                then push_program_size
                                else (if n == 8
                                    then tag
                                    else (if n == 9
                                        then push_data
                                        else (if n == 10
                                            then push_library_address
                                            else push_deploy_time_address))))))))))

of_index-index : (t : AssemblyItemType) → of_index (index t) ≡ t
unfolding of_index
of_index-index undefined_item = refl
of_index-index _ = refl

pub type_eq→eq : (t u : AssemblyItemType) → type_eq t u ≡ true → t ≡ u
type_eq→eq t u h =
    sym (of_index-index t) ∙ ap of_index (same (index t) (index u) h) ∙ of_index-index u
  where
    same : (a b : ℕ) → (a == b) ≡ true → a ≡ b
    same a b h = ground arith

-- An item that equals an instruction is an operation with that instruction.
pub item_eq-op :
    (it : AssemblyItem) (i : Instruction)
    → item_eq it (op i) ≡ true
    → (it.type ≡ operation) × (it.instruction ≡ i)
unfolding item_eq
item_eq-op it i h =
    let t : type_eq it.type operation ≡ true = ground arith in
    (type_eq→eq it.type operation t, ground arith)

module _ (m : Machine) where
  open m use {World, Final}

  pub step-operation :
      (it : AssemblyItem) (i : Instruction) (w : World) (s : List ℕ)
      → it.type ≡ operation
      → it.instruction ≡ i
      → step m it w s ≡ execute m i w s
  unfolding step
  step-operation it i w s e f =
      ap (λ t. step_by_type m t it.instruction it.data_value w s) e ∙ ap (λ j. execute m j w s) f

  pub step-push :
      (it : AssemblyItem) (w : World) (s : List ℕ)
      → it.type ≡ push
      → step m it w s ≡ continue w (it.data_value ∷ s)
  unfolding step
  step-push it w s e = ap (λ t. step_by_type m t it.instruction it.data_value w s) e

  pub step-push_tag :
      (it : AssemblyItem) (w : World) (s : List ℕ)
      → it.type ≡ push_tag
      → step m it w s ≡ continue w (m.address it.data_value ∷ s)
  unfolding step
  step-push_tag it w s e = ap (λ t. step_by_type m t it.instruction it.data_value w s) e

  pub step-tag :
      (it : AssemblyItem) (w : World) (s : List ℕ) → it.type ≡ tag → step m it w s ≡ continue w s
  unfolding step
  step-tag it w s e = ap (λ t. step_by_type m t it.instruction it.data_value w s) e

  execute-pop : (w : World) (x : ℕ) (s : List ℕ) → execute m Opcode.pop w (x ∷ s) ≡ continue w s
  unfolding execute instruction_info is_dup_instruction is_swap_instruction constant_value
  execute-pop w x s =
      ap (λ l. continue w (l ++ s))
        (length-zero (m.results Opcode.pop w (x ∷ [])) (m.length-results Opcode.pop w (x ∷ [])))

  pub step-pop :
      (it : AssemblyItem) (w : World) (x : ℕ) (s : List ℕ)
      → item_eq it (op Opcode.pop) ≡ true
      → step m it w (x ∷ s) ≡ continue w s
  step-pop it w x s h =
      let p = item_eq-op it Opcode.pop h in
      step-operation it Opcode.pop w (x ∷ s) p.0 p.1 ∙ execute-pop w x s
