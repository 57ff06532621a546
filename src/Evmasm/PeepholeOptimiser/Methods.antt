-- ===== src/Evmasm/PeepholeOptimiser/Methods.antt =====
-- libevmasm/PeepholeOptimiser.cpp: the methods, each over the items from `_state.i` on. A method that
-- applies gives what it writes to `_state.out` and the items after the new `_state.i`.
use lity.Prelude.{
  ◌&&◌, ◌||◌, not, ◌==◌, Bool, true, false, Option, none, some, List, [], ◌∷◌, if◌then◌else◌,
  replicate, bit_and,
}
use lity.Evmasm.Opcode
use lity.Evmasm.Opcode.{Instruction}
use lity.Evmasm.Instruction.{instruction_info}
use lity.Evmasm.AssemblyItem.{
  AssemblyItem, operation, push, push_string, push_tag, push_sub, push_sub_size, push_program_size,
  tag, push_data, push_library_address, type_eq, op, op_at, item_eq,
}
use lity.Evmasm.SemanticInformation.{is_dup, is_swap, is_commutative_operation}

-- What `applySimple` writes, where it returns true.
abbrev pub Output : Type 0
Output = Option (List AssemblyItem)

-- What `apply` writes and the items that it leaves, where it returns true.
abbrev pub Applied : Type 0
Applied = Option (List AssemblyItem × List AssemblyItem)

-- `SimplePeepholeOptimizerMethod<Method, WindowSize>::apply` for a window of one, two and three items
abbrev pub with_rest : Output → List AssemblyItem → Applied
with_rest none rest = none
with_rest (some out) rest = some (out, rest)

unfoldable pub window_1 : (AssemblyItem → Output) → List AssemblyItem → Applied
window_1 apply_simple (a ∷ rest) = with_rest (apply_simple a) rest
window_1 apply_simple [] = none

unfoldable pub window_2 : (AssemblyItem → AssemblyItem → Output) → List AssemblyItem → Applied
window_2 apply_simple (a ∷ b ∷ rest) = with_rest (apply_simple a b) rest
window_2 apply_simple (a ∷ []) = none
window_2 apply_simple [] = none

unfoldable pub window_3 :
    (AssemblyItem → AssemblyItem → AssemblyItem → Output) → List AssemblyItem → Applied
window_3 apply_simple (a ∷ b ∷ c ∷ rest) = with_rest (apply_simple a b c) rest
window_3 apply_simple (a ∷ b ∷ []) = none
window_3 apply_simple (a ∷ []) = none
window_3 apply_simple [] = none

unfoldable pub identity : AssemblyItem → Output
identity it = some (it ∷ [])

unfoldable pub push_pop : AssemblyItem → AssemblyItem → Output
push_pop a pop =
    let t = a.type in
    if item_eq pop (op Opcode.pop)
      && (is_dup a
          || type_eq t push
          || type_eq t push_string
          || type_eq t push_tag
          || type_eq t push_sub
          || type_eq t push_sub_size
          || type_eq t push_program_size
          || type_eq t push_data
          || type_eq t push_library_address)
    then some []
    else none

unfoldable pub op_pop : AssemblyItem → AssemblyItem → Output
op_pop a pop =
    if item_eq pop (op Opcode.pop)
      && type_eq a.type operation
      && ((instruction_info a.instruction).ret == 1
          && not (instruction_info a.instruction).side_effects)
    then some (replicate (instruction_info a.instruction).args (op_at Opcode.pop a.location))
    else none

unfoldable pub double_swap : AssemblyItem → AssemblyItem → Output
double_swap s1 s2 = if item_eq s1 s2 && is_swap s1 then some [] else none

unfoldable pub double_push : AssemblyItem → AssemblyItem → Output
double_push push1 push2 =
    if type_eq push1.type push && type_eq push2.type push && push1.data_value == push2.data_value
    then some (push1 ∷ op_at Opcode.dup1 push2.location ∷ [])
    else none

unfoldable pub commutative_swap : AssemblyItem → AssemblyItem → Output
commutative_swap swap it =
    if type_eq swap.type operation
      && swap.instruction == Opcode.swap1
      && is_commutative_operation it
    then some (it ∷ [])
    else none

-- `swappableOps`
abbrev pub swappable_op : Instruction → Option Instruction
swappable_op i =
    if i == Opcode.lt
    then some Opcode.gt
    else (if i == Opcode.gt
        then some Opcode.lt
        else (if i == Opcode.slt
            then some Opcode.sgt
            else (if i == Opcode.sgt then some Opcode.slt else none)))

abbrev write_op : Option Instruction → Output
write_op none = none
write_op (some i) = some (op i ∷ [])

unfoldable pub swap_comparison : AssemblyItem → AssemblyItem → Output
swap_comparison swap it =
    if type_eq swap.type operation && swap.instruction == Opcode.swap1 && type_eq it.type operation
    then write_op (swappable_op it.instruction)
    else none

unfoldable pub jump_to_next : AssemblyItem → AssemblyItem → AssemblyItem → Output
jump_to_next a jump label =
    if type_eq a.type push_tag
      && (item_eq jump (op Opcode.jump) || item_eq jump (op Opcode.jumpi))
      && type_eq label.type tag
      && a.data_value == label.data_value
    then some (
        if item_eq jump (op Opcode.jumpi)
        then op_at Opcode.pop jump.location ∷ label ∷ []
        else label ∷ [])
    else none

unfoldable pub tag_conjunctions : AssemblyItem → AssemblyItem → AssemblyItem → Output
tag_conjunctions a constant and =
    if type_eq a.type push_tag
      && item_eq and (op Opcode.and)
      && type_eq constant.type push
      && bit_and constant.data_value 0xffff_ffff == 0xffff_ffff
    then some (a ∷ [])
    else none

unfoldable pub truthy_and : AssemblyItem → AssemblyItem → AssemblyItem → Output
truthy_and a not and =
    if type_eq a.type push
      && a.data_value == 0
      && item_eq not (op Opcode.not)
      && item_eq and (op Opcode.and)
    then some []
    else none

-- `while (it + i != end && it[i].type() != Tag) i++`: the items from the next tag on
unfoldable pub drop_to_tag : List AssemblyItem → List AssemblyItem
drop_to_tag [] = []
drop_to_tag (it ∷ items) = if type_eq it.type tag then it ∷ items else drop_to_tag items

abbrev starts_with_tag : List AssemblyItem → Bool
starts_with_tag [] = false
starts_with_tag (it ∷ items) = type_eq it.type tag

abbrev is_empty : List AssemblyItem → Bool
is_empty [] = true
is_empty (_ ∷ _) = false

unfoldable pub is_terminator : AssemblyItem → Bool
is_terminator it =
    item_eq it (op Opcode.jump)
    || item_eq it (op Opcode.return)
    || item_eq it (op Opcode.stop)
    || item_eq it (op Opcode.invalid)
    || item_eq it (op Opcode.selfdestruct)
    || item_eq it (op Opcode.revert)

-- `UnreachableCode::apply`; `i > 1` says that an item other than a tag follows.
unfoldable pub unreachable_code : List AssemblyItem → Applied
unreachable_code [] = none
unreachable_code (it ∷ items) =
    if not (is_terminator it)
    then none
    else (if is_empty items || starts_with_tag items
        then none
        else some (it ∷ [], drop_to_tag items))

-- `applyMethods`: the first method that applies; none of them is the exception's case.
unfoldable pub first_applied : List (List AssemblyItem → Applied) → List AssemblyItem → Applied
first_applied [] items = none
first_applied (method ∷ others) items =
    let rest = first_applied others items in
    elim (method items) [ none ↦ rest | some result ↦ some result ]

unfoldable pub apply_methods : List AssemblyItem → Applied
unfolding first_applied
apply_methods = first_applied (
    window_2 push_pop
    ∷ window_2 op_pop
    ∷ window_2 double_push
    ∷ window_2 double_swap
    ∷ window_2 commutative_swap
    ∷ window_2 swap_comparison
    ∷ window_3 jump_to_next
    ∷ unreachable_code
    ∷ window_3 tag_conjunctions
    ∷ window_3 truthy_and
    ∷ window_1 identity
    ∷ [])
