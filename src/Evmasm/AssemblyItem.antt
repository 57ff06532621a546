-- ===== src/Evmasm/AssemblyItem.antt =====
-- libevmasm/AssemblyItem.h and .cpp: the items of an assembly, before their addresses are known.
pub mod Tags
pub mod Order
pub mod Size
use lity.Prelude.{
  ℕ, zero, suc, ◌+◌, ◌-◌, ◌*◌, ◌/◌, ◌%◌, ◌^◌, max, bit_or, Bool, true, false, Option, none, some,
  List, [], ◌∷◌, ◌&&◌, ◌||◌, not, ltb, ◌==◌, if◌then◌else◌, Result, ok, err, ◌>>=◌, ◌>>◌,
  assert_throw, exception, invalid_opcode,
}
use lity.Prelude.Int.{ℤ, sub_ℕ}
use lity.Devcore.CommonData.{bytes_required as bytes_of}
use lity.Evmasm.Opcode.{Instruction}
use lity.Evmasm.Instruction.{instruction_info, is_dup_instruction, is_swap_instruction}
use lity.Evmasm.SourceLocation.{SourceLocation, no_location}

-- `enum AssemblyItemType`
pub data AssemblyItemType : Type 0 where
  undefined_item operation push push_string push_tag push_sub : AssemblyItemType
  push_sub_size push_program_size tag push_data : AssemblyItemType
  push_library_address push_deploy_time_address : AssemblyItemType

-- The enumerators' values, by which types are compared.
abbrev pub index : AssemblyItemType → ℕ
index undefined_item = 0
index operation = 1
index push = 2
index push_string = 3
index push_tag = 4
index push_sub = 5
index push_sub_size = 6
index push_program_size = 7
index tag = 8
index push_data = 9
index push_library_address = 10
index push_deploy_time_address = 11

abbrev pub type_eq : AssemblyItemType → AssemblyItemType → Bool
type_eq a b = index a == index b

-- `enum class JumpType`
pub data JumpType : Type 0 where
  ordinary into_function out_of_function : JumpType

-- `class AssemblyItem`. `instruction` is valid for an operation only, and `data_value` for the other
-- types only; both are 0 where they are not valid.
pub record AssemblyItem : Type 0 where
  pub type : AssemblyItemType
  pub instruction : Instruction
  pub data_value : ℕ
  pub location : SourceLocation
  pub jump_type : JumpType
  pub pushed_value : Option ℕ

-- `AssemblyItem(Instruction, SourceLocation)`
abbrev pub op_at : Instruction → SourceLocation → AssemblyItem
op_at i location = record {
  type = operation;
  instruction = i;
  data_value = 0;
  location = location;
  jump_type = ordinary;
  pushed_value = none;
}

abbrev pub op : Instruction → AssemblyItem
op i = op_at i no_location

-- `AssemblyItem(AssemblyItemType, u256, SourceLocation)`: an operation keeps the low byte.
unfoldable pub item : AssemblyItemType → ℕ → SourceLocation → AssemblyItem
item type value location = record {
  type = type;
  instruction = if type_eq type operation then value % 256 else 0;
  data_value = if type_eq type operation then 0 else value;
  location = location;
  jump_type = ordinary;
  pushed_value = none;
}

-- `AssemblyItem(u256, SourceLocation)`
abbrev pub push_item : ℕ → AssemblyItem
push_item value = record {
  type = push;
  instruction = 0;
  data_value = value;
  location = no_location;
  jump_type = ordinary;
  pushed_value = none;
}

-- `data()` and `instruction()`, each with its assertion
unfoldable pub get_data : AssemblyItem → Result ℕ
get_data it = do assert_throw (not (type_eq it.type operation)) exception; ok it.data_value

unfoldable pub get_instruction : AssemblyItem → Result Instruction
get_instruction it = do assert_throw (type_eq it.type operation) exception; ok it.instruction

unfoldable pub set_data : ℕ → AssemblyItem → Result AssemblyItem
set_data value it = do
  assert_throw (not (type_eq it.type operation)) exception
  ok (record it { data_value = value })

abbrev is_tag_or_push_tag : AssemblyItem → Bool
is_tag_or_push_tag it = type_eq it.type push_tag || type_eq it.type tag

-- `tag()` and `pushTag()`
unfoldable pub tag_of : AssemblyItem → Result AssemblyItem
unfolding item
tag_of it = do
  assert_throw (is_tag_or_push_tag it) exception
  ok (item tag it.data_value no_location)

unfoldable pub push_tag_of : AssemblyItem → Result AssemblyItem
unfolding item
push_tag_of it = do
  assert_throw (is_tag_or_push_tag it) exception
  ok (item push_tag it.data_value no_location)

-- `size_t(-1)`, the sub-assembly id of a tag of the own assembly
abbrev pub no_sub : ℕ
no_sub = 0xffff_ffff_ffff_ffff

-- `setPushTagSubIdAndTag`; `size_t` arguments are below 2 ^ 64
unfoldable pub set_push_tag_sub_id_and_tag : ℕ → ℕ → AssemblyItem → Result AssemblyItem
unfolding set_data
set_push_tag_sub_id_and_tag sub_id the_tag it = do
  assert_throw (is_tag_or_push_tag it) exception
  set_data (if sub_id == no_sub then the_tag else bit_or the_tag ((sub_id + 1) * 2 ^ 64 % 2 ^ 256))
      it

-- `splitForeignPushTag`: `(combined >> 64) - 1` wraps in `u256`, and `size_t` keeps the low 64 bits.
unfoldable pub split_foreign_push_tag : AssemblyItem → Result (ℕ × ℕ)
split_foreign_push_tag it = do
  assert_throw (is_tag_or_push_tag it) exception
  let combined = it.data_value
  ok ((combined / 2 ^ 64 + 2 ^ 256 - 1) % 2 ^ 256 % 2 ^ 64, combined % 2 ^ 64)

-- `toSubAssemblyTag`; `data()` asserts first
unfoldable pub to_sub_assembly_tag : ℕ → AssemblyItem → Result AssemblyItem
unfolding get_data
to_sub_assembly_tag sub_id it = do
  value ← get_data it
  assert_throw (ltb value (2 ^ 64)) exception
  assert_throw (is_tag_or_push_tag it) exception
  let the_tag = value % 2 ^ 64
  set_push_tag_sub_id_and_tag sub_id the_tag (record it { type = push_tag })

-- `operator==` and `operator<`
unfoldable pub item_eq : AssemblyItem → AssemblyItem → Bool
item_eq a other =
    if not (type_eq a.type other.type)
    then false
    else (if type_eq a.type operation
        then a.instruction == other.instruction
        else a.data_value == other.data_value)

unfoldable pub item_lt : AssemblyItem → AssemblyItem → Bool
item_lt a other =
    if not (type_eq a.type other.type)
    then ltb (index a.type) (index other.type)
    else (if type_eq a.type operation
        then ltb a.instruction other.instruction
        else ltb a.data_value other.data_value)

-- `bytesRequired` of an item, by its type
unfoldable pub bytes_by_type : AssemblyItemType → ℕ → ℕ → Result ℕ
bytes_by_type operation value address_length = ok 1
bytes_by_type tag value address_length = ok 1
bytes_by_type push_string value address_length = ok (1 + 32)
bytes_by_type push value address_length = ok (1 + max 1 (bytes_of value))
bytes_by_type push_sub_size value address_length = ok (1 + 4)
bytes_by_type push_program_size value address_length = ok (1 + 4)
bytes_by_type push_tag value address_length = ok (1 + address_length)
bytes_by_type push_data value address_length = ok (1 + address_length)
bytes_by_type push_sub value address_length = ok (1 + address_length)
bytes_by_type push_library_address value address_length = ok (1 + 20)
bytes_by_type push_deploy_time_address value address_length = ok (1 + 20)
bytes_by_type undefined_item value address_length = err invalid_opcode

unfoldable pub item_bytes_required : ℕ → AssemblyItem → Result ℕ
unfolding bytes_by_type
item_bytes_required address_length it = bytes_by_type it.type it.data_value address_length

-- `bytesRequired` of a vector of items
unfoldable pub bytes_required : ℕ → List AssemblyItem → Result ℕ
unfolding item_bytes_required
bytes_required address_length [] = ok 0
bytes_required address_length (it ∷ items) = do
  n ← item_bytes_required address_length it
  m ← bytes_required address_length items
  ok (n + m)

unfoldable pub arguments : AssemblyItem → ℕ
arguments it = if type_eq it.type operation then (instruction_info it.instruction).args else 0

abbrev pushes_one : AssemblyItemType → Bool
pushes_one undefined_item = false
pushes_one operation = false
pushes_one tag = false
pushes_one _ = true

unfoldable pub return_values : AssemblyItem → ℕ
return_values it =
    if type_eq it.type operation
    then (instruction_info it.instruction).ret
    else (if pushes_one it.type then 1 else 0)

unfoldable pub deposit : AssemblyItem → ℤ
unfolding return_values arguments
deposit it = sub_ℕ (return_values it) (arguments it)

unfoldable pub can_be_functional : AssemblyItem → Bool
can_be_functional it =
    if type_eq it.type operation
    then not (is_dup_instruction it.instruction) && not (is_swap_instruction it.instruction)
    else pushes_one it.type
