-- ===== src/Tests/Instructions.antt =====
-- Instructions, assembly items and bytes at concrete inputs.
use lity.Prelude.{
  ◌^◌, ◌≡◌, ◌⊎◌, ◌≤◌, ◌<◌, ◌↔◌, refl, true, arith, ok, err, invalid_opcode, exception,
}
use lity.Evmasm.Opcode
use lity.Evmasm.Opcode.{Instruction}
use lity.Evmasm.Instruction.{instruction_info}
use lity.Evmasm.Instruction.Family.{push, member, number, make, number-make}
use lity.Evmasm.AssemblyItem.{
  AssemblyItem, op, push_item, tag, push_tag, split_foreign_push_tag, to_sub_assembly_tag,
  item_bytes_required,
}
use lity.Evmasm.AssemblyItem.Tags.{split-to_sub_assembly_tag}
use lity.Devcore.CommonData.{bytes_required}
use lity.Devcore.CommonData.Size.{bytes_required_iff}

number-make_example :
    ((1 ≤ 17)
      × (17 ≤ 32)
      × ((i : Instruction) × (make push 17 ≡ ok i) × (member push i ≡ true) × (number push i ≡ 17)))
    ⊎ (((17 < 1) ⊎ (32 < 17)) × (make push 17 ≡ err invalid_opcode))
number-make_example = number-make push 17

-- The name of a byte that is no instruction.
invalid_name : (instruction_info 0x0c).name ≡ "<INVALID_INSTRUCTION: 12>"
unfolding instruction_info
invalid_name = refl

abbrev a_tag : AssemblyItem
a_tag = record (op 0) { type = tag; data_value = 5 }

split-to_sub_assembly_tag_example :
    ((5 < 2 ^ 64)
      × ((it' : AssemblyItem) × (to_sub_assembly_tag 2 a_tag ≡ ok it')
          × (it'.type ≡ push_tag)
          × (split_foreign_push_tag it' ≡ ok (2, 5))))
    ⊎ ((2 ^ 64 ≤ 5) × (to_sub_assembly_tag 2 a_tag ≡ err exception))
split-to_sub_assembly_tag_example = split-to_sub_assembly_tag 2 a_tag (omega arith) refl

bytes_required_iff_example : (bytes_required 0x1ff ≤ 2) ↔ (0x1ff < 256 ^ 2)
bytes_required_iff_example = bytes_required_iff 2 0x1ff

three_bytes : item_bytes_required 3 (push_item 0x1ff) ≡ ok 3
unfolding item_bytes_required bytes_required
three_bytes = refl
