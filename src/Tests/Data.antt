-- ===== src/Tests/Data.antt =====
-- Bytes, hexadecimal text and removed labels at concrete inputs.
use lity.Prelude.{ℕ, ◌≡◌, max, refl, true, false, not, List, [], ◌∷◌, length, ◌==◌, ok, arith}
use lity.Devcore.CommonData.{bytes_required, from_big_endian, to_compact_big_endian}
use lity.Devcore.CommonData.BigEndian.{to_compact_big_endian-round}
use lity.Devcore.Hex.{
  dont_throw, throw, add, to_hex, to_hex_bytes, hex_number, hex_digit, from_hex, from_hex_digits,
  from_hex_pairs, from_hex_char,
}
use lity.Devcore.Hex.Round.{from_hex-to_hex}
use lity.Evmasm.Opcode
use lity.Evmasm.Opcode.{Instruction}
use lity.Evmasm.Instruction.{instruction_info, is_valid_instruction}
use lity.Evmasm.Instruction.Decode.{
  each_instruction, each_fuel, fill_data, encode, Fits, each_instruction-encode,
}
use lity.Evmasm.AssemblyItem.{AssemblyItem, op, tag, push_tag, split_foreign_push_tag}
use lity.Evmasm.JumpdestRemover.{optimise, referenced_tags, remove_unreferenced, is_unreferenced}
use lity.Evmasm.JumpdestRemover.Kept.{
  filter, stays, references_of, all_own, optimise-filter, optimise-optimise,
}

to_compact_big_endian-round_example :
    (from_big_endian (to_compact_big_endian 0x0102_03 2) ≡ 0x0102_03)
    × (length (to_compact_big_endian 0x0102_03 2) ≡ max 2 (bytes_required 0x0102_03))
to_compact_big_endian-round_example = to_compact_big_endian-round 0x0102_03 2 (omega arith)

-- "Ai", with the prefix: 0x4169
hex_of_two : to_hex (0x41 ∷ 0x69 ∷ []) 2 add ≡ 48 ∷ 120 ∷ 52 ∷ 49 ∷ 54 ∷ 57 ∷ []
unfolding to_hex to_hex_bytes hex_number hex_digit
hex_of_two = refl

from_hex-to_hex_example : from_hex (to_hex (0x41 ∷ 0xff ∷ []) 2 add) throw ≡ ok (0x41 ∷ 0xff ∷ [])
from_hex-to_hex_example =
    from_hex-to_hex (0x41 ∷ 0xff ∷ []) add throw (omega arith, (omega arith, tt))

-- Good digits before a bad one, "41zz", are lost.
good_digits_lost : from_hex (52 ∷ 49 ∷ 122 ∷ 122 ∷ []) dont_throw ≡ ok []
unfolding from_hex from_hex_digits from_hex_pairs from_hex_char
good_digits_lost = refl

abbrev label : ℕ → AssemblyItem
label t = record (op 0) { type = tag; data_value = t }

-- tag 1, PUSH tag 2, JUMP, tag 2, tag 3, STOP
abbrev labels : List AssemblyItem
labels =
    label 1
    ∷ record (op 0) { type = push_tag; data_value = 2 }
    ∷ op Opcode.jump
    ∷ label 2
    ∷ label 3
    ∷ op Opcode.stop
    ∷ []

abbrev labels_left : List AssemblyItem
labels_left =
    record (op 0) { type = push_tag; data_value = 2 }
    ∷ op Opcode.jump
    ∷ label 2
    ∷ label 3
    ∷ op Opcode.stop
    ∷ []

labels_own : all_own labels ≡ true
unfolding all_own
labels_own = refl

optimise-labels : optimise (3 ∷ []) labels ≡ ok (true, labels_left)
unfolding optimise referenced_tags remove_unreferenced is_unreferenced split_foreign_push_tag
optimise-labels = refl

optimise-filter_example :
    optimise (3 ∷ []) labels
    ≡ ok (
      not (length (filter (stays (references_of (3 ∷ []) labels)) labels) == length labels),
      filter (stays (references_of (3 ∷ []) labels)) labels,
    )
optimise-filter_example = optimise-filter (3 ∷ []) labels labels_own

optimise-optimise_example : optimise (3 ∷ []) labels_left ≡ ok (false, labels_left)
optimise-optimise_example =
    optimise-optimise (3 ∷ []) labels labels_left true labels_own optimise-labels

-- PUSH2 0x0102, ADD, STOP
abbrev some_code : List (Instruction × ℕ)
some_code = (0x61, 0x0102) ∷ (0x01, 0) ∷ (0x00, 0) ∷ []

some_code-Fits : Fits some_code
unfolding is_valid_instruction instruction_info
some_code-Fits =
    ((omega arith, omega arith, (omega arith, omega arith, (omega arith, omega arith, tt))))

each_instruction-encode_example : each_instruction (encode some_code) ≡ some_code
each_instruction-encode_example = each_instruction-encode some_code some_code-Fits

-- PUSH2 at the end of the code, with one octet missing
missing_octet : each_instruction (0x61 ∷ 0x01 ∷ []) ≡ (0x61, 0x0100) ∷ []
unfolding each_instruction each_fuel fill_data is_valid_instruction instruction_info
missing_octet = refl
