-- ===== src/Tests/Types.antt =====
-- Tokens, elementary types and places in storage at concrete inputs.
use lity.Prelude.{
  ℕ, ◌*◌, ◌≤◌, ◌<◌, ◌≡◌, ◌⊎◌, refl, inl, inr, true, some, List, [], ◌∷◌, map, length, ok,
  AllOf-get_elem?, arith,
}
use lity.Prelude.Int.{pos}
use lity.Solidity.Token.{Token, add, is_compare_op, is_shift_op, is_boolean_op}
use lity.Solidity.StorageOffsets.{
  StoredType, Offsets, slot_limit, next_slot, advance, place, place_all, finish, compute_offsets,
}
use lity.Solidity.StorageOffsets.Layout.{IsPackable}
use lity.Solidity.StorageOffsets.Disjoint.{ArePackable, AreApart, compute_offsets-AreApart}
use lity.Solidity.StorageOffsets.Total.{AreSized, total_size, compute_offsets-total}
use lity.Solidity.ElementaryType.{
  ElementaryType, integer, fixed_point, address, boolean, payable, unsigned, signed, unsigned_fixed,
  signed_fixed, stored_type, is_constructible, min_value, max_value,
}
use lity.Solidity.ElementaryType.Conversions.{is_implicitly_convertible_to, common_type}
use lity.Solidity.ElementaryType.Operators.{
  is_valid_shift_and_amount_type, binary_operator_result, integer_result, is_exp_refused,
}
use lity.Solidity.ElementaryType.Values.{
  HasInteger, is_implicitly_convertible_to-HasInteger, signed_fixed-unsigned_fixed,
}
use lity.Solidity.ElementaryType.Order.{is_implicitly_convertible_to-order}
use lity.Solidity.ElementaryType.Results.{binary_operator_result-type}
use lity.Solidity.ElementaryType.Layout.{compute_offsets-elementary}

-- Two values of half a slot and one of two slots.
abbrev half : StoredType
half = record { can_be_stored = true; storage_bytes = 16; storage_size = 1 }

abbrev double : StoredType
double = record { can_be_stored = true; storage_bytes = 32; storage_size = 2 }

abbrev members : List StoredType
members = half ∷ half ∷ double ∷ []

abbrev no_offsets : Offsets
no_offsets = []

-- The members' places, the last one first: half a slot, the other half, and a slot of its own.
abbrev places : Offsets
places = (2, (1, 0)) ∷ (1, (0, 16)) ∷ (0, (0, 0)) ∷ no_offsets

members-places : compute_offsets members ≡ ok (3, places)
unfolding compute_offsets place_all place next_slot advance finish
members-places = refl

half-IsPackable : IsPackable half
half-IsPackable = record { bytes = omega arith; many = inl refl }

double-IsPackable : IsPackable double
double-IsPackable = record { bytes = omega arith; many = inr refl }

members-ArePackable : ArePackable members
members-ArePackable k t e =
    AllOf-get_elem? IsPackable members k t
      (half-IsPackable, (half-IsPackable, (double-IsPackable, tt))) e

abbrev IsSized : StoredType → Type 0
IsSized t = (t.storage_bytes ≤ 32) × (1 ≤ t.storage_size)

members-AreSized : AreSized members
members-AreSized k t e =
    AllOf-get_elem? IsSized members k t
      ((omega arith, omega arith), ((omega arith, omega arith), ((omega arith, omega arith), tt))) e

members_total : total_size members < slot_limit
unfolding total_size
members_total = omega arith

compute_offsets-AreApart_example : AreApart members (length members) places (32 * 3)
compute_offsets-AreApart_example =
    compute_offsets-AreApart members 3 places members-ArePackable members-places

compute_offsets-total_example :
    (slots : ℕ) × (o : Offsets) × (compute_offsets members ≡ ok (slots, o))
    × (slots ≤ total_size members)
compute_offsets-total_example = compute_offsets-total members members-AreSized members_total

abbrev flags : List ElementaryType
flags = boolean ∷ (integer 248 unsigned ∷ (address payable ∷ []))

flags_constructible :
    (is_constructible boolean ≡ true)
    × (is_constructible (integer 248 unsigned) ≡ true)
    × (is_constructible (address payable) ≡ true)
unfolding is_constructible
flags_constructible = (refl, refl, refl)

compute_offsets-elementary_example :
    (slots : ℕ) × (o : Offsets) × (compute_offsets (map stored_type flags) ≡ ok (slots, o))
    × (slots ≤ length flags)
    × AreApart (map stored_type flags) (length (map stored_type flags)) o (32 * slots)
compute_offsets-elementary_example =
    compute_offsets-elementary flags
      (flags_constructible.0, (flags_constructible.1, (flags_constructible.2, tt))) (omega arith)

constructible_uint8 : is_constructible (integer 8 unsigned) ≡ true
unfolding is_constructible
constructible_uint8 = refl

uint8_to_int16 : is_implicitly_convertible_to (integer 8 unsigned) (integer 16 signed) ≡ true
unfolding is_implicitly_convertible_to
uint8_to_int16 = refl

int16_to_int256 : is_implicitly_convertible_to (integer 16 signed) (integer 256 signed) ≡ true
unfolding is_implicitly_convertible_to
int16_to_int256 = refl

uint8_255 : HasInteger (integer 8 unsigned) (pos 255)
unfolding HasInteger min_value max_value
uint8_255 = (omega arith, omega arith)

is_implicitly_convertible_to-HasInteger_example : HasInteger (integer 16 signed) (pos 255)
is_implicitly_convertible_to-HasInteger_example =
    is_implicitly_convertible_to-HasInteger (integer 8 unsigned) (integer 16 signed) (pos 255)
      constructible_uint8 uint8_to_int16 uint8_255

signed_fixed-unsigned_fixed_example :
    is_implicitly_convertible_to (fixed_point 8 3 signed_fixed) (fixed_point 8 3 unsigned_fixed)
    ≡ true
signed_fixed-unsigned_fixed_example = signed_fixed-unsigned_fixed 8 3 (omega arith)

is_implicitly_convertible_to-order_example :
    (is_implicitly_convertible_to (integer 8 unsigned) (integer 256 signed) ≡ true)
    × (is_implicitly_convertible_to (integer 8 unsigned) (integer 8 unsigned) ≡ true)
is_implicitly_convertible_to-order_example =
    is_implicitly_convertible_to-order (integer 8 unsigned) (integer 16 signed) (integer 256 signed)
      constructible_uint8 uint8_to_int16 int16_to_int256

common_of_two :
    binary_operator_result add (integer 8 unsigned) (integer 16 signed) ≡ some (integer 16 signed)
unfolding binary_operator_result is_shift_op integer_result is_compare_op is_boolean_op
    is_exp_refused common_type is_implicitly_convertible_to
common_of_two = refl

binary_operator_result-type_example :
    ((is_shift_op add ≡ true)
      × (is_valid_shift_and_amount_type add (integer 16 signed) ≡ true)
      × (integer 16 signed ≡ integer 8 unsigned))
    ⊎ ((is_implicitly_convertible_to (integer 8 unsigned) (integer 16 signed) ≡ true)
        × (is_implicitly_convertible_to (integer 16 signed) (integer 16 signed) ≡ true))
binary_operator_result-type_example =
    binary_operator_result-type add (integer 8 unsigned) (integer 16 signed) (integer 16 signed)
      common_of_two
