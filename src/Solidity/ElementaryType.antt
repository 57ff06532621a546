-- ===== src/Solidity/ElementaryType.antt =====
-- libsolidity/ast/Types.h and .cpp: the elementary value types, and what they are converted to. The
-- types of the other categories are not modelled, so a question about them is not asked here.
pub mod Conversions
pub mod Operators
pub mod Values
pub mod Order
pub mod Results
pub mod Layout
use lity.Prelude.{
  ℕ, suc, ◌+◌, ◌-◌, ◌*◌, ◌/◌, ◌%◌, ◌^◌, Bool, true, false, ◌&&◌, ◌||◌, not, Option, none, some, ltb,
  leb, ◌==◌, if◌then◌else◌,
}
use lity.Prelude.Int.{ℤ, pos, sub_ℕ, ltb_ℤ}
use lity.Solidity.StorageOffsets.{StoredType}

-- `IntegerType::Modifier`
pub data Modifier : Type 0 where
  unsigned signed safe_uint : Modifier

-- `FixedPointType::Modifier`
pub data FixedModifier : Type 0 where
  unsigned_fixed signed_fixed : FixedModifier

-- What an address may be of `StateMutability`.
pub data StateMutability : Type 0 where
  non_payable payable : StateMutability

-- `<=` on it
abbrev pub mutability_leb : StateMutability → StateMutability → Bool
mutability_leb non_payable m = true
mutability_leb payable non_payable = false
mutability_leb payable payable = true

-- `IntegerType`, `FixedPointType`, `AddressType`, `BoolType` and `FixedBytesType`
pub data ElementaryType : Type 0 where
  integer : (bits : ℕ) → Modifier → ElementaryType
  fixed_point : (total_bits fractional_digits : ℕ) → FixedModifier → ElementaryType
  address : StateMutability → ElementaryType
  boolean : ElementaryType
  fixed_bytes : (bytes : ℕ) → ElementaryType

-- The assertions of the constructors.
abbrev pub is_integer_size : ℕ → Bool
is_integer_size bits = ltb 0 bits && (leb bits 256 && (bits % 8 == 0))

abbrev pub is_fixed_point_size : ℕ → ℕ → Bool
is_fixed_point_size bits digits =
    leb 8 bits && (leb bits 256 && ((bits % 8 == 0) && leb digits 0xffff_ffff))

abbrev pub is_fixed_bytes_size : ℕ → Bool
is_fixed_bytes_size bytes = ltb 0 bytes && leb bytes 32

unfoldable pub is_constructible : ElementaryType → Bool
is_constructible (integer bits m) = is_integer_size bits
is_constructible (fixed_point bits digits m) = is_fixed_point_size bits digits
is_constructible (address m) = true
is_constructible boolean = true
is_constructible (fixed_bytes bytes) = is_fixed_bytes_size bytes

abbrev pub is_signed : Modifier → Bool
is_signed unsigned = false
is_signed signed = true
is_signed safe_uint = false

abbrev pub is_safe_uint : Modifier → Bool
is_safe_uint unsigned = false
is_safe_uint signed = false
is_safe_uint safe_uint = true

abbrev pub is_signed_fixed : FixedModifier → Bool
is_signed_fixed unsigned_fixed = false
is_signed_fixed signed_fixed = true

-- `minValue` and `maxValue`
unfoldable pub min_value : ℕ → Modifier → ℤ
min_value bits m = if is_signed m then sub_ℕ 0 (2 ^ (bits - 1)) else pos 0

unfoldable pub max_value : ℕ → Modifier → ℤ
max_value bits m = if is_signed m then sub_ℕ (2 ^ (bits - 1)) 1 else sub_ℕ (2 ^ bits) 1

-- `maxIntegerValue` and `minIntegerValue`; the division rounds towards 0.
unfoldable pub max_integer_value : ℕ → ℕ → FixedModifier → ℤ
max_integer_value bits digits m =
    pos ((2 ^ (bits - (if is_signed_fixed m then 1 else 0)) - 1) / 10 ^ digits)

unfoldable pub min_integer_value : ℕ → ℕ → FixedModifier → ℤ
min_integer_value bits digits m =
    if is_signed_fixed m
    then sub_ℕ 0 (2 ^ (bits - (if is_signed_fixed m then 1 else 0)) / 10 ^ digits)
    else pos 0

-- `storageBytes`; `storageSize` and `canBeStored` are those of `Type`.
unfoldable pub storage_bytes : ElementaryType → ℕ
storage_bytes (integer bits m) = bits / 8
storage_bytes (fixed_point bits digits m) = bits / 8
storage_bytes (address m) = 160 / 8
storage_bytes boolean = 1
storage_bytes (fixed_bytes bytes) = bytes

unfoldable pub stored_type : ElementaryType → StoredType
stored_type t = record { can_be_stored = true; storage_bytes = storage_bytes t; storage_size = 1 }
