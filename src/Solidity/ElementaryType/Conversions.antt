-- ===== src/Solidity/ElementaryType/Conversions.antt =====
-- libsolidity/ast/Types.cpp: which elementary types are converted to which.
use lity.Prelude.{
  ℕ, ◌*◌, Bool, true, false, ◌&&◌, ◌||◌, not, Option, none, some, ltb, leb, ◌==◌, if◌then◌else◌,
}
use lity.Prelude.Int.{ℤ, ltb_ℤ}
use lity.Solidity.ElementaryType.{
  Modifier, FixedModifier, StateMutability, mutability_leb, ElementaryType, integer, fixed_point,
  address, boolean, fixed_bytes, is_signed, is_safe_uint, min_value, max_value, max_integer_value,
  min_integer_value,
}

abbrev pub leb_ℤ : ℤ → ℤ → Bool
leb_ℤ a b = not (ltb_ℤ b a)

-- `isImplicitlyConvertibleTo`, of each class
abbrev pub integer_implicitly : ℕ → Modifier → ElementaryType → Bool
integer_implicitly bits m (integer bits' m') =
    if ltb bits' bits
    then false
    else if is_safe_uint m
    then is_safe_uint m'
    else if is_signed m
    then is_signed m'
    else not (is_signed m') || ltb bits bits'
integer_implicitly bits m (fixed_point bits' digits' m') =
    if is_safe_uint m
    then false
    else leb_ℤ (max_value bits m) (max_integer_value bits' digits' m')
      && leb_ℤ (min_integer_value bits' digits' m') (min_value bits m)
integer_implicitly bits m _ = false

abbrev pub fixed_point_implicitly : ℕ → ℕ → FixedModifier → ElementaryType → Bool
fixed_point_implicitly bits digits m (fixed_point bits' digits' m') =
    if ltb bits' bits || ltb digits' digits
    then false
    else leb_ℤ (max_integer_value bits digits m) (max_integer_value bits' digits' m')
      && leb_ℤ (min_integer_value bits' digits' m') (min_integer_value bits digits m)
fixed_point_implicitly bits digits m _ = false

abbrev pub address_implicitly : StateMutability → ElementaryType → Bool
address_implicitly m (address m') = mutability_leb m' m
address_implicitly m _ = false

abbrev pub fixed_bytes_implicitly : ℕ → ElementaryType → Bool
fixed_bytes_implicitly bytes (fixed_bytes bytes') = leb bytes bytes'
fixed_bytes_implicitly bytes _ = false

-- That of `BoolType` is the one of `Type`, which compares categories.
abbrev pub boolean_implicitly : ElementaryType → Bool
boolean_implicitly boolean = true
boolean_implicitly _ = false

unfoldable pub is_implicitly_convertible_to : ElementaryType → ElementaryType → Bool
is_implicitly_convertible_to (integer bits m) other = integer_implicitly bits m other
is_implicitly_convertible_to (fixed_point bits digits m) other =
    fixed_point_implicitly bits digits m other
is_implicitly_convertible_to (address m) other = address_implicitly m other
is_implicitly_convertible_to boolean other = boolean_implicitly other
is_implicitly_convertible_to (fixed_bytes bytes) other = fixed_bytes_implicitly bytes other

-- `isExplicitlyConvertibleTo`, of each class
abbrev pub integer_explicitly : ℕ → ElementaryType → Bool
integer_explicitly bits (integer bits' m') = true
integer_explicitly bits (address m') = true
integer_explicitly bits (fixed_bytes bytes') = bits == bytes' * 8
integer_explicitly bits (fixed_point bits' digits' m') = true
integer_explicitly bits boolean = false

abbrev pub fixed_point_explicitly : ElementaryType → Bool
fixed_point_explicitly (fixed_point bits' digits' m') = true
fixed_point_explicitly (integer bits' m') = true
fixed_point_explicitly _ = false

abbrev pub address_explicitly : StateMutability → ElementaryType → Bool
address_explicitly m (address m') = address_implicitly m (address m')
address_explicitly m (integer bits' m') = true
address_explicitly m (fixed_bytes bytes') = 160 == bytes' * 8
address_explicitly m _ = false

abbrev pub fixed_bytes_explicitly : ℕ → ElementaryType → Bool
fixed_bytes_explicitly bytes (integer bits' m') = bytes * 8 == bits'
fixed_bytes_explicitly bytes (address m') = bytes == 20
fixed_bytes_explicitly bytes (fixed_point bits' digits' m') = true
fixed_bytes_explicitly bytes (fixed_bytes bytes') = true
fixed_bytes_explicitly bytes boolean = false

unfoldable pub is_explicitly_convertible_to : ElementaryType → ElementaryType → Bool
is_explicitly_convertible_to (integer bits m) other = integer_explicitly bits other
is_explicitly_convertible_to (fixed_point bits digits m) other = fixed_point_explicitly other
is_explicitly_convertible_to (address m) other = address_explicitly m other
is_explicitly_convertible_to boolean other = boolean_implicitly other
is_explicitly_convertible_to (fixed_bytes bytes) other = fixed_bytes_explicitly bytes other

-- `Type::commonType`; each of these types is its own `mobileType()`.
unfoldable pub common_type : ElementaryType → ElementaryType → Option ElementaryType
common_type a b =
    if is_implicitly_convertible_to b a
    then some a
    else if is_implicitly_convertible_to a b
    then some b
    else none
