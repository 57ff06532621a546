-- ===== src/Solidity/ElementaryType/Operators.antt =====
-- libsolidity/ast/Types.cpp: the types of the results of operators on elementary types.
use lity.Prelude.{ℕ, Bool, true, false, ◌&&◌, ◌||◌, not, Option, none, some, ◌==◌, if◌then◌else◌}
use lity.Solidity.Token.{
  Token, add, sub, inc, dec, bit_not, delete_op, fact_delete, not_op, equal, not_equal, and_op,
  or_op, exp, shr, is_shift_op, is_compare_op, is_boolean_op, is_bit_op,
}
use lity.Solidity.ElementaryType.{
  Modifier, ElementaryType, integer, fixed_point, address, boolean, fixed_bytes, is_signed,
}
use lity.Solidity.ElementaryType.Conversions.{common_type}

-- `isValidShiftAndAmountType`
unfoldable pub is_valid_shift_and_amount_type : Token → ElementaryType → Bool
is_valid_shift_and_amount_type op (integer bits m) = if op == shr then false else true
is_valid_shift_and_amount_type op _ = false

-- What `unaryOperatorResult` returns: no type, the empty tuple, or the operand's type.
pub data UnaryResult : Type 0 where
  no_type empty_tuple operand_type : UnaryResult

-- `unaryOperatorResult`, of each class
abbrev pub integer_unary : Token → ℕ → Modifier → UnaryResult
integer_unary op bits m =
    if op == delete_op
    then empty_tuple
    else if (op == add) || ((op == sub) || ((op == inc) || ((op == dec) || (op == bit_not))))
    then operand_type
    else if (op == fact_delete) && ((bits == 256) && not (is_signed m))
    then empty_tuple
    else no_type

abbrev pub fixed_point_unary : Token → UnaryResult
fixed_point_unary op =
    if op == delete_op
    then empty_tuple
    else if (op == add) || ((op == sub) || ((op == inc) || (op == dec)))
    then operand_type
    else no_type

abbrev pub address_unary : Token → UnaryResult
address_unary op = if op == delete_op then empty_tuple else no_type

abbrev pub boolean_unary : Token → UnaryResult
boolean_unary op =
    if op == delete_op then empty_tuple else if op == not_op then operand_type else no_type

abbrev pub fixed_bytes_unary : Token → UnaryResult
fixed_bytes_unary op =
    if op == delete_op then empty_tuple else if op == bit_not then operand_type else no_type

unfoldable pub unary_operator_result : Token → ElementaryType → UnaryResult
unary_operator_result op (integer bits m) = integer_unary op bits m
unary_operator_result op (fixed_point bits digits m) = fixed_point_unary op
unary_operator_result op (address m) = address_unary op
unary_operator_result op boolean = boolean_unary op
unary_operator_result op (fixed_bytes bytes) = fixed_bytes_unary op

-- `Token::Exp` is not there for a common type that is signed or not an integer.
unfoldable pub is_exp_refused : Token → ElementaryType → Bool
is_exp_refused op (integer bits m) = (exp == op) && is_signed m
is_exp_refused op (fixed_point bits digits m) = exp == op
is_exp_refused op _ = false

-- What integers do with their common type; it may be a fixed point type.
unfoldable pub integer_result : Token → Option ElementaryType → Option ElementaryType
integer_result op none = none
integer_result op (some t) =
    if is_compare_op op
    then some t
    else if is_boolean_op op
    then none
    else if is_exp_refused op t
    then none
    else some t

unfoldable pub fixed_point_result : Token → Option ElementaryType → Option ElementaryType
fixed_point_result op none = none
fixed_point_result op (some t) =
    if is_compare_op op
    then some t
    else if is_bit_op op || (is_boolean_op op || (op == exp))
    then none
    else some t

-- The common type is asked to be one of `FixedBytesType`.
unfoldable pub fixed_bytes_result : Token → Option ElementaryType → Option ElementaryType
fixed_bytes_result op none = none
fixed_bytes_result op (some (fixed_bytes bytes)) =
    if is_compare_op op || is_bit_op op then some (fixed_bytes bytes) else none
fixed_bytes_result op (some _) = none

abbrev pub is_numeric : ElementaryType → Bool
is_numeric (integer bits m) = true
is_numeric (fixed_point bits digits m) = true
is_numeric _ = false

abbrev pub is_boolean : ElementaryType → Bool
is_boolean boolean = true
is_boolean _ = false

-- `binaryOperatorResult`, of each class
abbrev pub integer_binary : Token → ElementaryType → ElementaryType → Option ElementaryType
integer_binary op self other =
    if not (is_numeric other)
    then none
    else if is_shift_op op
    then (if is_valid_shift_and_amount_type op other then some self else none)
    else integer_result op (common_type self other)

abbrev pub fixed_point_binary : Token → ElementaryType → ElementaryType → Option ElementaryType
fixed_point_binary op self other = fixed_point_result op (common_type self other)

abbrev pub address_binary : Token → ElementaryType → ElementaryType → Option ElementaryType
address_binary op self other = if not (is_compare_op op) then none else common_type self other

abbrev pub boolean_binary : Token → ElementaryType → Option ElementaryType
boolean_binary op other =
    if not (is_boolean other)
    then none
    else if (op == equal) || ((op == not_equal) || ((op == and_op) || (op == or_op)))
    then some other
    else none

abbrev pub fixed_bytes_binary : Token → ElementaryType → ElementaryType → Option ElementaryType
fixed_bytes_binary op self other =
    if is_shift_op op
    then (if is_valid_shift_and_amount_type op other then some self else none)
    else fixed_bytes_result op (common_type self other)

unfoldable pub binary_operator_result :
    Token → ElementaryType → ElementaryType → Option ElementaryType
binary_operator_result op (integer bits m) other = integer_binary op (integer bits m) other
binary_operator_result op (fixed_point bits digits m) other =
    fixed_point_binary op (fixed_point bits digits m) other
binary_operator_result op (address m) other = address_binary op (address m) other
binary_operator_result op boolean other = boolean_binary op other
binary_operator_result op (fixed_bytes bytes) other =
    fixed_bytes_binary op (fixed_bytes bytes) other
