-- ===== src/Solidity/Token.antt =====
-- libsolidity/parsing/Token.h and .cpp: the tokens, as their numbers in the enumeration, and what is
-- asked of them.
pub mod Operators
use lity.Prelude.{
  ℕ, ◌+◌, ◌-◌, Bool, true, false, ◌&&◌, ◌||◌, not, List, [], ◌∷◌, get_or, ltb, leb, ◌==◌, Result,
  ok, err, ◌>>◌, assert_throw, internal_compiler_error,
}

-- `enum class Token`
abbrev pub Token : Type 0
Token = ℕ

abbrev pub conditional : Token
conditional = 10

abbrev pub assign : Token
assign = 12

abbrev pub assign_bit_or : Token
assign_bit_or = 13

abbrev pub assign_mod : Token
assign_mod = 23

abbrev pub comma : Token
comma = 24

abbrev pub or_op : Token
or_op = 25

abbrev pub and_op : Token
and_op = 26

abbrev pub bit_or : Token
bit_or = 27

abbrev pub bit_and : Token
bit_and = 29

abbrev pub shl : Token
shl = 30

abbrev pub sar : Token
sar = 31

abbrev pub shr : Token
shr = 32

abbrev pub add : Token
add = 33

abbrev pub sub : Token
sub = 34

abbrev pub mul : Token
mul = 35

abbrev pub exp : Token
exp = 38

abbrev pub equal : Token
equal = 39

abbrev pub not_equal : Token
not_equal = 40

abbrev pub greater_than_or_equal : Token
greater_than_or_equal = 44

abbrev pub not_op : Token
not_op = 45

abbrev pub bit_not : Token
bit_not = 46

abbrev pub inc : Token
inc = 47

abbrev pub dec : Token
dec = 48

abbrev pub fact_delete : Token
fact_delete = 50

abbrev pub delete_op : Token
delete_op = 52

abbrev pub bit_xor : Token
bit_xor = 28

-- `NUM_TOKENS`
abbrev pub num_tokens : ℕ
num_tokens = 176

-- The precedences of `TOKEN_LIST`; those of the tokens behind the comparisons are all 0.
unfoldable pub precedences : List ℕ
precedences =
    0 ∷ 0 ∷ 0 ∷ 0 ∷ 0 ∷ 0 ∷ 0 ∷ 0 ∷ 0 ∷ 0 ∷ 3 ∷ 0 ∷ 2 ∷ 2 ∷ 2 ∷ 2 ∷ 2 ∷ 2 ∷ 2 ∷ 2 ∷ 2 ∷ 2 ∷ 2 ∷ 2
    ∷ 1 ∷ 4 ∷ 5 ∷ 8 ∷ 9 ∷ 10 ∷ 11 ∷ 11 ∷ 11 ∷ 12 ∷ 12 ∷ 13 ∷ 13 ∷ 13 ∷ 14 ∷ 6 ∷ 6 ∷ 7 ∷ 7 ∷ 7 ∷ 7
    ∷ []

-- `precedence`
unfoldable pub precedence : Token → ℕ
precedence token = get_or precedences token 0

unfoldable pub is_assignment_op : Token → Bool
is_assignment_op op = leb assign op && leb op assign_mod

unfoldable pub is_binary_op : Token → Bool
is_binary_op op = leb comma op && leb op exp

unfoldable pub is_commutative_op : Token → Bool
is_commutative_op op =
    (op == bit_or)
    || ((op == bit_xor)
        || ((op == bit_and)
            || ((op == add) || ((op == mul) || ((op == equal) || (op == not_equal))))))

unfoldable pub is_arithmetic_op : Token → Bool
is_arithmetic_op op = leb add op && leb op exp

unfoldable pub is_compare_op : Token → Bool
is_compare_op op = leb equal op && leb op greater_than_or_equal

unfoldable pub is_bit_op : Token → Bool
is_bit_op op = (leb bit_or op && leb op bit_and) || (op == bit_not)

unfoldable pub is_boolean_op : Token → Bool
is_boolean_op op = (leb or_op op && leb op and_op) || (op == not_op)

unfoldable pub is_unary_op : Token → Bool
is_unary_op op = (leb not_op op && leb op delete_op) || ((op == add) || (op == sub))

unfoldable pub is_count_op : Token → Bool
is_count_op op = (op == inc) || (op == dec)

unfoldable pub is_shift_op : Token → Bool
is_shift_op op = leb shl op && leb op shr

-- `AssignmentToBinaryOp`, with its assertion
unfoldable pub assignment_to_binary_op : Token → Result Token
assignment_to_binary_op op = do
  assert_throw (is_assignment_op op && not (op == assign)) internal_compiler_error
  ok (op + (bit_or - assign_bit_or))
