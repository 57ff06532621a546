-- ===== src/Solidity/ElementaryType/Results.antt =====
-- libsolidity/ast/Types.cpp: the types of the results of binary operators, and explicit conversions.
use mathlib.Core.Bool.{false≢true}
use mathlib.Core.Option.{some-injective}
use lity.Prelude.{
  ◌≡◌, ◌⊎◌, inl, inr, refl, sym, subst, ◌∙◌, Bool, true, false, ◌||◌, not, Option, none, some, ◌==◌,
  if◌then◌else◌, arith,
}
use lity.Solidity.Token.{
  Token, exp, equal, not_equal, and_op, or_op, is_shift_op, is_compare_op, is_boolean_op, is_bit_op,
}
use lity.Solidity.ElementaryType.{
  ElementaryType, integer, fixed_point, address, boolean, fixed_bytes,
}
use lity.Solidity.ElementaryType.Conversions.{
  is_implicitly_convertible_to, is_explicitly_convertible_to, common_type,
}
use lity.Solidity.ElementaryType.Operators.{
  is_numeric, is_boolean, is_exp_refused, integer_result, fixed_point_result, fixed_bytes_result,
  is_valid_shift_and_amount_type, binary_operator_result,
}
use lity.Solidity.ElementaryType.Order.{common_type_cases}

-- A type that a test lets through is the type that was there.
through :
    {t c : ElementaryType} (b : Bool)
    → (if b then some t else none) ≡ some c
    → Path (Option ElementaryType) (some t) (some c)
through true h = h
through false h = absurd (ground arith)

integer_result-some :
    (op : Token) (o : Option ElementaryType) (c : ElementaryType)
    → integer_result op o ≡ some c
    → o ≡ some c
unfolding integer_result
integer_result-some op none c h = h
integer_result-some op (some t) c h =
    either (is_compare_op op) (is_boolean_op op) (is_exp_refused op t) h
  where
    either :
        {t c : ElementaryType} (x y z : Bool)
        → (if x then some t else if y then none else if z then none else some t) ≡ some c
        → Path (Option ElementaryType) (some t) (some c)
    either true y z h = h
    either false true z h = absurd (ground arith)
    either false false true h = absurd (ground arith)
    either false false false h = h

fixed_point_result-some :
    (op : Token) (o : Option ElementaryType) (c : ElementaryType)
    → fixed_point_result op o ≡ some c
    → o ≡ some c
unfolding fixed_point_result
fixed_point_result-some op none c h = h
fixed_point_result-some op (some t) c h =
    either (is_compare_op op) (is_bit_op op || (is_boolean_op op || (op == exp))) h
  where
    either :
        {t c : ElementaryType} (x y : Bool)
        → (if x then some t else if y then none else some t) ≡ some c
        → Path (Option ElementaryType) (some t) (some c)
    either true y h = h
    either false true h = absurd (ground arith)
    either false false h = h

fixed_bytes_result-some :
    (op : Token) (o : Option ElementaryType) (c : ElementaryType)
    → fixed_bytes_result op o ≡ some c
    → o ≡ some c
unfolding fixed_bytes_result
fixed_bytes_result-some op none c h = h
fixed_bytes_result-some op (some (fixed_bytes n)) c h = through (is_compare_op op || is_bit_op op) h
fixed_bytes_result-some op (some (integer n m)) c h = absurd (ground arith)
fixed_bytes_result-some op (some (fixed_point n d m)) c h = absurd (ground arith)
fixed_bytes_result-some op (some (address m)) c h = absurd (ground arith)
fixed_bytes_result-some op (some boolean) c h = absurd (ground arith)

-- Both operands are converted to the result.
abbrev Common : ElementaryType → ElementaryType → ElementaryType → Type 0
Common a b c = (is_implicitly_convertible_to a c ≡ true) × (is_implicitly_convertible_to b c ≡ true)

abbrev Shifted : Token → ElementaryType → ElementaryType → ElementaryType → Type 0
Shifted op a b c = (is_shift_op op ≡ true) × (is_valid_shift_and_amount_type op b ≡ true) × (c ≡ a)

common_type-Common : (a b c : ElementaryType) → common_type a b ≡ some c → Common a b c
common_type-Common a b c h = elim (common_type_cases a b) [
  | inr (e, _, _) ↦ absurd (none_some (sym e ∙ h))
  | inl (t, e, _, l, r) ↦ subst (Common a b) (some-injective _ _ (sym e ∙ h)) (l, r)
]
  where
    none_some : {t : ElementaryType} → ¬ (none ≡ some t)
    none_some e = absurd (ground arith)

shift_cases :
    {a c : ElementaryType} {o : Option ElementaryType} (x y : Bool)
    → (if x then (if y then some a else none) else o) ≡ some c
    → ((x ≡ true) × (y ≡ true) × (c ≡ a)) ⊎ (o ≡ some c)
shift_cases true true h = inl (refl, refl, sym (some-injective _ _ h))
shift_cases true false h = absurd (ground arith)
shift_cases false y h = inr h

shifted :
    (op : Token) (a b c : ElementaryType) (o : Option ElementaryType)
    → (o ≡ some c → Common a b c)
    → (if is_shift_op op then (if is_valid_shift_and_amount_type op b then some a else none) else o)
      ≡ some c
    → Shifted op a b c ⊎ Common a b c
shifted op a b c o k h =
    elim (shift_cases (is_shift_op op) (is_valid_shift_and_amount_type op b) h) [
      | inl s ↦ inl s
      | inr e ↦ inr (k e)
    ]

-- If a test lets nothing through, it has not been met.
guarded :
    {o : Option ElementaryType} {c : ElementaryType} (b : Bool)
    → (if b then none else o) ≡ some c
    → (b ≡ false) × (o ≡ some c)
guarded true h = absurd (ground arith)
guarded false h = (refl, h)

boolean_common : (other : ElementaryType) → is_boolean other ≡ true → Common boolean other other
unfolding is_implicitly_convertible_to
boolean_common boolean h = (refl, refl)
boolean_common (integer n m) h = absurd (false≢true h)
boolean_common (fixed_point n d m) h = absurd (false≢true h)
boolean_common (address m) h = absurd (false≢true h)
boolean_common (fixed_bytes n) h = absurd (false≢true h)

-- When a binary operator has a result type, it is that of the first operand, for a shift whose amount
-- has a type that shifts allow, or else a type to which both operands are converted implicitly.
pub binary_operator_result-type :
    (op : Token) (a b c : ElementaryType)
    → binary_operator_result op a b ≡ some c
    → ((is_shift_op op ≡ true) × (is_valid_shift_and_amount_type op b ≡ true) × (c ≡ a))
      ⊎ ((is_implicitly_convertible_to a c ≡ true) × (is_implicitly_convertible_to b c ≡ true))
unfolding binary_operator_result
binary_operator_result-type op (integer n m) b c h =
    let (_, h') = guarded (not (is_numeric b)) h in
    shifted op (integer n m) b c (integer_result op (common_type (integer n m) b))
      (λ e.
        common_type-Common (integer n m) b c
          (integer_result-some op (common_type (integer n m) b) c e))
      h'
binary_operator_result-type op (fixed_point n d m) b c h = inr (
    common_type-Common (fixed_point n d m) b c
      (fixed_point_result-some op (common_type (fixed_point n d m) b) c h))
binary_operator_result-type op (address m) b c h =
    let (_, h') = guarded (not (is_compare_op op)) h in inr (common_type-Common (address m) b c h')
binary_operator_result-type op boolean b c h =
    let (is_bool, h') = guarded (not (is_boolean b)) h in
    let same : b ≡ c =
      some-injective _ _
        (through ((op == equal) || ((op == not_equal) || ((op == and_op) || (op == or_op)))) h') in
    inr (subst (Common boolean b) same (boolean_common b (not_not (is_boolean b) is_bool)))
  where
    not_not : (b : Bool) → not b ≡ false → b ≡ true
    not_not true h = refl
    not_not false h = absurd (false≢true (sym h))
binary_operator_result-type op (fixed_bytes n) b c h =
    shifted op (fixed_bytes n) b c (fixed_bytes_result op (common_type (fixed_bytes n) b))
      (λ e.
        common_type-Common (fixed_bytes n) b c
          (fixed_bytes_result-some op (common_type (fixed_bytes n) b) c e))
      h

-- What is converted implicitly may be converted explicitly too.
pub is_implicitly-explicitly :
    (a b : ElementaryType)
    → is_implicitly_convertible_to a b ≡ true
    → is_explicitly_convertible_to a b ≡ true
unfolding is_implicitly_convertible_to is_explicitly_convertible_to
is_implicitly-explicitly (integer n m) (integer n' m') h = refl
is_implicitly-explicitly (integer n m) (fixed_point n' d' m') h = refl
is_implicitly-explicitly (integer n m) (address m') h = absurd (false≢true h)
is_implicitly-explicitly (integer n m) boolean h = absurd (false≢true h)
is_implicitly-explicitly (integer n m) (fixed_bytes n') h = absurd (false≢true h)
is_implicitly-explicitly (fixed_point n d m) (integer n' m') h = absurd (false≢true h)
is_implicitly-explicitly (fixed_point n d m) (fixed_point n' d' m') h = refl
is_implicitly-explicitly (fixed_point n d m) (address m') h = absurd (false≢true h)
is_implicitly-explicitly (fixed_point n d m) boolean h = absurd (false≢true h)
is_implicitly-explicitly (fixed_point n d m) (fixed_bytes n') h = absurd (false≢true h)
is_implicitly-explicitly (address m) (integer n' m') h = absurd (false≢true h)
is_implicitly-explicitly (address m) (fixed_point n' d' m') h = absurd (false≢true h)
is_implicitly-explicitly (address m) (address m') h = h
is_implicitly-explicitly (address m) boolean h = absurd (false≢true h)
is_implicitly-explicitly (address m) (fixed_bytes n') h = absurd (false≢true h)
is_implicitly-explicitly boolean (integer n' m') h = absurd (false≢true h)
is_implicitly-explicitly boolean (fixed_point n' d' m') h = absurd (false≢true h)
is_implicitly-explicitly boolean (address m') h = absurd (false≢true h)
is_implicitly-explicitly boolean boolean h = refl
is_implicitly-explicitly boolean (fixed_bytes n') h = absurd (false≢true h)
is_implicitly-explicitly (fixed_bytes n) (integer n' m') h = absurd (false≢true h)
is_implicitly-explicitly (fixed_bytes n) (fixed_point n' d' m') h = absurd (false≢true h)
is_implicitly-explicitly (fixed_bytes n) (address m') h = absurd (false≢true h)
is_implicitly-explicitly (fixed_bytes n) boolean h = absurd (false≢true h)
is_implicitly-explicitly (fixed_bytes n) (fixed_bytes n') h = refl
