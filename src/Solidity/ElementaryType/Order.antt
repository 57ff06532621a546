-- ===== src/Solidity/ElementaryType/Order.antt =====
-- libsolidity/ast/Types.cpp: implicit conversions in a row.
use mathlib.Core.Bool.{false≢true}
use lity.Prelude.{
  ℕ, ◌≤◌, ◌≡◌, refl, Bool, true, false, ◌&&◌, ◌||◌, not, none, some, ltb, if◌then◌else◌, arith,
  Bool-cases, inl, inr, ◌⊎◌,
}
use lity.Prelude.Int.{ℤ, ◌≤ℤ◌}
use lity.Solidity.ElementaryType.{
  Modifier, unsigned, signed, safe_uint, FixedModifier, StateMutability, mutability_leb, payable,
  non_payable, ElementaryType, integer, fixed_point, address, boolean, fixed_bytes,
  is_constructible, is_signed, is_safe_uint, min_value, max_value, max_integer_value,
  min_integer_value,
}
use lity.Solidity.ElementaryType.Conversions.{leb_ℤ, is_implicitly_convertible_to, common_type}
use lity.Solidity.ElementaryType.Values.{le_trans_ℤ, integer-range, integer-fixed, fixed-fixed}

le→leb_ℤ : (a b : ℤ) → a ≤ℤ b → leb_ℤ a b ≡ true
le→leb_ℤ a b h = ground arith

-- The tests again, from what they find.
integer-fixed_intro :
    (bits bits' digits' : ℕ) (m : Modifier) (m' : FixedModifier)
    → is_safe_uint m ≡ false
    → max_value bits m ≤ℤ max_integer_value bits' digits' m'
    → min_integer_value bits' digits' m' ≤ℤ min_value bits m
    → is_implicitly_convertible_to (integer bits m) (fixed_point bits' digits' m') ≡ true
unfolding is_implicitly_convertible_to
integer-fixed_intro bits bits' digits' m m' safe upper lower =
    rw
      (
        safe,
        le→leb_ℤ (max_value bits m) (max_integer_value bits' digits' m') upper,
        le→leb_ℤ (min_integer_value bits' digits' m') (min_value bits m) lower,
      )
      refl

fixed-fixed_intro :
    (bits digits bits' digits' : ℕ) (m m' : FixedModifier)
    → bits ≤ bits'
    → digits ≤ digits'
    → max_integer_value bits digits m ≤ℤ max_integer_value bits' digits' m'
    → min_integer_value bits' digits' m' ≤ℤ min_integer_value bits digits m
    → is_implicitly_convertible_to (fixed_point bits digits m) (fixed_point bits' digits' m') ≡ true
unfolding is_implicitly_convertible_to
fixed-fixed_intro bits digits bits' digits' m m' wider longer upper lower =
    rw
      (
        not_lt bits' bits wider,
        not_lt digits' digits longer,
        le→leb_ℤ (max_integer_value bits digits m) (max_integer_value bits' digits' m') upper,
        le→leb_ℤ (min_integer_value bits' digits' m') (min_integer_value bits digits m) lower,
      )
      refl
  where
    not_lt : (a b : ℕ) → b ≤ a → ltb a b ≡ false
    not_lt a b h = ground arith

integer_self :
    (bits : ℕ) (m : Modifier)
    → is_implicitly_convertible_to (integer bits m) (integer bits m) ≡ true
unfolding is_implicitly_convertible_to
integer_self bits unsigned = ground arith
integer_self bits signed = ground arith
integer_self bits safe_uint = ground arith

integer_chain :
    (b b' b'' : ℕ) (m m' m'' : Modifier)
    → is_implicitly_convertible_to (integer b m) (integer b' m') ≡ true
    → is_implicitly_convertible_to (integer b' m') (integer b'' m'') ≡ true
    → is_implicitly_convertible_to (integer b m) (integer b'' m'') ≡ true
unfolding is_implicitly_convertible_to
integer_chain b b' b'' m m' m'' h k =
    chain b b' b'' (is_safe_uint m) (is_signed m) (is_safe_uint m') (is_signed m')
      (is_safe_uint m'') (is_signed m'') (exclusive m) (exclusive m') (exclusive m'') h k
  where
    exclusive : (m : Modifier) → (is_safe_uint m && is_signed m) ≡ false
    exclusive unsigned = refl
    exclusive signed = refl
    exclusive safe_uint = refl

    chain :
        (b b' b'' : ℕ) (s i s' i' s'' i'' : Bool)
        → (s && i) ≡ false
        → (s' && i') ≡ false
        → (s'' && i'') ≡ false
        → (if ltb b' b then false else if s then s' else if i then i' else (not i' || ltb b b'))
          ≡ true
        → (if ltb b'' b'
            then false
            else if s'
            then s''
            else if i'
            then i''
            else (not i'' || ltb b' b''))
          ≡ true
        → (if ltb b'' b
            then false
            else if s
            then s''
            else if i
            then i''
            else (not i'' || ltb b b''))
          ≡ true
    chain b b' b'' s i s' i' s'' i'' p q r h k = ground arith

address_self : (m : StateMutability) → is_implicitly_convertible_to (address m) (address m) ≡ true
unfolding is_implicitly_convertible_to
address_self payable = refl
address_self non_payable = refl

boolean_self : is_implicitly_convertible_to boolean boolean ≡ true
unfolding is_implicitly_convertible_to
boolean_self = refl

bytes_self : (n : ℕ) → is_implicitly_convertible_to (fixed_bytes n) (fixed_bytes n) ≡ true
unfolding is_implicitly_convertible_to
bytes_self n = ground arith

not_safe :
    (b b' : ℕ) (m m' : Modifier)
    → is_implicitly_convertible_to (integer b m) (integer b' m') ≡ true
    → is_safe_uint m' ≡ false
    → is_safe_uint m ≡ false
unfolding is_implicitly_convertible_to
not_safe b b' unsigned m' h k = refl
not_safe b b' signed m' h k = refl
not_safe b b' safe_uint m' h k = ground arith

-- Every type is converted to itself.
convertible_self : (a : ElementaryType) → is_implicitly_convertible_to a a ≡ true
convertible_self (integer n m) = integer_self n m
convertible_self (fixed_point n d m) =
    fixed-fixed_intro n d n d m m (omega arith) (omega arith) (omega arith) (omega arith)
convertible_self (address m) = address_self m
convertible_self boolean = boolean_self
convertible_self (fixed_bytes n) = bytes_self n

mutability_chain :
    (x y z : StateMutability)
    → mutability_leb x y ≡ true
    → mutability_leb y z ≡ true
    → mutability_leb x z ≡ true
mutability_chain non_payable y z h k = refl
mutability_chain payable non_payable z h k = absurd (false≢true h)
mutability_chain payable payable z h k = k

-- A conversion and a conversion after it make one conversion.
convertible_trans :
    (a b c : ElementaryType)
    → is_constructible a ≡ true
    → is_implicitly_convertible_to a b ≡ true
    → is_implicitly_convertible_to b c ≡ true
    → is_implicitly_convertible_to a c ≡ true
unfolding is_implicitly_convertible_to is_constructible
convertible_trans (integer n m) (integer n' m') (integer n'' m'') g h k =
    integer_chain n n' n'' m m' m'' h k
convertible_trans (integer n m) (integer n' m') (fixed_point n'' d'' m'') g h k =
    let (lower, upper) = integer-range n n' m m' (ground arith) h in
    let (safe, upper', lower') = integer-fixed n' n'' d'' m' m'' k in
    integer-fixed_intro n n'' d'' m m'' (not_safe n n' m m' h safe)
      (le_trans_ℤ (max_value n m) (max_value n' m') (max_integer_value n'' d'' m'') upper upper')
      (le_trans_ℤ (min_integer_value n'' d'' m'') (min_value n' m') (min_value n m) lower' lower)
convertible_trans (integer n m) (fixed_point n' d' m') (fixed_point n'' d'' m'') g h k =
    let (safe, upper, lower) = integer-fixed n n' d' m m' h in
    let (_, _, upper', lower') = fixed-fixed n' d' n'' d'' m' m'' k in
    integer-fixed_intro n n'' d'' m m'' safe
      (le_trans_ℤ (max_value n m) (max_integer_value n' d' m') (max_integer_value n'' d'' m'') upper
        upper')
      (le_trans_ℤ (min_integer_value n'' d'' m'') (min_integer_value n' d' m') (min_value n m)
        lower' lower)
convertible_trans (fixed_point n d m) (fixed_point n' d' m') (fixed_point n'' d'' m'') g h k =
    let (wider, longer, upper, lower) = fixed-fixed n d n' d' m m' h in
    let (wider', longer', upper', lower') = fixed-fixed n' d' n'' d'' m' m'' k in
    fixed-fixed_intro n d n'' d'' m m'' (omega arith) (omega arith)
      (le_trans_ℤ (max_integer_value n d m) (max_integer_value n' d' m')
        (max_integer_value n'' d'' m'') upper upper')
      (le_trans_ℤ (min_integer_value n'' d'' m'') (min_integer_value n' d' m')
        (min_integer_value n d m) lower' lower)
convertible_trans (address m) (address m') (address m'') g h k = mutability_chain m'' m' m k h
convertible_trans boolean boolean boolean g h k = refl
convertible_trans (fixed_bytes n) (fixed_bytes n') (fixed_bytes n'') g h k = ground arith
convertible_trans (integer n m) (address m') c g h k = absurd (false≢true h)
convertible_trans (integer n m) boolean c g h k = absurd (false≢true h)
convertible_trans (integer n m) (fixed_bytes n') c g h k = absurd (false≢true h)
convertible_trans (fixed_point n d m) (integer n' m') c g h k = absurd (false≢true h)
convertible_trans (fixed_point n d m) (address m') c g h k = absurd (false≢true h)
convertible_trans (fixed_point n d m) boolean c g h k = absurd (false≢true h)
convertible_trans (fixed_point n d m) (fixed_bytes n') c g h k = absurd (false≢true h)
convertible_trans (address m) (integer n' m') c g h k = absurd (false≢true h)
convertible_trans (address m) (fixed_point n' d' m') c g h k = absurd (false≢true h)
convertible_trans (address m) boolean c g h k = absurd (false≢true h)
convertible_trans (address m) (fixed_bytes n') c g h k = absurd (false≢true h)
convertible_trans boolean (integer n' m') c g h k = absurd (false≢true h)
convertible_trans boolean (fixed_point n' d' m') c g h k = absurd (false≢true h)
convertible_trans boolean (address m') c g h k = absurd (false≢true h)
convertible_trans boolean (fixed_bytes n') c g h k = absurd (false≢true h)
convertible_trans (fixed_bytes n) (integer n' m') c g h k = absurd (false≢true h)
convertible_trans (fixed_bytes n) (fixed_point n' d' m') c g h k = absurd (false≢true h)
convertible_trans (fixed_bytes n) (address m') c g h k = absurd (false≢true h)
convertible_trans (fixed_bytes n) boolean c g h k = absurd (false≢true h)
convertible_trans (integer n m) (integer n' m') (address m'') g h k = absurd (false≢true k)
convertible_trans (integer n m) (integer n' m') boolean g h k = absurd (false≢true k)
convertible_trans (integer n m) (integer n' m') (fixed_bytes n'') g h k = absurd (false≢true k)
convertible_trans (integer n m) (fixed_point n' d' m') (integer n'' m'') g h k =
    absurd (false≢true k)
convertible_trans (integer n m) (fixed_point n' d' m') (address m'') g h k = absurd (false≢true k)
convertible_trans (integer n m) (fixed_point n' d' m') boolean g h k = absurd (false≢true k)
convertible_trans (integer n m) (fixed_point n' d' m') (fixed_bytes n'') g h k =
    absurd (false≢true k)
convertible_trans (fixed_point n d m) (fixed_point n' d' m') (integer n'' m'') g h k =
    absurd (false≢true k)
convertible_trans (fixed_point n d m) (fixed_point n' d' m') (address m'') g h k =
    absurd (false≢true k)
convertible_trans (fixed_point n d m) (fixed_point n' d' m') boolean g h k = absurd (false≢true k)
convertible_trans (fixed_point n d m) (fixed_point n' d' m') (fixed_bytes n'') g h k =
    absurd (false≢true k)
convertible_trans (address m) (address m') (integer n'' m'') g h k = absurd (false≢true k)
convertible_trans (address m) (address m') (fixed_point n'' d'' m'') g h k = absurd (false≢true k)
convertible_trans (address m) (address m') boolean g h k = absurd (false≢true k)
convertible_trans (address m) (address m') (fixed_bytes n'') g h k = absurd (false≢true k)
convertible_trans boolean boolean (integer n'' m'') g h k = absurd (false≢true k)
convertible_trans boolean boolean (fixed_point n'' d'' m'') g h k = absurd (false≢true k)
convertible_trans boolean boolean (address m'') g h k = absurd (false≢true k)
convertible_trans boolean boolean (fixed_bytes n'') g h k = absurd (false≢true k)
convertible_trans (fixed_bytes n) (fixed_bytes n') (integer n'' m'') g h k = absurd (false≢true k)
convertible_trans (fixed_bytes n) (fixed_bytes n') (fixed_point n'' d'' m'') g h k =
    absurd (false≢true k)
convertible_trans (fixed_bytes n) (fixed_bytes n') (address m'') g h k = absurd (false≢true k)
convertible_trans (fixed_bytes n) (fixed_bytes n') boolean g h k = absurd (false≢true k)

-- Implicit conversion is a preorder on the types that there are.
pub is_implicitly_convertible_to-order :
    (a b c : ElementaryType)
    → is_constructible a ≡ true
    → is_implicitly_convertible_to a b ≡ true
    → is_implicitly_convertible_to b c ≡ true
    → (is_implicitly_convertible_to a c ≡ true) × (is_implicitly_convertible_to a a ≡ true)
is_implicitly_convertible_to-order a b c g h k = (convertible_trans a b c g h k, convertible_self a)

-- The common type of two types is one of them, to which both are converted, and there is none just if
-- neither is converted to the other.
pub common_type_cases :
    (a b : ElementaryType)
    → ((c : ElementaryType) × (common_type a b ≡ some c)
        × ((c ≡ a) ⊎ (c ≡ b))
        × (is_implicitly_convertible_to a c ≡ true)
        × (is_implicitly_convertible_to b c ≡ true))
      ⊎ ((common_type a b ≡ none)
          × (is_implicitly_convertible_to a b ≡ false)
          × (is_implicitly_convertible_to b a ≡ false))
unfolding common_type
common_type_cases a b = elim (Bool-cases (is_implicitly_convertible_to b a)) [
  | inl h ↦ inl (a, rw h refl, inl refl, convertible_self a, h)
  | inr h ↦ elim (Bool-cases (is_implicitly_convertible_to a b)) [
    | inl k ↦ inl (b, rw (h, k) refl, inr refl, k, convertible_self b)
    | inr k ↦ inr (rw (h, k) refl, k, h)
  ]
]
