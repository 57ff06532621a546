-- ===== src/Solidity/ElementaryType/Values.antt =====
-- libsolidity/ast/Types.cpp: implicit conversions keep integers.
use mathlib.Core.Bool.{false≢true}
use native.Mathlib.Nat.{div-eq_of_lt, pow-le-pow_right}
use lity.Prelude.{
  ℕ, ◌-◌, ◌/◌, ◌^◌, ◌≤◌, ◌<◌, ◌≡◌, refl, Bool, true, false, ◌&&◌, ◌||◌, ltb, if◌then◌else◌, arith,
}
use lity.Prelude.Int.{ℤ, pos, sub_ℕ, ◌≤ℤ◌}
use lity.Solidity.ElementaryType.{
  Modifier, unsigned, signed, safe_uint, FixedModifier, unsigned_fixed, signed_fixed,
  ElementaryType, integer, fixed_point, address, boolean, fixed_bytes, is_constructible,
  is_safe_uint, min_value, max_value, max_integer_value, min_integer_value,
}
use lity.Solidity.ElementaryType.Conversions.{leb_ℤ, is_implicitly_convertible_to}

-- The integers that a value of a numeric type can be.
unfoldable pub HasInteger : ElementaryType → ℤ → Type 0
HasInteger (integer bits m) v = (min_value bits m ≤ℤ v) × (v ≤ℤ max_value bits m)
HasInteger (fixed_point bits digits m) v =
    (min_integer_value bits digits m ≤ℤ v) × (v ≤ℤ max_integer_value bits digits m)
HasInteger _ v = ⊥

pub leb_ℤ→le : (a b : ℤ) → leb_ℤ a b ≡ true → a ≤ℤ b
leb_ℤ→le a b h = ground arith

pub le_trans_ℤ : (a b c : ℤ) → a ≤ℤ b → b ≤ℤ c → a ≤ℤ c
le_trans_ℤ a b c h k = omega arith

two_le : (i j : ℕ) → i ≤ j → 2 ^ i ≤ 2 ^ j
two_le i j h = pow-le-pow_right {n = 2} (omega arith) {i = i} {j = j} h

sub_ℕ_mono : (a b c d : ℕ) → a ≤ c → d ≤ b → sub_ℕ a b ≤ℤ sub_ℕ c d
sub_ℕ_mono a b c d h k = ground arith

sub_ℕ_pos : (a : ℕ) → 1 ≤ a → pos 0 ≤ℤ sub_ℕ a 1
sub_ℕ_pos a h = ground arith

-- A wider type of the same kind, or a signed type that is wider than the unsigned one.
pub integer-range :
    (bits bits' : ℕ) (m m' : Modifier)
    → 0 < bits
    → is_implicitly_convertible_to (integer bits m) (integer bits' m') ≡ true
    → (min_value bits' m' ≤ℤ min_value bits m) × (max_value bits m ≤ℤ max_value bits' m')
unfolding is_implicitly_convertible_to min_value max_value
integer-range bits bits' signed signed p h =
    let wider : bits ≤ bits' = ground arith in
    let two = two_le (bits - 1) (bits' - 1) (omega arith) in
    (
      sub_ℕ_mono 0 (2 ^ (bits' - 1)) 0 (2 ^ (bits - 1)) (omega arith) two,
      sub_ℕ_mono (2 ^ (bits - 1)) 1 (2 ^ (bits' - 1)) 1 two (omega arith),
    )
integer-range bits bits' unsigned signed p h =
    let wider : bits < bits' = ground arith in
    let two = two_le bits (bits' - 1) (omega arith) in
    (
      sub_ℕ_mono 0 (2 ^ (bits' - 1)) 0 0 (omega arith) (omega arith),
      sub_ℕ_mono (2 ^ bits) 1 (2 ^ (bits' - 1)) 1 two (omega arith),
    )
integer-range bits bits' unsigned unsigned p h =
    let wider : bits ≤ bits' = ground arith in
    (omega arith, sub_ℕ_mono (2 ^ bits) 1 (2 ^ bits') 1 (two_le bits bits' wider) (omega arith))
integer-range bits bits' unsigned safe_uint p h =
    let wider : bits ≤ bits' = ground arith in
    (omega arith, sub_ℕ_mono (2 ^ bits) 1 (2 ^ bits') 1 (two_le bits bits' wider) (omega arith))
integer-range bits bits' safe_uint safe_uint p h =
    let wider : bits ≤ bits' = ground arith in
    (omega arith, sub_ℕ_mono (2 ^ bits) 1 (2 ^ bits') 1 (two_le bits bits' wider) (omega arith))
integer-range bits bits' safe_uint unsigned p h = absurd (ground arith)
integer-range bits bits' safe_uint signed p h = absurd (ground arith)
integer-range bits bits' signed unsigned p h = absurd (ground arith)
integer-range bits bits' signed safe_uint p h = absurd (ground arith)

-- The tests on a fixed point type that is converted to.
pub integer-fixed :
    (bits bits' digits' : ℕ) (m : Modifier) (m' : FixedModifier)
    → is_implicitly_convertible_to (integer bits m) (fixed_point bits' digits' m') ≡ true
    → (is_safe_uint m ≡ false)
      × (max_value bits m ≤ℤ max_integer_value bits' digits' m')
      × (min_integer_value bits' digits' m' ≤ℤ min_value bits m)
unfolding is_implicitly_convertible_to
integer-fixed bits bits' digits' m m' h =
    split (is_safe_uint m) (max_value bits m) (max_integer_value bits' digits' m')
      (min_integer_value bits' digits' m') (min_value bits m) h
  where
    split :
        (safe : Bool) (a b c d : ℤ)
        → (if safe then false else (leb_ℤ a b && leb_ℤ c d)) ≡ true
        → (safe ≡ false) × (a ≤ℤ b) × (c ≤ℤ d)
    split true a b c d h = absurd (ground arith)
    split false a b c d h = (refl, leb_ℤ→le a b (ground arith), leb_ℤ→le c d (ground arith))

parts :
    (narrow x y : Bool)
    → (if narrow then false else (x && y)) ≡ true
    → (narrow ≡ false) × ((x ≡ true) × (y ≡ true))
parts narrow x y h = ground arith

pub fixed-fixed :
    (bits digits bits' digits' : ℕ) (m m' : FixedModifier)
    → is_implicitly_convertible_to (fixed_point bits digits m) (fixed_point bits' digits' m') ≡ true
    → (bits ≤ bits')
      × (digits ≤ digits')
      × (max_integer_value bits digits m ≤ℤ max_integer_value bits' digits' m')
      × (min_integer_value bits' digits' m' ≤ℤ min_integer_value bits digits m)
unfolding is_implicitly_convertible_to
fixed-fixed bits digits bits' digits' m m' h =
    split (max_integer_value bits digits m) (max_integer_value bits' digits' m')
      (min_integer_value bits' digits' m') (min_integer_value bits digits m) h
  where
    split :
        (a b c d : ℤ)
        → (if ltb bits' bits || ltb digits' digits then false else (leb_ℤ a b && leb_ℤ c d)) ≡ true
        → (bits ≤ bits') × (digits ≤ digits') × (a ≤ℤ b) × (c ≤ℤ d)
    split a b c d h =
        let (narrow, both) =
          parts (ltb bits' bits || ltb digits' digits) (leb_ℤ a b) (leb_ℤ c d) h in
        (ground arith, ground arith, leb_ℤ→le a b both.0, leb_ℤ→le c d both.1)

-- Where a type is converted to another implicitly, every integer that the one has, the other has too.
pub is_implicitly_convertible_to-HasInteger :
    (a b : ElementaryType) (v : ℤ)
    → is_constructible a ≡ true
    → is_implicitly_convertible_to a b ≡ true
    → HasInteger a v
    → HasInteger b v
unfolding HasInteger is_constructible is_implicitly_convertible_to
is_implicitly_convertible_to-HasInteger (integer bits m) (integer bits' m') v c h (lo, hi) =
    let (lower, upper) = integer-range bits bits' m m' (ground arith) h in
    (
      le_trans_ℤ (min_value bits' m') (min_value bits m) v lower lo,
      le_trans_ℤ v (max_value bits m) (max_value bits' m') hi upper,
    )
is_implicitly_convertible_to-HasInteger (integer bits m) (fixed_point bits' digits' m') v c h
      (lo, hi) =
    let (_, upper, lower) = integer-fixed bits bits' digits' m m' h in
    (
      le_trans_ℤ (min_integer_value bits' digits' m') (min_value bits m) v lower lo,
      le_trans_ℤ v (max_value bits m) (max_integer_value bits' digits' m') hi upper,
    )
is_implicitly_convertible_to-HasInteger (fixed_point bits digits m) (fixed_point bits' digits' m') v
      c h (lo, hi) =
    let (_, _, upper, lower) = fixed-fixed bits digits bits' digits' m m' h in
    (
      le_trans_ℤ (min_integer_value bits' digits' m') (min_integer_value bits digits m) v lower lo,
      le_trans_ℤ v (max_integer_value bits digits m) (max_integer_value bits' digits' m') hi upper,
    )
is_implicitly_convertible_to-HasInteger (integer bits m) (address m') v c h _ =
    absurd (false≢true h)
is_implicitly_convertible_to-HasInteger (integer bits m) boolean v c h _ = absurd (false≢true h)
is_implicitly_convertible_to-HasInteger (integer bits m) (fixed_bytes n) v c h _ =
    absurd (false≢true h)
is_implicitly_convertible_to-HasInteger (fixed_point bits digits m) (integer bits' m') v c h _ =
    absurd (false≢true h)
is_implicitly_convertible_to-HasInteger (fixed_point bits digits m) (address m') v c h _ =
    absurd (false≢true h)
is_implicitly_convertible_to-HasInteger (fixed_point bits digits m) boolean v c h _ =
    absurd (false≢true h)
is_implicitly_convertible_to-HasInteger (fixed_point bits digits m) (fixed_bytes n) v c h _ =
    absurd (false≢true h)
is_implicitly_convertible_to-HasInteger (address m) b v c h none_held = absurd none_held
is_implicitly_convertible_to-HasInteger boolean b v c h none_held = absurd none_held
is_implicitly_convertible_to-HasInteger (fixed_bytes n) b v c h none_held = absurd none_held

-- Where the least value of a signed fixed point type lies above -1, the type is converted implicitly
-- to the unsigned type of the same size, which has no place for its negative fractions.
pub signed_fixed-unsigned_fixed :
    (bits digits : ℕ)
    → 2 ^ (bits - 1) < 10 ^ digits
    → is_implicitly_convertible_to
        (fixed_point bits digits signed_fixed)
        (fixed_point bits digits unsigned_fixed)
      ≡ true
unfolding is_implicitly_convertible_to max_integer_value min_integer_value
signed_fixed-unsigned_fixed bits digits h =
    rw
      (
        div-eq_of_lt {n = 2 ^ (bits - 1)} {m = 10 ^ digits} h,
        div-eq_of_lt {n = 2 ^ (bits - 1) - 1} {m = 10 ^ digits} (omega arith),
      )
      (settled bits digits ((2 ^ (bits - 0) - 1) / 10 ^ digits))
  where
    settled :
        (bits digits n : ℕ)
        → (if ltb bits bits || ltb digits digits
            then false
            else (leb_ℤ (pos 0) (pos n) && leb_ℤ (pos 0) (sub_ℕ 0 0)))
          ≡ true
    settled bits digits n = ground arith
