-- ===== src/Prelude/Bits.antt =====
-- Laws of `bit_and`, `bit_or` and `bit_xor` at variables, from the digit recursion behind them.
pub mod Laws
use Prim.Native.Nat.{
  ℕ, zero, suc, ◌+◌, ◌*◌, ◌/◌, ◌%◌, ◌^◌, ◌≤◌, ◌<◌, min, max, bit_and, bit_or, bit_xor, digits,
  bit_and-bitwise, bit_or-bitwise, bit_xor-bitwise, differ,
}
use mathlib.Core.Path.{◌≡◌, refl, ap}
use native.Mathlib.Omega.{arith}
use native.Mathlib.Nat.{pow-suc}

-- An operation on digits whose result `z`, once the first number has run out, has the same digits.
module _ (z : ℕ → ℕ) (f : ℕ → ℕ → ℕ) (z_step : (b : ℕ) → z b ≡ z (b / 2) * 2 + f 0 (b % 2)) where
  run_out : (fuel b : ℕ) → digits z f fuel 0 b ≡ z b
  run_out zero b = refl
  run_out (suc fuel) b = refl

  -- The first number is fuel enough; k bounds the fuel.
  enough : (k fuel a b : ℕ) → fuel ≤ k → a ≤ fuel → digits z f fuel a b ≡ digits z f a a b
  enough k fuel zero b small h = run_out fuel b
  enough k zero (suc a) b small h = absurd (omega arith)
  enough zero (suc fuel) (suc a) b small h = absurd (omega arith)
  enough (suc k) (suc fuel) (suc a) b small h =
      let half = suc a / 2 in
      let less : half ≤ a = omega arith in
      omega (
        arith,
        enough k fuel half (b / 2) (omega arith) (omega arith),
        enough k a half (b / 2) (omega arith) less,
      )

  digits_step :
      (a b : ℕ) → digits z f a a b ≡ digits z f (a / 2) (a / 2) (b / 2) * 2 + f (a % 2) (b % 2)
  digits_step zero b = z_step b
  digits_step (suc a) b =
      let half = suc a / 2 in
      let less : half ≤ a = omega arith in omega (arith, enough a a half (b / 2) (omega arith) less)

pub bit_and_step : (x y : ℕ) → bit_and x y ≡ bit_and (x / 2) (y / 2) * 2 + min (x % 2) (y % 2)
bit_and_step x y = omega (
  arith,
  digits_step (λ b. zero) min (λ b. omega arith) x y,
  bit_and-bitwise x y,
  bit_and-bitwise (x / 2) (y / 2),
)

pub bit_or_step : (x y : ℕ) → bit_or x y ≡ bit_or (x / 2) (y / 2) * 2 + max (x % 2) (y % 2)
bit_or_step x y = omega (
  arith,
  digits_step (λ b. b) max (λ b. omega arith) x y,
  bit_or-bitwise x y,
  bit_or-bitwise (x / 2) (y / 2),
)

pub bit_xor_step : (x y : ℕ) → bit_xor x y ≡ bit_xor (x / 2) (y / 2) * 2 + differ (x % 2) (y % 2)
bit_xor_step x y = omega (
  arith,
  digits_step (λ b. b) differ (λ b. omega arith) x y,
  bit_xor-bitwise x y,
  bit_xor-bitwise (x / 2) (y / 2),
)

differ_comm : (x y : ℕ) → differ x y ≡ differ y x
differ_comm zero zero = refl
differ_comm zero (suc y) = refl
differ_comm (suc x) zero = refl
differ_comm (suc x) (suc y) = differ_comm x y

differ-le : (x y : ℕ) → differ x y ≤ max x y
differ-le zero y = omega arith
differ-le (suc x) zero = omega arith
differ-le (suc x) (suc y) = omega (arith, differ-le x y)

zero-bit_and : (b : ℕ) → bit_and 0 b ≡ 0
zero-bit_and b = bit_and-bitwise 0 b

-- `n` bounds the digits that are left.
bit_and_comm_below : (n a b : ℕ) → a ≤ n → b ≤ n → bit_and a b ≡ bit_and b a
bit_and_comm_below zero zero zero p q = refl
bit_and_comm_below zero (suc a) b p q = absurd (omega arith)
bit_and_comm_below zero zero (suc b) p q = absurd (omega arith)
bit_and_comm_below (suc n) a b p q = omega (
  arith,
  bit_and_step a b,
  bit_and_step b a,
  bit_and_comm_below n (a / 2) (b / 2) (omega arith) (omega arith),
)

pub bit_and_comm : (a b : ℕ) → bit_and a b ≡ bit_and b a
bit_and_comm a b = bit_and_comm_below (a + b) a b (omega arith) (omega arith)

bit_or_comm_below : (n a b : ℕ) → a ≤ n → b ≤ n → bit_or a b ≡ bit_or b a
bit_or_comm_below zero zero zero p q = refl
bit_or_comm_below zero (suc a) b p q = absurd (omega arith)
bit_or_comm_below zero zero (suc b) p q = absurd (omega arith)
bit_or_comm_below (suc n) a b p q = omega (
  arith,
  bit_or_step a b,
  bit_or_step b a,
  bit_or_comm_below n (a / 2) (b / 2) (omega arith) (omega arith),
)

pub bit_or_comm : (a b : ℕ) → bit_or a b ≡ bit_or b a
bit_or_comm a b = bit_or_comm_below (a + b) a b (omega arith) (omega arith)

bit_xor_comm_below : (n a b : ℕ) → a ≤ n → b ≤ n → bit_xor a b ≡ bit_xor b a
bit_xor_comm_below zero zero zero p q = refl
bit_xor_comm_below zero (suc a) b p q = absurd (omega arith)
bit_xor_comm_below zero zero (suc b) p q = absurd (omega arith)
bit_xor_comm_below (suc n) a b p q = omega (
  arith,
  bit_xor_step a b,
  bit_xor_step b a,
  differ_comm (a % 2) (b % 2),
  bit_xor_comm_below n (a / 2) (b / 2) (omega arith) (omega arith),
)

pub bit_xor_comm : (a b : ℕ) → bit_xor a b ≡ bit_xor b a
bit_xor_comm a b = bit_xor_comm_below (a + b) a b (omega arith) (omega arith)

-- 2 ^ k - 1, the number of k ones.
unfoldable pub ones : ℕ → ℕ
ones zero = 0
ones (suc k) = ones k * 2 + 1

-- A number of at most k digits is kept by a mask whose lowest k digits are ones.
pub bit_and-mask : (k a c : ℕ) → bit_and c (ones k) ≡ ones k → a ≤ ones k → bit_and a c ≡ a
unfolding ones
bit_and-mask zero zero c h p = zero-bit_and c
bit_and-mask zero (suc a) c h p = absurd (omega arith)
bit_and-mask (suc k) a c h p =
    let e : (ones k * 2 + 1) / 2 ≡ ones k = omega arith in
    let s : bit_and c (ones k * 2 + 1)
        ≡ bit_and (c / 2) ((ones k * 2 + 1) / 2) * 2 + min (c % 2) ((ones k * 2 + 1) % 2) =
      bit_and_step c (ones k * 2 + 1) in
    let s' : bit_and c (ones k * 2 + 1)
        ≡ bit_and (c / 2) (ones k) * 2 + min (c % 2) ((ones k * 2 + 1) % 2) =
      rw e at s in
    omega (arith, bit_and_step a c, bit_and-mask k (a / 2) (c / 2) (omega arith) (omega arith))

pub bit_and-le : (k a b : ℕ) → a ≤ ones k → bit_and a b ≤ ones k
unfolding ones
bit_and-le zero zero b p = omega (arith, zero-bit_and b)
bit_and-le zero (suc a) b p = absurd (omega arith)
bit_and-le (suc k) a b p =
    omega (arith, bit_and_step a b, bit_and-le k (a / 2) (b / 2) (omega arith))

pub bit_or-le : (k a b : ℕ) → a ≤ ones k → b ≤ ones k → bit_or a b ≤ ones k
unfolding ones
bit_or-le zero zero zero p q = omega arith
bit_or-le zero (suc a) b p q = absurd (omega arith)
bit_or-le zero zero (suc b) p q = absurd (omega arith)
bit_or-le (suc k) a b p q =
    omega (arith, bit_or_step a b, bit_or-le k (a / 2) (b / 2) (omega arith) (omega arith))

pub bit_xor-le : (k a b : ℕ) → a ≤ ones k → b ≤ ones k → bit_xor a b ≤ ones k
unfolding ones
bit_xor-le zero zero zero p q = omega arith
bit_xor-le zero (suc a) b p q = absurd (omega arith)
bit_xor-le zero zero (suc b) p q = absurd (omega arith)
bit_xor-le (suc k) a b p q = omega (
  arith,
  bit_xor_step a b,
  differ-le (a % 2) (b % 2),
  bit_xor-le k (a / 2) (b / 2) (omega arith) (omega arith),
)

-- Digits below the k-th are free in a number shifted by k places.
pub bit_or-shift : (k a b : ℕ) → a < 2 ^ k → bit_or a (b * 2 ^ k) ≡ a + b * 2 ^ k
bit_or-shift zero zero b h = omega (arith, bit_or-bitwise 0 (b * 2 ^ 0))
bit_or-shift zero (suc a) b h = absurd (omega arith)
bit_or-shift (suc k) a b h =
    let q : b * 2 ^ suc k ≡ b * (2 ^ k * 2) = ap (λ (t : ℕ). b * t) (pow-suc 2 k) in
    let half : b * 2 ^ suc k / 2 ≡ b * 2 ^ k = omega arith in
    let s : bit_or a (b * 2 ^ suc k)
        ≡ bit_or (a / 2) (b * 2 ^ suc k / 2) * 2 + max (a % 2) (b * 2 ^ suc k % 2) =
      bit_or_step a (b * 2 ^ suc k) in
    let s' : bit_or a (b * 2 ^ suc k)
        ≡ bit_or (a / 2) (b * 2 ^ k) * 2 + max (a % 2) (b * 2 ^ suc k % 2) =
      rw half at s in
    omega (arith, bit_or-shift k (a / 2) b (omega (arith, pow-suc 2 k)))
