-- ===== src/Prelude/Bits/Laws.antt =====
-- Laws of the bitwise operations: two numbers with the same bits are equal.
use Prim.Native.Nat.{
  ℕ, zero, suc, ◌+◌, ◌-◌, ◌*◌, ◌/◌, ◌%◌, ◌^◌, ◌≤◌, ◌<◌, min, max, bit_and, bit_or, bit_xor, differ,
}
use mathlib.Core.Path.{◌≡◌, refl, ap, ◌∙◌}
use native.Mathlib.Omega.{arith}
use native.Mathlib.Nat.{pow-suc, add-mul-mod_self_right, mod-eq_of_lt, mod-lt, mod-add-div'}
use lity.Prelude.Bits.{bit_and_step, bit_or_step, bit_xor_step, ones}

-- The bit of weight 2 ^ k.
unfoldable bit : ℕ → ℕ → ℕ
bit zero a = a % 2
bit (suc k) a = bit k (a / 2)

bit-lt : (k a : ℕ) → bit k a < 2
unfolding bit
bit-lt zero a = omega arith
bit-lt (suc k) a = bit-lt k (a / 2)

equal_below : (n a b : ℕ) → a ≤ n → b ≤ n → ((k : ℕ) → bit k a ≡ bit k b) → a ≡ b
unfolding bit
equal_below zero zero zero p q h = refl
equal_below zero (suc a) b p q h = absurd (omega arith)
equal_below zero zero (suc b) p q h = absurd (omega arith)
equal_below (suc n) a b p q h =
    omega (arith, h 0, equal_below n (a / 2) (b / 2) (omega arith) (omega arith) (λ k. h (suc k)))

equal_bits : (a b : ℕ) → ((k : ℕ) → bit k a ≡ bit k b) → a ≡ b
equal_bits a b h = equal_below (a + b) a b (omega arith) (omega arith) h

bit-bit_and : (k a b : ℕ) → bit k (bit_and a b) ≡ min (bit k a) (bit k b)
unfolding bit
bit-bit_and zero a b = omega (arith, bit_and_step a b)
bit-bit_and (suc k) a b =
    let half : bit_and a b / 2 ≡ bit_and (a / 2) (b / 2) = omega (arith, bit_and_step a b) in
    ap (bit k) half ∙ bit-bit_and k (a / 2) (b / 2)

bit-bit_or : (k a b : ℕ) → bit k (bit_or a b) ≡ max (bit k a) (bit k b)
unfolding bit
bit-bit_or zero a b = omega (arith, bit_or_step a b)
bit-bit_or (suc k) a b =
    let half : bit_or a b / 2 ≡ bit_or (a / 2) (b / 2) = omega (arith, bit_or_step a b) in
    ap (bit k) half ∙ bit-bit_or k (a / 2) (b / 2)

differ-mod : (x y : ℕ) → x < 2 → y < 2 → differ x y ≡ (x + y) % 2
differ-mod zero zero p q = refl
differ-mod zero (suc zero) p q = refl
differ-mod (suc zero) zero p q = refl
differ-mod (suc zero) (suc zero) p q = refl
differ-mod (suc (suc x)) y p q = absurd (omega arith)
differ-mod x (suc (suc y)) p q = absurd (omega arith)

bit-bit_xor : (k a b : ℕ) → bit k (bit_xor a b) ≡ (bit k a + bit k b) % 2
unfolding bit
bit-bit_xor zero a b =
    omega (arith, bit_xor_step a b, differ-mod (a % 2) (b % 2) (omega arith) (omega arith))
bit-bit_xor (suc k) a b =
    let half : bit_xor a b / 2 ≡ bit_xor (a / 2) (b / 2) =
      omega (arith, bit_xor_step a b, differ-mod (a % 2) (b % 2) (omega arith) (omega arith)) in
    ap (bit k) half ∙ bit-bit_xor k (a / 2) (b / 2)

bit-zero : (k : ℕ) → bit k 0 ≡ 0
unfolding bit
bit-zero zero = refl
bit-zero (suc k) = bit-zero k

pub bit_and_assoc : (a b c : ℕ) → bit_and (bit_and a b) c ≡ bit_and a (bit_and b c)
bit_and_assoc a b c = equal_bits _ _ λ k. omega (
  arith,
  bit-bit_and k (bit_and a b) c,
  bit-bit_and k a b,
  bit-bit_and k a (bit_and b c),
  bit-bit_and k b c,
)

pub bit_or_assoc : (a b c : ℕ) → bit_or (bit_or a b) c ≡ bit_or a (bit_or b c)
bit_or_assoc a b c = equal_bits _ _ λ k. omega (
  arith,
  bit-bit_or k (bit_or a b) c,
  bit-bit_or k a b,
  bit-bit_or k a (bit_or b c),
  bit-bit_or k b c,
)

pub bit_xor_assoc : (a b c : ℕ) → bit_xor (bit_xor a b) c ≡ bit_xor a (bit_xor b c)
bit_xor_assoc a b c = equal_bits _ _ λ k. omega (
  arith,
  bit-bit_xor k (bit_xor a b) c,
  bit-bit_xor k a b,
  bit-bit_xor k a (bit_xor b c),
  bit-bit_xor k b c,
)

pub bit_and_self : (a : ℕ) → bit_and a a ≡ a
bit_and_self a = equal_bits _ _ λ k. omega (arith, bit-bit_and k a a)

pub bit_or_self : (a : ℕ) → bit_or a a ≡ a
bit_or_self a = equal_bits _ _ λ k. omega (arith, bit-bit_or k a a)

pub bit_xor_self : (a : ℕ) → bit_xor a a ≡ 0
bit_xor_self a = equal_bits _ _ λ k. omega (arith, bit-bit_xor k a a, bit-lt k a, bit-zero k)

pub bit_and_zero : (a : ℕ) → bit_and a 0 ≡ 0
bit_and_zero a = equal_bits _ _ λ k. omega (arith, bit-bit_and k a 0, bit-zero k)

pub bit_or_zero : (a : ℕ) → bit_or a 0 ≡ a
bit_or_zero a = equal_bits _ _ λ k. omega (arith, bit-bit_or k a 0, bit-zero k)

pub bit_xor_zero : (a : ℕ) → bit_xor a 0 ≡ a
bit_xor_zero a = equal_bits _ _ λ k. omega (arith, bit-bit_xor k a 0, bit-zero k, bit-lt k a)

pub bit_xor_cancel : (a b : ℕ) → bit_xor a (bit_xor a b) ≡ b
bit_xor_cancel a b =
    equal_bits _ _
      λ k. omega (arith, bit-bit_xor k a (bit_xor a b), bit-bit_xor k a b, bit-lt k a, bit-lt k b)

pub bit_or-bit_and : (a b : ℕ) → bit_or a (bit_and a b) ≡ a
bit_or-bit_and a b =
    equal_bits _ _ λ k. omega (arith, bit-bit_or k a (bit_and a b), bit-bit_and k a b)

pub bit_and-bit_or : (a b : ℕ) → bit_and a (bit_or a b) ≡ a
bit_and-bit_or a b =
    equal_bits _ _ λ k. omega (arith, bit-bit_and k a (bit_or a b), bit-bit_or k a b)

pub bit_xor→eq : (a b : ℕ) → bit_xor a b ≡ 0 → a ≡ b
bit_xor→eq a b h =
    equal_bits _ _
      λ k. omega (arith, ap (bit k) h, bit-zero k, bit-bit_xor k a b, bit-lt k a, bit-lt k b)

-- The bits of a number and of its complement.
bit-complement : (k n a : ℕ) → a ≤ ones n → bit k (ones n - a) + bit k a ≡ bit k (ones n)
unfolding bit ones
bit-complement zero zero a h = omega arith
bit-complement zero (suc n) a h = omega arith
bit-complement (suc k) zero zero h = omega (arith, bit-zero k)
bit-complement (suc k) zero (suc a) h = absurd (omega arith)
bit-complement (suc k) (suc n) a h =
    let up : (ones n * 2 + 1) / 2 ≡ ones n = omega arith in
    let down : (ones n * 2 + 1 - a) / 2 ≡ ones n - a / 2 = omega arith in
    omega (arith, ap (bit k) up, ap (bit k) down, bit-complement k n (a / 2) (omega arith))

pub bit_and-complement : (n a : ℕ) → a ≤ ones n → bit_and a (ones n - a) ≡ 0
bit_and-complement n a h = equal_bits _ _ λ k.
    omega
      (arith, bit-bit_and k a (ones n - a), bit-complement k n a h, bit-lt k (ones n), bit-zero k)

pub bit_or-complement : (n a : ℕ) → a ≤ ones n → bit_or a (ones n - a) ≡ ones n
bit_or-complement n a h =
    equal_bits _ _
      λ k. omega (arith, bit-bit_or k a (ones n - a), bit-complement k n a h, bit-lt k (ones n))

pub bit_or-ones : (n a : ℕ) → a ≤ ones n → bit_or a (ones n) ≡ ones n
bit_or-ones n a h =
    equal_bits _ _ λ k. omega (arith, bit-bit_or k a (ones n), bit-complement k n a h)

pub pow_pos : (n : ℕ) → 0 < 2 ^ n
pow_pos zero = omega arith
pow_pos (suc n) = omega (arith, pow_pos n, pow-suc 2 n)

mod_half : (n a : ℕ) → a % 2 ^ suc n ≡ a / 2 % 2 ^ n * 2 + a % 2
mod_half n a =
    let p = 2 ^ n in
    let q = a / 2 / p in
    let r = a / 2 % p * 2 + a % 2 in
    let lt : a / 2 % p < p = mod-lt (a / 2) (pow_pos n) in
    let e : a ≡ r + q * (p * 2) = grind (arith, mod-add-div' (a / 2) p) in
    ap (λ (t : ℕ). a % t) (pow-suc 2 n)
    ∙ ap (λ (t : ℕ). t % (p * 2)) e
    ∙ add-mul-mod_self_right r q (p * 2)
    ∙ mod-eq_of_lt (omega arith)

pub bit_and-ones : (n a : ℕ) → bit_and a (ones n) ≡ a % 2 ^ n
unfolding ones
bit_and-ones zero a = omega (arith, bit_and_zero a)
bit_and-ones (suc n) a =
    let up : (ones n * 2 + 1) / 2 ≡ ones n = omega arith in
    let step : bit_and a (ones n * 2 + 1)
        ≡ bit_and (a / 2) ((ones n * 2 + 1) / 2) * 2 + min (a % 2) ((ones n * 2 + 1) % 2) =
      bit_and_step a (ones n * 2 + 1) in
    let step' : bit_and a (ones n * 2 + 1)
        ≡ bit_and (a / 2) (ones n) * 2 + min (a % 2) ((ones n * 2 + 1) % 2) =
      rw up at step in
    omega (arith, bit_and-ones n (a / 2), mod_half n a)

pub ones-pow : (n : ℕ) → ones n ≡ 2 ^ n - 1
unfolding ones
ones-pow zero = refl
ones-pow (suc n) = omega (arith, ones-pow n, pow-suc 2 n, pow_pos n)
