-- ===== src/Evmasm/Machine/Words.antt =====
-- libevmasm/Instruction.h: a stack of words stays a stack of words.
pub mod Step
use lity.Prelude.{
  ℕ, zero, suc, ◌+◌, ◌-◌, ◌*◌, ◌/◌, ◌%◌, ◌^◌, ◌≤◌, ◌<◌, ◌≡◌, refl, ap, sym, subst, Bool, true,
  false, Option, none, some, List, [], ◌∷◌, ◌++◌, get_elem?, set, length, ◌==◌, ltb, leb,
  if◌then◌else◌, arith, Bool-cases, bit_and, bit_or, bit_xor,
}
use lity.Prelude.Bits.{ones, bit_and-le, bit_or-le, bit_xor-le}
use lity.Prelude.Int.{ℤ, pos, negsuc}
use lity.Evmasm.Opcode.{Instruction}
use lity.Evmasm.Word.{
  constant_value, unary, binary, ternary, unsigned, bitwise, signed, s2u, u2s, sign_extend, or_else,
  div_ℤ, mod_ℤ,
}
use lity.Evmasm.Machine.{AreWords, split_at}

abbrev pub IsWord : Option ℕ → Type 0
IsWord none = Unit
IsWord (some v) = v < 2 ^ 256

s2u-lt : (a : ℤ) → s2u a < 2 ^ 256
unfolding s2u
s2u-lt (pos n) = omega arith
s2u-lt (negsuc n) = omega arith

word-le-ones : (a : ℕ) → a < 2 ^ 256 → a ≤ ones 256
unfolding ones
word-le-ones a h = omega arith

ones-lt : ones 256 < 2 ^ 256
unfolding ones
ones-lt = omega arith

bit_and-lt : (a b : ℕ) → a < 2 ^ 256 → bit_and a b < 2 ^ 256
bit_and-lt a b h = omega (arith, bit_and-le 256 a b (word-le-ones a h), ones-lt)

bit_or-lt : (a b : ℕ) → a < 2 ^ 256 → b < 2 ^ 256 → bit_or a b < 2 ^ 256
bit_or-lt a b h k = omega (arith, bit_or-le 256 a b (word-le-ones a h) (word-le-ones b k), ones-lt)

bit_xor-lt : (a b : ℕ) → a < 2 ^ 256 → b < 2 ^ 256 → bit_xor a b < 2 ^ 256
bit_xor-lt a b h k =
    omega (arith, bit_xor-le 256 a b (word-le-ones a h) (word-le-ones b k), ones-lt)

sign_extend-lt : (a b : ℕ) → b < 2 ^ 256 → sign_extend a b < 2 ^ 256
unfolding sign_extend
sign_extend-lt a b h =
    ground
      (arith, bit_or-lt b (2 ^ 256 - 1 - (2 ^ (a * 8 + 7) - 1)), bit_and-lt b (2 ^ (a * 8 + 7) - 1))

unary-IsWord : (i : Instruction) (a : ℕ) → a < 2 ^ 256 → IsWord (unary i a)
unfolding unary
unary-IsWord i a h = ground arith

unsigned-IsWord : (i : Instruction) (a b : ℕ) → a < 2 ^ 256 → b < 2 ^ 256 → IsWord (unsigned i a b)
unfolding unsigned
unsigned-IsWord i a b h k = ground arith

bitwise-IsWord : (i : Instruction) (a b : ℕ) → a < 2 ^ 256 → b < 2 ^ 256 → IsWord (bitwise i a b)
unfolding bitwise
bitwise-IsWord i a b h k = ground (arith, bit_and-lt a b, bit_or-lt a b, bit_xor-lt a b)

signed-IsWord : (i : Instruction) (a b : ℕ) → a < 2 ^ 256 → b < 2 ^ 256 → IsWord (signed i a b)
unfolding signed
signed-IsWord i a b h k =
    ground
      (arith, s2u-lt (div_ℤ (u2s a) (u2s b)), s2u-lt (mod_ℤ (u2s a) (u2s b)), sign_extend-lt a b)

binary-IsWord : (i : Instruction) (a b : ℕ) → a < 2 ^ 256 → b < 2 ^ 256 → IsWord (binary i a b)
unfolding binary
binary-IsWord i a b h k =
    or_else-IsWord (unsigned i a b) _ (unsigned-IsWord i a b h k)
      (or_else-IsWord (bitwise i a b) _ (bitwise-IsWord i a b h k) (signed-IsWord i a b h k))
  where
    or_else-IsWord : (o p : Option ℕ) → IsWord o → IsWord p → IsWord (or_else o p)
    or_else-IsWord none p ho hp = hp
    or_else-IsWord (some v) p ho hp = ho

ternary-IsWord : (i : Instruction) (a b c : ℕ) → c < 2 ^ 256 → IsWord (ternary i a b c)
unfolding ternary
ternary-IsWord i a b c h = ground arith

pub constant_value-IsWord :
    (i : Instruction) (xs : List ℕ) → AreWords xs → IsWord (constant_value i xs)
unfolding constant_value
constant_value-IsWord i [] h = tt
constant_value-IsWord i (a ∷ []) h = unary-IsWord i a h.0
constant_value-IsWord i (a ∷ b ∷ []) h = binary-IsWord i a b h.0 h.1.0
constant_value-IsWord i (a ∷ b ∷ c ∷ []) h = ternary-IsWord i a b c h.1.1.0
constant_value-IsWord i (a ∷ b ∷ c ∷ d ∷ xs) h = tt

pub AreWords-append : (xs ys : List ℕ) → AreWords xs → AreWords ys → AreWords (xs ++ ys)
AreWords-append [] ys hx hy = hy
AreWords-append (x ∷ xs) ys hx hy = (hx.0, AreWords-append xs ys hx.1 hy)

pub get_elem?-IsWord : (s : List ℕ) (n : ℕ) → AreWords s → IsWord (get_elem? s n)
get_elem?-IsWord [] n h = tt
get_elem?-IsWord (x ∷ s) zero h = h.0
get_elem?-IsWord (x ∷ s) (suc n) h = get_elem?-IsWord s n h.1

pub set-AreWords : (s : List ℕ) (n v : ℕ) → AreWords s → v < 2 ^ 256 → AreWords (set s n v)
set-AreWords [] n v h k = tt
set-AreWords (x ∷ s) zero v h k = (k, h.1)
set-AreWords (x ∷ s) (suc n) v h k = (h.0, set-AreWords s n v h.1 k)

-- Taking n items gives n items, that make up the stack with the rest.
abbrev pub IsSplit : ℕ → List ℕ → Option (List ℕ × List ℕ) → Type 0
IsSplit n s none = length s < n
IsSplit n s (some (xs, r)) = (length xs ≡ n) × (xs ++ r ≡ s)

pub split_at_lem : (n : ℕ) (s : List ℕ) → IsSplit n s (split_at n s)
unfolding split_at
split_at_lem zero s = (refl, refl)
split_at_lem (suc n) [] = omega arith
split_at_lem (suc n) (x ∷ s) = more (split_at n s) (split_at_lem n s)
  where
    more :
        (o : Option (List ℕ × List ℕ))
        → IsSplit n s o
        → IsSplit (suc n) (x ∷ s) (elim o [ none ↦ none | some (xs, r) ↦ some (x ∷ xs, r) ])
    more none h = omega arith
    more (some (xs, r)) h = (ap suc h.0, ap (λ l. x ∷ l) h.1)

AreWords-parts : (xs ys : List ℕ) → AreWords (xs ++ ys) → AreWords xs × AreWords ys
AreWords-parts [] ys h = (tt, h)
AreWords-parts (x ∷ xs) ys h = let p = AreWords-parts xs ys h.1 in ((h.0, p.0), p.1)

pub split_at-AreWords :
    (n : ℕ) (s xs r : List ℕ) → AreWords s → split_at n s ≡ some (xs, r) → AreWords xs × AreWords r
split_at-AreWords n s xs r h e = AreWords-parts xs r (subst AreWords (sym (parts e)) h)
  where
    parts : split_at n s ≡ some (xs, r) → xs ++ r ≡ s
    parts e = (subst (IsSplit n s) e (split_at_lem n s)).1
