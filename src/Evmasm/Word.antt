-- ===== src/Evmasm/Word.antt =====
-- libevmasm/RuleList.h, "arithmetic on constants": what an instruction computes from words of 256 bits
-- that are known. It is the meaning of these instructions for the other modules too.
use lity.Prelude.{
  ℕ, zero, suc, ◌+◌, ◌-◌, ◌*◌, ◌/◌, ◌%◌, ◌^◌, bit_and, bit_or, bit_xor, Bool, true, false, Option,
  none, some, List, [], ◌∷◌, ltb, leb, ◌==◌, if◌then◌else◌,
}
use lity.Prelude.Int.{ℤ, pos, negsuc, pos_part, neg_part, ltb_ℤ}
use lity.Evmasm.Opcode
use lity.Evmasm.Opcode.{Instruction}

-- 2 ^ 256, at which `u256` wraps
abbrev pub word_mod : ℕ
word_mod = 2 ^ 256

-- `u256(-1)`
abbrev pub max_word : ℕ
max_word = 2 ^ 256 - 1

abbrev from_bool : Bool → ℕ
from_bool true = 1
from_bool false = 0

-- `u2s`: the highest bit is the sign.
unfoldable pub u2s : ℕ → ℤ
u2s u = if ltb u (2 ^ 255) then pos u else negsuc (word_mod - u - 1)

-- `s2u`
unfoldable pub s2u : ℤ → ℕ
s2u (pos n) = n % word_mod
s2u (negsuc n) = (word_mod - 1 - n % word_mod) % word_mod

abbrev negate : ℕ → ℤ
negate zero = pos 0
negate (suc n) = negsuc n

-- The quotient and the remainder of a signed division round towards 0; the remainder has the sign of
-- the dividend.
unfoldable pub div_ℤ : ℤ → ℤ → ℤ
div_ℤ (pos a) (pos b) = pos (a / b)
div_ℤ (pos a) (negsuc b) = negate (a / suc b)
div_ℤ (negsuc a) (pos b) = negate (suc a / b)
div_ℤ (negsuc a) (negsuc b) = pos (suc a / suc b)

unfoldable pub mod_ℤ : ℤ → ℤ → ℤ
mod_ℤ (pos a) b = pos (a % (if ltb_ℤ b (pos 0) then neg_part b else pos_part b))
mod_ℤ (negsuc a) b = negate (suc a % (if ltb_ℤ b (pos 0) then neg_part b else pos_part b))

-- `~`
abbrev pub complement : ℕ → ℕ
complement a = max_word - a

unfoldable pub sign_extend : ℕ → ℕ → ℕ
sign_extend a b =
    if leb 31 a
    then b
    else (let test_bit : ℕ = a * 8 + 7 in
        let mask : ℕ = 2 ^ test_bit - 1 in
        if b / 2 ^ test_bit % 2 == 1 then bit_or b (complement mask) else bit_and b mask)

-- The rules of one, two and three constants. The first operand is the top of the stack.
unfoldable pub unary : Instruction → ℕ → Option ℕ
unary i a =
    if i == Opcode.not
    then some (complement a)
    else (if i == Opcode.iszero then some (from_bool (a == 0)) else none)

unfoldable pub signed : Instruction → ℕ → ℕ → Option ℕ
unfolding u2s s2u div_ℤ mod_ℤ sign_extend
signed i a b =
    if i == Opcode.sdiv
    then some (if b == 0 then 0 else s2u (div_ℤ (u2s a) (u2s b)))
    else (if i == Opcode.smod
        then some (if b == 0 then 0 else s2u (mod_ℤ (u2s a) (u2s b)))
        else (if i == Opcode.slt
            then some (from_bool (ltb_ℤ (u2s a) (u2s b)))
            else (if i == Opcode.sgt
                then some (from_bool (ltb_ℤ (u2s b) (u2s a)))
                else (if i == Opcode.signextend then some (sign_extend a b) else none))))

unfoldable pub bitwise : Instruction → ℕ → ℕ → Option ℕ
bitwise i a b =
    if i == Opcode.and
    then some (bit_and a b)
    else (if i == Opcode.or
        then some (bit_or a b)
        else (if i == Opcode.xor
            then some (bit_xor a b)
            else (if i == Opcode.byte
                then some (if leb 32 a then 0 else b / 2 ^ (8 * (31 - a)) % 256)
                else (if i == Opcode.shl
                    then some (if ltb 255 a then 0 else b * 2 ^ a % word_mod)
                    else (if i == Opcode.shr
                        then some (if ltb 255 a then 0 else b / 2 ^ a)
                        else none)))))

unfoldable pub unsigned : Instruction → ℕ → ℕ → Option ℕ
unsigned i a b =
    if i == Opcode.add
    then some ((a + b) % word_mod)
    else (if i == Opcode.mul
        then some (a * b % word_mod)
        else (if i == Opcode.sub
            then some ((a + word_mod - b) % word_mod)
            else (if i == Opcode.div
                then some (if b == 0 then 0 else a / b)
                else (if i == Opcode.modulo
                    then some (if b == 0 then 0 else a % b)
                    else (if i == Opcode.exp
                        then some (a ^ b % word_mod)
                        else (if i == Opcode.lt
                            then some (from_bool (ltb a b))
                            else (if i == Opcode.gt
                                then some (from_bool (ltb b a))
                                else (if i == Opcode.eq
                                    then some (from_bool (a == b))
                                    else none))))))))

abbrev pub or_else {ℓ} : {A : Type ℓ} → Option A → Option A → Option A
or_else none o = o
or_else (some a) o = some a

unfoldable pub binary : Instruction → ℕ → ℕ → Option ℕ
unfolding unsigned bitwise signed
binary i a b = or_else (unsigned i a b) (or_else (bitwise i a b) (signed i a b))

unfoldable pub ternary : Instruction → ℕ → ℕ → ℕ → Option ℕ
ternary i a b c =
    if i == Opcode.addmod
    then some (if c == 0 then 0 else (a + b) % c)
    else (if i == Opcode.mulmod then some (if c == 0 then 0 else a * b % c) else none)

-- The value of an instruction at constants, if the list has a rule for it.
unfoldable pub constant_value : Instruction → List ℕ → Option ℕ
unfolding unary binary ternary
constant_value i (a ∷ []) = unary i a
constant_value i (a ∷ b ∷ []) = binary i a b
constant_value i (a ∷ b ∷ c ∷ []) = ternary i a b c
constant_value i _ = none
