-- ===== src/Evmasm/Instruction/Decode.antt =====
-- libevmasm/Instruction.cpp, `eachInstruction`: bytes of code as instructions with their data. The calls
-- of the callback are the list of its arguments.
use lity.Prelude.{
  ℕ, zero, suc, ◌*◌, ◌%◌, ◌^◌, ◌≤◌, ◌<◌, ◌≡◌, refl, ap, sym, ◌∙◌, bit_or, List, [], ◌∷◌, ◌++◌,
  length, length-append, if◌then◌else◌, arith,
}
use lity.Devcore.CommonData.{to_big_endian, from_big_endian_loop, from_big_endian}
use lity.Devcore.CommonData.BigEndian.{length-to_big_endian, from-to_big_endian}
use lity.Evmasm.Opcode.{Instruction}
use lity.Evmasm.Instruction.{instruction_info, is_valid_instruction}

-- The loop that fills the data: the data, the octets that are missing, and the bytes that are left.
unfoldable pub fill_data : ℕ → ℕ → List ℕ → ℕ × ℕ × List ℕ
fill_data zero value bytes = (value, 0, bytes)
fill_data (suc additional) value [] = (value, suc additional, [])
fill_data (suc additional) value (b ∷ bytes) =
    fill_data additional (bit_or (value * 2 ^ 8 % 2 ^ 256) b) bytes

abbrev pub additional_of : Instruction → ℕ
additional_of i = if is_valid_instruction i then (instruction_info i).additional else 0

-- Each round takes a byte at least, so that as many rounds as bytes are enough.
unfoldable pub each_fuel : ℕ → List ℕ → List (Instruction × ℕ)
unfolding fill_data
each_fuel zero bytes = []
each_fuel (suc fuel) [] = []
each_fuel (suc fuel) (i ∷ bytes) =
    let filled = fill_data (additional_of i) 0 bytes in
    (i, filled.0 * 2 ^ (8 * filled.1) % 2 ^ 256) ∷ each_fuel fuel filled.2

unfoldable pub each_instruction : List ℕ → List (Instruction × ℕ)
unfolding each_fuel
each_instruction bytes = each_fuel (length bytes) bytes

-- An instruction with its data, as the assembler writes them.
abbrev pub encode : List (Instruction × ℕ) → List ℕ
encode [] = []
encode ((i, value) ∷ code) = i ∷ (to_big_endian (additional_of i) value ++ encode code)

-- The data fit the octets of their instruction, and a word.
abbrev pub Fits : List (Instruction × ℕ) → Type 0
Fits [] = Unit
Fits ((i, value) ∷ code) = (value < 256 ^ additional_of i) × (value < 2 ^ 256) × Fits code

fill_data-append :
    (xs ys : List ℕ) (value : ℕ)
    → fill_data (length xs) value (xs ++ ys) ≡ (from_big_endian_loop value xs, 0, ys)
unfolding fill_data from_big_endian_loop
fill_data-append [] ys value = refl
fill_data-append (x ∷ xs) ys value = fill_data-append xs ys (bit_or (value * 2 ^ 8 % 2 ^ 256) x)

fill_data-to_big_endian :
    (size v : ℕ) (ys : List ℕ)
    → v < 256 ^ size
    → v < 2 ^ 256
    → fill_data size 0 (to_big_endian size v ++ ys) ≡ (v, 0, ys)
unfolding from_big_endian
fill_data-to_big_endian size v ys h w =
    let octets = to_big_endian size v in
    ap (λ (n : ℕ). fill_data n 0 (octets ++ ys)) (sym (length-to_big_endian size v))
    ∙ fill_data-append octets ys 0
    ∙ ap (λ (n : ℕ). (n, 0, ys)) (from-to_big_endian size v h w)

each_fuel-encode :
    (fuel : ℕ) (code : List (Instruction × ℕ))
    → length (encode code) ≤ fuel
    → Fits code
    → each_fuel fuel (encode code) ≡ code
unfolding each_fuel
each_fuel-encode zero [] h f = refl
each_fuel-encode (suc fuel) [] h f = refl
each_fuel-encode zero ((i, value) ∷ code) h f = absurd (omega arith)
each_fuel-encode (suc fuel) ((i, value) ∷ code) h (fits, word, fs) =
    let filled = fill_data-to_big_endian (additional_of i) value (encode code) fits word in
    let shorter : length (encode code) ≤ fuel =
      omega (arith, length-append {0} (to_big_endian (additional_of i) value) (encode code)) in
    let rest = each_fuel-encode fuel code shorter fs in
    let whole : value * 2 ^ (8 * 0) % 2 ^ 256 ≡ value = omega arith in rw (filled, whole, rest) refl

-- The code of instructions whose data fit is read back as these instructions and data, in their order.
pub each_instruction-encode :
    (code : List (Instruction × ℕ)) → Fits code → each_instruction (encode code) ≡ code
unfolding each_instruction
each_instruction-encode code f = each_fuel-encode (length (encode code)) code (omega arith) f
