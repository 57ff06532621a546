-- ===== src/Evmasm/Instruction/Family.antt =====
-- libevmasm/Instruction.h and .cpp: the families PUSH, DUP, SWAP and LOG agree with their numbers
-- and with the table.
use lity.Prelude.{
  ℕ, ◌+◌, ◌-◌, ◌<◌, ◌≤◌, ◌≡◌, ◌⊎◌, inl, inr, refl, Bool, true, ◌&&◌, arith, leb, ◌==◌,
  if◌then◌else◌, Bool-cases, everywhere, everywhere_sound, Result, ok, err, invalid_opcode,
}
use lity.Evmasm.Opcode.{Instruction}
use lity.Evmasm.Instruction.{
  is_push_instruction, is_dup_instruction, is_swap_instruction, is_log_instruction, get_push_number,
  get_dup_number, get_swap_number, get_log_number, push_instruction, dup_instruction,
  swap_instruction, log_instruction, instruction_info,
}

pub data Family : Type 0 where
  push dup swap log : Family

-- The range of a family's numbers.
abbrev pub lowest : Family → ℕ
lowest push = 1
lowest dup = 1
lowest swap = 1
lowest log = 0

abbrev pub highest : Family → ℕ
highest push = 32
highest dup = 16
highest swap = 16
highest log = 4

abbrev pub member : Family → Instruction → Bool
member push = is_push_instruction
member dup = is_dup_instruction
member swap = is_swap_instruction
member log = is_log_instruction

abbrev pub number : Family → Instruction → ℕ
number push = get_push_number
number dup = get_dup_number
number swap = get_swap_number
number log = get_log_number

abbrev pub make : Family → ℕ → Result Instruction
make push = push_instruction
make dup = dup_instruction
make swap = swap_instruction
make log = log_instruction

-- The instruction requested of a family by a number is a member with that number if the number is
-- in the family's range, and `InvalidOpcode` is thrown if it is outside.
pub number-make :
    (f : Family) (n : ℕ)
    → ((lowest f ≤ n)
        × (n ≤ highest f)
        × ((i : Instruction) × (make f n ≡ ok i) × (member f i ≡ true) × (number f i ≡ n)))
      ⊎ (((n < lowest f) ⊎ (highest f < n)) × (make f n ≡ err invalid_opcode))
unfolding is_push_instruction is_dup_instruction is_swap_instruction is_log_instruction
    get_push_number get_dup_number get_swap_number get_log_number push_instruction dup_instruction
    swap_instruction log_instruction
number-make push n = elim (Bool-cases (leb 1 n && leb n 32)) [
  | inl h ↦
      inl (ground arith, ground arith, (0x60 + n - 1, ground arith, ground arith, ground arith))
  | inr h ↦ inr (ground arith, ground arith)
]
number-make dup n = elim (Bool-cases (leb 1 n && leb n 16)) [
  | inl h ↦
      inl (ground arith, ground arith, (0x80 + n - 1, ground arith, ground arith, ground arith))
  | inr h ↦ inr (ground arith, ground arith)
]
number-make swap n = elim (Bool-cases (leb 1 n && leb n 16)) [
  | inl h ↦
      inl (ground arith, ground arith, (0x90 + n - 1, ground arith, ground arith, ground arith))
  | inr h ↦ inr (ground arith, ground arith)
]
number-make log n = elim (Bool-cases (leb n 4)) [
  | inl h ↦ inl (ground arith, ground arith, (0xa0 + n, ground arith, ground arith, ground arith))
  | inr h ↦ inr (ground arith, ground arith)
]

-- Every byte that is a member of a family is the instruction requested by its own number.
pub make-number :
    (f : Family) (i : Instruction) → i < 256 → member f i ≡ true → make f (number f i) ≡ ok i
unfolding is_push_instruction is_dup_instruction is_swap_instruction is_log_instruction
    get_push_number get_dup_number get_swap_number get_log_number push_instruction dup_instruction
    swap_instruction log_instruction
make-number push i b h = ground arith
make-number dup i b h = ground arith
make-number swap i b h = ground arith
make-number log i b h = ground arith

-- The further bytes of code, and the stack items taken and put, as the families determine them.
agrees : Instruction → Bool
agrees i =
    let entry = instruction_info i in
    (entry.additional == (if is_push_instruction i then get_push_number i else 0))
    && (if is_push_instruction i then entry.args == 0 && entry.ret == 1 else true)
    && (if is_dup_instruction i
        then entry.args == get_dup_number i && entry.ret == get_dup_number i + 1
        else true)
    && (if is_swap_instruction i
        then entry.args == get_swap_number i + 1 && entry.ret == get_swap_number i + 1
        else true)

agrees_table : everywhere agrees 256 ≡ true
unfolding everywhere agrees instruction_info is_push_instruction is_dup_instruction
    is_swap_instruction get_push_number get_dup_number get_swap_number
agrees_table = refl

-- The table gives further bytes of code to the members of PUSH alone, to each as many as its number.
pub additional-instruction_info :
    (i : Instruction)
    → i < 256
    → (instruction_info i).additional ≡ (if is_push_instruction i then get_push_number i else 0)
unfolding agrees
additional-instruction_info i b =
    let h = everywhere_sound agrees 256 i b agrees_table in ground arith

-- DUPn reads n stack items and leaves n + 1, after the table.
pub args-dup :
    (i : Instruction)
    → i < 256
    → is_dup_instruction i ≡ true
    → ((instruction_info i).args ≡ get_dup_number i)
      × ((instruction_info i).ret ≡ get_dup_number i + 1)
unfolding agrees
args-dup i b d = let h = everywhere_sound agrees 256 i b agrees_table in ground arith

-- SWAPn reads n + 1 stack items and leaves as many, after the table.
pub args-swap :
    (i : Instruction)
    → i < 256
    → is_swap_instruction i ≡ true
    → ((instruction_info i).args ≡ get_swap_number i + 1)
      × ((instruction_info i).ret ≡ get_swap_number i + 1)
unfolding agrees
args-swap i b s = let h = everywhere_sound agrees 256 i b agrees_table in ground arith
