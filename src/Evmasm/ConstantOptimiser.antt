-- ===== src/Evmasm/ConstantOptimiser.antt =====
-- libevmasm/ConstantOptimiser.h and .cpp, `ComputeMethod`: a constant as code that computes it.
pub mod Check
pub mod Found
pub mod Represent
pub mod Fuel
use lity.Prelude.{
  ℕ, zero, suc, ◌+◌, ◌-◌, ◌*◌, ◌/◌, ◌%◌, ◌^◌, Bool, true, false, not, ◌||◌, ◌&&◌, List, [], ◌∷◌,
  ◌++◌, length, ltb, leb, ◌==◌, if◌then◌else◌, Result, ok, err, ◌>>=◌,
}
use lity.Evmasm.Opcode
use lity.Evmasm.Opcode.{Instruction}
use lity.Evmasm.Word.{max_word}
use lity.Evmasm.AssemblyItem.{AssemblyItem, op, push_item, push, operation, type_eq, item_eq}
use lity.Evmasm.AssemblyItem
use lity.Evmasm.GasMeter.{exp_gas, create_data_gas, tx_data_non_zero_gas, run_gas}
use lity.Devcore.CommonData

-- `Params`; of the version of the virtual machine only its gas for a byte of an exponent is asked.
pub record Params : Type 0 where
  pub is_creation : Bool
  pub runs : ℕ
  pub multiplicity : ℕ
  pub exp_byte_gas : ℕ

-- `combineGas`
abbrev pub combine_gas : Params → ℕ → ℕ → ℕ → ℕ
combine_gas p run repeated unique = p.runs * run + p.multiplicity * repeated + unique

unfoldable pub item_gas : AssemblyItem → Result ℕ
unfolding run_gas
item_gas it =
    if type_eq it.type push
    then run_gas Opcode.push1
    else (if type_eq it.type operation
        then (if it.instruction == Opcode.exp then ok exp_gas else run_gas it.instruction)
        else ok 0)

-- `simpleRunGas`
unfoldable pub simple_run_gas : List AssemblyItem → Result ℕ
unfolding item_gas
simple_run_gas [] = ok 0
simple_run_gas (it ∷ items) =
    let rest = simple_run_gas items in do g ← item_gas it; gs ← rest; ok (g + gs)

-- `count(…, Instruction::EXP)`
unfoldable pub number_of_exps : List AssemblyItem → ℕ
unfolding item_eq
number_of_exps [] = 0
number_of_exps (it ∷ items) =
    let rest = number_of_exps items in if item_eq it (op Opcode.exp) then suc rest else rest

-- `ComputeMethod::gasNeeded`
unfoldable pub gas_needed : Params → List AssemblyItem → Result ℕ
unfolding simple_run_gas number_of_exps
gas_needed p routine = do
  run ← simple_run_gas routine
  bytes ← AssemblyItem.bytes_required 3 routine
  ok (
      combine_gas p (run + number_of_exps routine * (exp_gas + p.exp_byte_gas))
        (bytes * (if p.is_creation then tx_data_non_zero_gas else create_data_gas)) 0)

-- The best routine so far, its gas, and `m_maxSteps`.
pub record Search : Type 0 where
  pub best_gas : ℕ
  pub routine : List AssemblyItem
  pub max_steps : ℕ

abbrev pub Finder : Type 0
Finder = ℕ → ℕ → Result (List AssemblyItem × ℕ)

-- a * 2 ** bits + b, or a * 2 ** bits - b
abbrev pub composed : ℕ → Bool → ℕ → ℕ → List AssemblyItem → List AssemblyItem → List AssemblyItem
composed bits negative lower upper low high =
    low
    ++ push_item bits
      ∷ push_item 2
      ∷ op Opcode.exp
      ∷ ((if upper == 1 then [] else high ++ op Opcode.mul ∷ [])
          ++ (if lower == 0
              then []
              else (if negative then op Opcode.sub ∷ [] else op Opcode.add ∷ [])))

abbrev pub unless : Bool → Finder → Finder
unless skipped find v steps = if skipped then ok ([], steps) else find v steps

-- One decomposition, if the bits leave a gap; the finder is the recursive call.
unfoldable pub decompose : Finder → Params → ℕ → ℕ → Bool → ℕ → ℕ → Search → Result Search
unfolding gas_needed
decompose find p value bits negative lower upper st =
    if upper == 0 || leb (2 ^ bits / 256) lower then ok st else (do
      (low, steps) ← unless (lower == 0) find lower st.max_steps
      (high, steps') ← unless (upper == 1) find upper steps
      gas ← gas_needed p (composed bits negative lower upper low high)
      ok (
          if ltb gas st.best_gas
          then record {
            best_gas = gas;
            routine = composed bits negative lower upper low high;
            max_steps = steps' - 1;
          }
          else record st { max_steps = steps' - 1 }))

unfoldable pub try_bits : Finder → Params → ℕ → ℕ → Search → Result Search
unfolding decompose
try_bits find p value bits st =
    let gap = value / 2 ^ (bits - 8) % 512 in
    let power = 2 ^ bits in
    let lower = value % power in
    let upper = value / power in
    if not (gap == 0xff || gap == 0x100)
    then ok st
    else (if ltb (power - lower) lower
        then decompose find p value bits true (power - lower) (upper + 1) st
        else decompose find p value bits false lower upper st)

-- `for (unsigned bits = 255; bits > 8 && m_maxSteps > 0; --bits)`: k rounds are left, the next one at
-- k + 8 bits.
unfoldable pub search : Finder → Params → ℕ → ℕ → Search → Result Search
unfolding try_bits
search find p value zero st = ok st
search find p value (suc k) st =
    if st.max_steps == 0
    then ok st
    else (do st' ← try_bits find p value (k + 9) st; search find p value k st')

-- `findRepresentation` with the steps that are left, before and after. The fuel bounds the depth of
-- the recursion.
unfoldable pub find_fuel : ℕ → Params → Finder
unfolding search gas_needed
find_fuel zero p value steps = ok (push_item value ∷ [], steps)
find_fuel (suc fuel) p value steps =
    let find : Finder = find_fuel fuel p in
    if ltb value 0x1_0000
    then ok (push_item value ∷ [], steps)
    else (if ltb (CommonData.bytes_required (max_word - value)) (CommonData.bytes_required value)
        then (do
          (routine, steps') ← find (max_word - value) steps
          ok (routine ++ op Opcode.not ∷ [], steps'))
        else (do
          gas ← gas_needed p (push_item value ∷ [])
          st ←
              search find p value 247
                (record { best_gas = gas; routine = push_item value ∷ []; max_steps = steps })
          ok (st.routine, st.max_steps)))

unfoldable pub find_representation : Params → Finder
unfolding find_fuel
find_representation p value = find_fuel (suc value) p value
