-- ===== src/Evmasm/GasMeter.antt =====
-- libevmasm/GasMeter.h and .cpp: the gas that an instruction takes by its tier.
use lity.Prelude.{ℕ, ◌==◌, if◌then◌else◌, Result, ok, err, optimizer_exception}
use lity.Evmasm.Opcode
use lity.Evmasm.Opcode.{Instruction}
use lity.Evmasm.Instruction.{instruction_info}
use lity.Evmasm.Instruction.Table.{Tier, zero, base, very_low, low, mid, high, ext}

abbrev pub exp_gas : ℕ
exp_gas = 10

abbrev pub create_data_gas : ℕ
create_data_gas = 200

abbrev pub tx_data_non_zero_gas : ℕ
tx_data_non_zero_gas = 68

unfoldable pub tier_gas : Tier → Result ℕ
tier_gas zero = ok 0
tier_gas base = ok 2
tier_gas very_low = ok 3
tier_gas low = ok 5
tier_gas mid = ok 8
tier_gas high = ok 10
tier_gas ext = ok 20
tier_gas t = err optimizer_exception

-- `GasMeter::runGas`
unfoldable pub run_gas : Instruction → Result ℕ
unfolding tier_gas
run_gas i = if i == Opcode.jumpdest then ok 1 else tier_gas (instruction_info i).gas_price_tier
