-- ===== src/Evmasm/PeepholeOptimiser.antt =====
-- libevmasm/PeepholeOptimiser.cpp: local rewriting of a sequence of items.
pub mod Methods
pub mod Windows
pub mod Rewrites
pub mod Rounds
pub mod Dests
pub mod Positions
pub mod Simulation
pub mod Correct
use lity.Prelude.{
  ℕ, zero, suc, ◌+◌, Bool, true, false, Option, none, some, List, [], ◌∷◌, ◌++◌, ◌&&◌, ◌||◌, ltb,
  ◌==◌, length, if◌then◌else◌, Result, ok, err, ◌>>=◌,
}
use lity.Evmasm.Opcode
use lity.Evmasm.AssemblyItem.{AssemblyItem, op, item_eq, bytes_required}
use Methods.{apply_methods}

-- `while (state.i < m_items.size()) applyMethods(state, …)` on the items that are left. Each round takes
-- at least one item, so their number is fuel enough.
unfoldable pub optimise_loop : ℕ → List AssemblyItem → List AssemblyItem
optimise_loop zero items = []
optimise_loop (suc fuel) items = elim (apply_methods items) [
  | none ↦ []
  | some (out, rest) ↦ out ++ optimise_loop fuel rest
]

unfoldable pub optimised_items : List AssemblyItem → List AssemblyItem
unfolding optimise_loop
optimised_items items = optimise_loop (length items) items

-- `numberOfPops`
unfoldable pub number_of_pops : List AssemblyItem → ℕ
unfolding item_eq
number_of_pops [] = 0
number_of_pops (it ∷ items) =
    let rest = number_of_pops items in if item_eq it (op Opcode.pop) then suc rest else rest

-- `PeepholeOptimiser::optimise`: the result, and the items afterwards. The sizes in bytes are compared
-- only where the numbers of items are equal.
unfoldable pub optimise : List AssemblyItem → Result (Bool × List AssemblyItem)
optimise items =
    let out = optimised_items items in
    if ltb (length out) (length items)
    then ok (true, out)
    else (if length out == length items
        then (do
          n ← bytes_required 3 out
          n' ← bytes_required 3 items
          ok (
              if ltb n n' || ltb (number_of_pops items) (number_of_pops out)
              then (true, out)
              else (false, items)))
        else ok (false, items))
