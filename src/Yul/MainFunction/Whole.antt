-- ===== src/Yul/MainFunction/Whole.antt =====
-- libyul/optimiser: FunctionHoister, FunctionGrouper and MainFunction one after the other.
use lity.Prelude.{◌≡◌, true}
use lity.Yul.Statement.{Statement, block, Block, statement}
use lity.Yul.FunctionHoister.Hoisted.{is_tidy, are_functions}

module _ (main functions : Block) (tidy : is_tidy main ≡ true)
    (k : are_functions functions ≡ true) where
  abbrev grouped : Block
  grouped = statement (block main) functions
