-- ===== src/Yul/Expression.antt =====
-- libsolidity/inlineasm/AsmData.h: the expressions of Yul and of inline assembly, without their
-- locations. A name is the list of the bytes of its `YulString`, which has no other equality.
use lity.Prelude.{ℕ, suc, List}
use lity.Evmasm.Opcode.{Instruction}

abbrev pub Name : Type 0
Name = List ℕ

-- `enum class LiteralKind`
pub data LiteralKind : Type 0 where
  number_literal boolean_literal string_literal : LiteralKind

-- `boost::variant<FunctionalInstruction, FunctionCall, Identifier, Literal>`, with the vectors of
-- arguments as a list of their own. A literal has its kind, value and type.
mutual
  pub data Expression : Type 0 where
    functional_instruction : Instruction → Arguments → Expression
    function_call : Name → Arguments → Expression
    identifier : Name → Expression
    literal : LiteralKind → Name → Name → Expression

  pub data Arguments : Type 0 where
    no_argument : Arguments
    argument : Expression → Arguments → Arguments

unfoldable pub size : Arguments → ℕ
size no_argument = 0
size (argument e rest) = suc (size rest)
