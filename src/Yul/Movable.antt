-- ===== src/Yul/Movable.antt =====
-- libyul/optimiser/Semantics.cpp, `MovableChecker`: expressions that may be evaluated elsewhere.
pub mod Safe
use lity.Prelude.{ℕ, Bool, true, false, List, [], ◌∷◌, if◌then◌else◌}
use lity.Evmasm.SemanticInformation.{movable}
use lity.Yul.Expression.{
  Name, Expression, Arguments, functional_instruction, function_call, identifier, literal,
  no_argument, argument,
}

-- `m_movable` and `m_variableReferences`; the set is a list, in which a name may stand twice.
pub record MovableChecker : Type 0 where
  pub is_movable : Bool
  pub references : List Name

-- The visits of an expression and, from the last one on, of the arguments.
unfoldable mutual
  pub visit : Expression → MovableChecker → MovableChecker
  visit (identifier n) c = record c { references = n ∷ c.references }
  visit (functional_instruction i arguments) c =
      let rest = visit_all arguments c in
      if movable i then rest else record c { is_movable = false }
  visit (function_call f arguments) c = record c { is_movable = false }
  visit (literal k v t) c = c

  pub visit_all : Arguments → MovableChecker → MovableChecker
  visit_all no_argument c = c
  visit_all (argument e rest) c = visit e (visit_all rest c)

-- `MovableChecker(_expression)`
unfoldable pub check : Expression → MovableChecker
check e = visit e (record { is_movable = true; references = [] })
