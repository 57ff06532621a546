-- ===== src/Yul/Substitution.antt =====
-- libyul/optimiser/Substitution.cpp and ASTCopier.cpp: variables replaced by expressions.
pub mod Value
use lity.Prelude.{ℕ, Bool, Option, none, some, List, [], ◌∷◌, if◌then◌else◌}
use lity.Devcore.StringUtils.{string_eq}
use lity.Yul.Expression.{
  Name, Expression, Arguments, functional_instruction, function_call, identifier, literal,
  no_argument, argument,
}

-- `ASTCopier::translate` on expressions, with the names that it does not translate
unfoldable mutual
  pub copy : Expression → Expression
  copy (functional_instruction i arguments) = functional_instruction i (copy_all arguments)
  copy (function_call f arguments) = function_call f (copy_all arguments)
  copy (identifier n) = identifier n
  copy (literal k v t) = literal k v t

  pub copy_all : Arguments → Arguments
  copy_all no_argument = no_argument
  copy_all (argument e rest) = argument (copy e) (copy_all rest)

-- `map<YulString, Expression const*>`
abbrev pub Substitutions : Type 0
Substitutions = List (Name × Expression)

unfoldable pub find : Substitutions → Name → Option Expression
find [] name = none
find ((key, e) ∷ rest) name = if string_eq key name then some e else find rest name

-- `Substitution::translate` of a variable: what is put in is not translated again.
unfoldable pub instead : Name → Option Expression → Expression
instead n none = identifier n
instead n (some e) = copy e

module _ (substitutions : Substitutions) where
  unfoldable pub replaced : Name → Expression
  replaced n = instead n (find substitutions n)

  unfoldable mutual
    pub translate : Expression → Expression
    translate (identifier n) = replaced n
    translate (functional_instruction i arguments) =
        functional_instruction i (translate_all arguments)
    translate (function_call f arguments) = function_call f (translate_all arguments)
    translate (literal k v t) = literal k v t

    pub translate_all : Arguments → Arguments
    translate_all no_argument = no_argument
    translate_all (argument e rest) = argument (translate e) (translate_all rest)
