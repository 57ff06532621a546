-- ===== src/Yul/NameCollector.antt =====
-- libyul/optimiser/NameCollector.h and NameCollector.cpp: the names that a block defines, the
-- references to each name, and the variables that are assigned to.
pub mod Totals
use lity.Prelude.{ℕ, ◌+◌, Bool, Option, none, some, List, [], ◌∷◌, ◌++◌, map, Result, if◌then◌else◌}
use lity.Devcore.StringUtils.{string_eq}
use lity.Yul.Expression.{
  Name, Expression, Arguments, functional_instruction, function_call, identifier, literal,
  no_argument, argument,
}
use lity.Yul.Statement.{
  TypedName, Statement, instruction, label, stack_assignment, assignment, variable_declaration,
  expression_statement, function_definition, if_statement, switch, for_loop, block, Block,
  no_statement, statement, Cases, no_case, case, walked,
}

abbrev pub names_of : List TypedName → List Name
names_of vs = map (λ v. v.0) vs

-- `NameCollector`, with the set as the list of the names in the order of their insertions
unfoldable mutual
  pub names : Statement → List Name
  names (instruction i) = []
  names (label n) = []
  names (stack_assignment n) = []
  names (assignment ns e) = []
  names (variable_declaration vs e) = names_of vs
  names (expression_statement e) = []
  names (function_definition f ps rs b) = f ∷ (names_of ps ++ (names_of rs ++ names_block b))
  names (if_statement e b) = names_block b
  names (switch e cs) = names_cases cs
  names (for_loop pre e post b) = names_block pre ++ (names_block b ++ names_block post)
  names (block b) = names_block b

  pub names_block : Block → List Name
  names_block no_statement = []
  names_block (statement s b) = names s ++ names_block b

  pub names_cases : Cases → List Name
  names_cases no_case = []
  names_cases (case v b cs) = names_block b ++ names_cases cs

-- `NameCollector(_block).names()`
abbrev pub collect_names : Block → Result (List Name)
collect_names b = walked b (names_block b)

unfoldable pub one : Name → Name → ℕ
one n m = if string_eq n m then 1 else 0

-- How often a name stands in a list.
unfoldable pub occurrences : Name → List Name → ℕ
occurrences m [] = 0
occurrences m (n ∷ ns) = one n m + occurrences m ns

-- `ReferencesCounter`: what it adds for one name. A count is at most the size of the program, so that a
-- `size_t` holds it.
module _ (m : Name) where
  unfoldable mutual
    pub references_in : Expression → ℕ
    references_in (functional_instruction i xs) = references_each xs
    references_in (function_call f xs) = one f m + references_each xs
    references_in (identifier n) = one n m
    references_in (literal k v t) = 0

    pub references_each : Arguments → ℕ
    references_each no_argument = 0
    references_each (argument e xs) = references_each xs + references_in e

  abbrev pub references_optional : Option Expression → ℕ
  references_optional none = 0
  references_optional (some e) = references_in e

  unfoldable mutual
    pub references : Statement → ℕ
    references (instruction i) = 0
    references (label n) = 0
    references (stack_assignment n) = 0
    references (assignment ns e) = occurrences m ns + references_in e
    references (variable_declaration vs e) = references_optional e
    references (expression_statement e) = references_in e
    references (function_definition f ps rs b) = references_block b
    references (if_statement e b) = references_in e + references_block b
    references (switch e cs) = references_in e + references_cases cs
    references (for_loop pre e post b) =
        references_block pre + (references_in e + (references_block b + references_block post))
    references (block b) = references_block b

    pub references_block : Block → ℕ
    references_block no_statement = 0
    references_block (statement s b) = references s + references_block b

    pub references_cases : Cases → ℕ
    references_cases no_case = 0
    references_cases (case v b cs) = references_block b + references_cases cs

-- `ReferencesCounter::countReferences`, as the function from a name to its number
abbrev pub count_references : Block → Result (Name → ℕ)
count_references b = walked b (λ m. references_block m b)

-- `Assignments`
unfoldable mutual
  pub assigned : Statement → List Name
  assigned (assignment ns e) = ns
  assigned (function_definition f ps rs b) = assigned_block b
  assigned (if_statement e b) = assigned_block b
  assigned (switch e cs) = assigned_cases cs
  assigned (for_loop pre e post b) = assigned_block pre ++ (assigned_block b ++ assigned_block post)
  assigned (block b) = assigned_block b
  assigned _ = []

  pub assigned_block : Block → List Name
  assigned_block no_statement = []
  assigned_block (statement s b) = assigned s ++ assigned_block b

  pub assigned_cases : Cases → List Name
  assigned_cases no_case = []
  assigned_cases (case v b cs) = assigned_block b ++ assigned_cases cs
