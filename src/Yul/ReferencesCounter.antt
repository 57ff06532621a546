-- ===== src/Yul/ReferencesCounter.antt =====
-- libyul/optimiser/NameCollector.cpp: `ReferencesCounter` with its map, as the pruner reads it.
pub mod Counts
pub mod Keys
use lity.Prelude.{
  ℕ, zero, suc, ◌+◌, Bool, false, ◌||◌, Option, none, some, List, [], ◌∷◌, if◌then◌else◌,
}
use lity.Devcore.StringUtils.{string_eq}
use lity.Yul.Expression.{
  Name, Expression, Arguments, functional_instruction, function_call, identifier, literal,
  no_argument, argument,
}
use lity.Yul.Statement.{
  Statement, instruction, label, stack_assignment, assignment, variable_declaration,
  expression_statement, function_definition, if_statement, switch, for_loop, block, Block,
  no_statement, statement, Cases, no_case, case,
}

-- `map<YulString, size_t>`
abbrev pub References : Type 0
References = List (Name × ℕ)

-- The number of a name, 0 if the map does not have it.
unfoldable pub count_of : References → Name → ℕ
count_of [] name = 0
count_of ((key, n) ∷ rest) name = if string_eq key name then n else count_of rest name

-- `m_references.count(_name)`
unfoldable pub has_key : References → Name → Bool
has_key [] name = false
has_key ((key, n) ∷ rest) name = string_eq key name || has_key rest name

-- `m_references[_name] = …`
unfoldable pub set_count : References → Name → ℕ → References
set_count [] name value = (name, value) ∷ []
set_count ((key, n) ∷ rest) name value =
    let later = set_count rest name value in
    if string_eq key name then (key, value) ∷ rest else (key, n) ∷ later

-- `++m_references[_name]`
unfoldable pub increment : References → Name → References
increment [] name = (name, 1) ∷ []
increment ((key, n) ∷ rest) name =
    let later = increment rest name in
    if string_eq key name then (key, suc n) ∷ rest else (key, n) ∷ later

unfoldable pub increment_all : References → List Name → References
increment_all references [] = references
increment_all references (n ∷ ns) = increment_all (increment references n) ns

-- The visits, with `m_references` before and after.
unfoldable mutual
  pub count : Expression → References → References
  count (functional_instruction i xs) references = count_each xs references
  count (function_call f xs) references = count_each xs (increment references f)
  count (identifier n) references = increment references n
  count (literal k v t) references = references

  pub count_each : Arguments → References → References
  count_each no_argument references = references
  count_each (argument e xs) references = count e (count_each xs references)

unfoldable pub count_optional : Option Expression → References → References
count_optional none references = references
count_optional (some e) references = count e references

unfoldable mutual
  pub count_statement : Statement → References → References
  count_statement (instruction i) references = references
  count_statement (label n) references = references
  count_statement (stack_assignment n) references = references
  count_statement (assignment ns e) references = count e (increment_all references ns)
  count_statement (variable_declaration vs e) references = count_optional e references
  count_statement (expression_statement e) references = count e references
  count_statement (function_definition f ps rs b) references = count_block b references
  count_statement (if_statement e b) references = count_block b (count e references)
  count_statement (switch e cs) references = count_cases cs (count e references)
  count_statement (for_loop pre e post b) references =
      count_block post (count_block b (count e (count_block pre references)))
  count_statement (block b) references = count_block b references

  pub count_block : Block → References → References
  count_block no_statement references = references
  count_block (statement s b) references = count_block b (count_statement s references)

  pub count_cases : Cases → References → References
  count_cases no_case references = references
  count_cases (case v b cs) references = count_cases cs (count_block b references)
