-- ===== src/Evmasm/SimplificationRules.antt =====
-- libevmasm/SimplificationRules.cpp: how a pattern matches an expression, and the first rule that does.
-- The classes of expressions give each id its representative.
pub mod Syntax
pub mod Meaning
pub mod Matched
use lity.Prelude.{
  ℕ, Bool, true, false, not, Option, none, some, List, [], ◌∷◌, length, ◌&&◌, ◌||◌, ◌==◌,
  if◌then◌else◌, Result, ok, err, ◌>>=◌, assert_throw, exception, optimizer_exception, suc, zero,
  ◌+◌,
}
use lity.Evmasm.Opcode.{Instruction}
use lity.Evmasm.AssemblyItem.{AssemblyItem, type_eq, push, operation}
use Syntax.{
  Group, group_a, group_b, group_c, group_x, group_y, Pattern, Patterns, constant, matched, apply,
  nil, cons, SimplificationRule,
}

-- `ExpressionClasses::Expression`
pub record Expression : Type 0 where
  pub id : ℕ
  pub item : Option AssemblyItem
  pub arguments : List ℕ
  pub sequence_number : ℕ

-- `m_matchGroups`
abbrev pub Groups : Type 0
Groups = Group → Option Expression

abbrev pub no_groups : Groups
no_groups g = none

abbrev pub group_number : Group → ℕ
group_number group_a = 1
group_number group_b = 2
group_number group_c = 3
group_number group_x = 4
group_number group_y = 5

abbrev pub set_group : Group → Expression → Groups → Groups
set_group g e gs g' = if group_number g' == group_number g then some e else gs g'

-- A, B and C are patterns of the type `Push`, X and Y of `UndefinedItem`.
unfoldable pub matches_base_item : Pattern → Option AssemblyItem → Bool
matches_base_item (matched group_x) o = true
matches_base_item (matched group_y) o = true
matches_base_item p none = false
matches_base_item (matched g) (some it) = type_eq it.type push
matches_base_item (constant n) (some it) = type_eq it.type push && n == it.data_value
matches_base_item (apply i ps) (some it) = type_eq it.type operation && i == it.instruction

-- The match group takes the expression, or has one of its class.
unfoldable pub match_group : Group → Expression → Groups → Option Groups
match_group g e gs = elim (gs g) [
  | none ↦ some (set_group g e gs)
  | some e' ↦ if e'.id == e.id then some gs else none
]

abbrev pub count : Patterns → ℕ
count nil = 0
count (cons p ps) = suc (count ps)

abbrev pub after_match :
    (Groups → Result (Option Groups)) → Result (Option Groups) → Result (Option Groups)
after_match f (err x) = err x
after_match f (ok none) = ok none
after_match f (ok (some gs)) = f gs

unfoldable mutual
  pub matches : (ℕ → Expression) → Pattern → Expression → Groups → Result (Option Groups)
  matches representative (constant n) e gs =
      ok (if matches_base_item (constant n) e.item then some gs else none)
  matches representative (matched g) e gs =
      ok (if matches_base_item (matched g) e.item then match_group g e gs else none)
  matches representative (apply i ps) e gs =
      let rest = matches_all representative ps e.arguments gs in
      if matches_base_item (apply i ps) e.item
      then (if count ps == 0 || length e.arguments == count ps
          then rest
          else err optimizer_exception)
      else ok none

  pub matches_all : (ℕ → Expression) → Patterns → List ℕ → Groups → Result (Option Groups)
  matches_all representative nil args gs = ok (some gs)
  matches_all representative (cons p ps) [] gs = ok none
  matches_all representative (cons p ps) (a ∷ args) gs =
      after_match (λ gs'. matches_all representative ps args gs')
        (matches representative p (representative a) gs)

abbrev pub Found : Type 0
Found = Result (Option (SimplificationRule × Groups))

abbrev pub found : SimplificationRule → Found → Result (Option Groups) → Found
found r rest (err x) = err x
found r rest (ok none) = rest
found r rest (ok (some gs)) = ok (some (r, gs))

-- `m_rules[i]`: the rules whose pattern is the instruction i, in their order.
abbrev pub has_instruction : Instruction → Pattern → Bool
has_instruction i (apply i' ps) = i' == i
has_instruction i p = false

unfoldable pub rules_of : Instruction → List SimplificationRule → List SimplificationRule
rules_of i [] = []
rules_of i (r ∷ rs) =
    let rest = rules_of i rs in if has_instruction i r.pattern then r ∷ rest else rest

unfoldable pub first_match : (ℕ → Expression) → Expression → List SimplificationRule → Found
first_match representative e [] = ok none
first_match representative e (r ∷ rs) =
    found r (first_match representative e rs) (matches representative r.pattern e no_groups)

-- `findFirstMatch`
unfoldable pub find_first_match : (ℕ → Expression) → List SimplificationRule → Expression → Found
unfolding first_match rules_of
find_first_match representative rules e = elim e.item [
  | none ↦ err optimizer_exception
  | some it ↦
      if type_eq it.type operation
      then first_match representative e (rules_of it.instruction rules)
      else err exception
]
