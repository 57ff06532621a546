-- ===== src/Evmasm/SimplificationRules/Meaning.antt =====
-- libevmasm/SimplificationRules.cpp: what expressions, classes and match groups mean.
use lity.Prelude.{
  ℕ, ◌≡◌, refl, sym, ap, ◌∙◌, Option, none, some, [], length, map, ◌==◌, if◌then◌else◌, Bool-cases,
  inl, inr, arith,
}
use lity.Evmasm.Opcode
use lity.Evmasm.Opcode.{Instruction}
use lity.Evmasm.Instruction.{instruction_info}
use lity.Evmasm.AssemblyItem.{AssemblyItem, type_eq, push, operation}
use lity.Evmasm.SimplificationRules.{Expression, Groups, group_number, set_group}
use lity.Evmasm.SimplificationRules.Syntax.{
  Group, group_a, group_b, group_c, group_x, group_y, value,
}

module _ (environment : Instruction → ℕ) where
  -- What an expression with the value u is: the data of a push; and of an operation, of as many
  -- arguments as the table says, the result, where that is known.
  pub record IsMeaning (mean : ℕ → ℕ) (e : Expression) (u : ℕ) : Type 0 where
    pub of_push : (it : AssemblyItem) → e.item ≡ some it → it.type ≡ push → u ≡ it.data_value
    pub of_operation :
        (it : AssemblyItem)
        → e.item ≡ some it
        → it.type ≡ operation
        → (length e.arguments ≡ (instruction_info it.instruction).args)
          × ((v : ℕ) → value environment it.instruction (map mean e.arguments) ≡ some v → u ≡ v)

  -- Every class has its id and one value.
  abbrev pub Consistent : (ℕ → Expression) → (ℕ → ℕ) → Type 0
  Consistent representative mean =
      (a : ℕ) → ((representative a).id ≡ a) × IsMeaning mean (representative a) (mean a)

-- `d()`: the data of the matched push, and what else is matched has the value of its class.
abbrev pub item_data : ℕ → Option AssemblyItem → ℕ
item_data u none = u
item_data u (some it) = if type_eq it.type push then it.data_value else u

abbrev pub of_group : (ℕ → ℕ) → Option Expression → ℕ
of_group mean none = 0
of_group mean (some e) = item_data (mean e.id) e.item

unfoldable pub group_data : (ℕ → ℕ) → Groups → Group → ℕ
group_data mean gs g = of_group mean (gs g)

pub group_data-none :
    (mean : ℕ → ℕ) (gs : Groups) (g : Group) → gs g ≡ none → group_data mean gs g ≡ 0
unfolding group_data
group_data-none mean gs g n = rw n refl

abbrev pub Extends : Groups → Groups → Type 0
Extends gs gs' = (g : Group) (e : Expression) → gs g ≡ some e → gs' g ≡ some e

group_of : ℕ → Group
group_of n =
    if n == 1
    then group_a
    else (if n == 2
        then group_b
        else (if n == 3 then group_c else (if n == 4 then group_x else group_y)))

group_of-number : (g : Group) → group_of (group_number g) ≡ g
unfolding group_of
group_of-number group_a = refl
group_of-number group_b = refl
group_of-number group_c = refl
group_of-number group_x = refl
group_of-number group_y = refl

pub group_number-injective : (g g' : Group) → group_number g ≡ group_number g' → g ≡ g'
group_number-injective g g' h = sym (group_of-number g) ∙ ap group_of h ∙ group_of-number g'

pub set_group-Extends :
    (g : Group) (e : Expression) (gs : Groups) → gs g ≡ none → Extends gs (set_group g e gs)
set_group-Extends g e gs n g' e' h = elim (Bool-cases (group_number g' == group_number g)) [
  | inl t ↦ let same = group_number-injective g' g (ground arith) in absurd (cc (n, h, ap gs same))
  | inr t ↦ ground arith
]

pub set_group_self : (g : Group) (e : Expression) (gs : Groups) → set_group g e gs g ≡ some e
set_group_self g e gs = ground arith

-- An instruction without operands that is known takes none in the table.
pub known_nullary :
    (environment : Instruction → ℕ) (i : Instruction) (v : ℕ)
    → value environment i [] ≡ some v
    → (instruction_info i).args ≡ 0
unfolding value instruction_info
known_nullary environment i v h = elim (Bool-cases (i == Opcode.address)) [
  | inl e ↦ let k : i ≡ Opcode.address = ground arith in rw k refl
  | inr e₁ ↦ elim (Bool-cases (i == Opcode.caller)) [
    | inl e ↦ let k : i ≡ Opcode.caller = ground arith in rw k refl
    | inr e₂ ↦ elim (Bool-cases (i == Opcode.origin)) [
      | inl e ↦ let k : i ≡ Opcode.origin = ground arith in rw k refl
      | inr e₃ ↦ elim (Bool-cases (i == Opcode.coinbase)) [
        | inl e ↦ let k : i ≡ Opcode.coinbase = ground arith in rw k refl
        | inr e₄ ↦ absurd (ground arith)
      ]
    ]
  ]
]
