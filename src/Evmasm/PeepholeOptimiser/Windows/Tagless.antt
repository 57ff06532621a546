-- ===== src/Evmasm/PeepholeOptimiser/Windows/Tagless.antt =====
-- libevmasm/PeepholeOptimiser.cpp: a window that a method takes holds no tag, nor does what it writes.
use lity.Prelude.{
  ℕ, zero, suc, ◌≡◌, refl, subst, Bool, true, not, ◌&&◌, some, List, [], ◌∷◌, replicate,
  Option-cases, inl, inr, arith,
}
use lity.Evmasm.Opcode
use lity.Evmasm.Instruction.{instruction_info}
use lity.Evmasm.SourceLocation.{SourceLocation}
use lity.Evmasm.AssemblyItem.{AssemblyItem, tag, type_eq, op, op_at, item_eq}
use lity.Evmasm.SemanticInformation.{is_dup, is_swap, is_commutative_operation}
use lity.Evmasm.PeepholeOptimiser.Methods.{
  push_pop, op_pop, double_swap, double_push, commutative_swap, swap_comparison, swappable_op,
  tag_conjunctions, truthy_and,
}

-- No tag is among the items.
abbrev pub tagless : List AssemblyItem → Bool
tagless [] = true
tagless (it ∷ items) = not (type_eq it.type tag) && tagless items

-- The tests below read the types alone.
pop-tagless : (n : ℕ) (l : SourceLocation) → tagless (replicate n (op_at Opcode.pop l)) ≡ true
pop-tagless zero l = refl
pop-tagless (suc n) l = pop-tagless n l

pub push_pop-tagless :
    (a b : AssemblyItem) (out : List AssemblyItem)
    → push_pop a b ≡ some out
    → (tagless (a ∷ b ∷ []) ≡ true) × (tagless out ≡ true)
unfolding push_pop item_eq is_dup
push_pop-tagless a b out h = ground arith

pub op_pop-tagless :
    (a b : AssemblyItem) (out : List AssemblyItem)
    → op_pop a b ≡ some out
    → (tagless (a ∷ b ∷ []) ≡ true) × (tagless out ≡ true)
unfolding op_pop item_eq
op_pop-tagless a b out h =
    let ho : replicate (instruction_info a.instruction).args (op_at Opcode.pop a.location) ≡ out =
      ground arith in
    (
      ground arith,
      subst (λ o. tagless o ≡ true) ho
          (pop-tagless (instruction_info a.instruction).args a.location),
    )

pub double_push-tagless :
    (a b : AssemblyItem) (out : List AssemblyItem)
    → double_push a b ≡ some out
    → (tagless (a ∷ b ∷ []) ≡ true) × (tagless out ≡ true)
unfolding double_push
double_push-tagless a b out h =
    let ho : (a ∷ op_at Opcode.dup1 b.location ∷ []) ≡ out = ground arith in
    (ground arith, subst (λ o. tagless o ≡ true) ho (ground arith))

pub double_swap-tagless :
    (a b : AssemblyItem) (out : List AssemblyItem)
    → double_swap a b ≡ some out
    → (tagless (a ∷ b ∷ []) ≡ true) × (tagless out ≡ true)
unfolding double_swap item_eq is_swap
double_swap-tagless a b out h = ground arith

pub commutative_swap-tagless :
    (a b : AssemblyItem) (out : List AssemblyItem)
    → commutative_swap a b ≡ some out
    → (tagless (a ∷ b ∷ []) ≡ true) × (tagless out ≡ true)
unfolding commutative_swap is_commutative_operation
commutative_swap-tagless a b out h =
    let ho : (b ∷ []) ≡ out = ground arith in
    (ground arith, subst (λ o. tagless o ≡ true) ho (ground arith))

pub swap_comparison-tagless :
    (a b : AssemblyItem) (out : List AssemblyItem)
    → swap_comparison a b ≡ some out
    → (tagless (a ∷ b ∷ []) ≡ true) × (tagless out ≡ true)
unfolding swap_comparison
swap_comparison-tagless a b out h = elim (Option-cases (swappable_op b.instruction)) [
  | inl e ↦ absurd (ground arith)
  | inr (j, e) ↦
      let ho : (op j ∷ []) ≡ out = ground arith in
      (ground arith, subst (λ o. tagless o ≡ true) ho refl)
]

pub tag_conjunctions-tagless :
    (a b c : AssemblyItem) (out : List AssemblyItem)
    → tag_conjunctions a b c ≡ some out
    → (tagless (a ∷ b ∷ c ∷ []) ≡ true) × (tagless out ≡ true)
unfolding tag_conjunctions item_eq
tag_conjunctions-tagless a b c out h =
    let ho : (a ∷ []) ≡ out = ground arith in
    (ground arith, subst (λ o. tagless o ≡ true) ho (ground arith))

pub truthy_and-tagless :
    (a b c : AssemblyItem) (out : List AssemblyItem)
    → truthy_and a b c ≡ some out
    → (tagless (a ∷ b ∷ c ∷ []) ≡ true) × (tagless out ≡ true)
unfolding truthy_and item_eq
truthy_and-tagless a b c out h = ground arith
