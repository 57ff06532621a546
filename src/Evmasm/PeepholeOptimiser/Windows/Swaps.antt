-- ===== src/Evmasm/PeepholeOptimiser/Windows/Swaps.antt =====
-- libevmasm/PeepholeOptimiser.cpp: `DoubleSwap`, `CommutativeSwap` and `SwapComparison`.
use native.Mathlib.Nat.{add_comm, mul_comm}
use lity.Prelude.{
  ℕ, ◌-◌, ◌%◌, ◌≡◌, refl, ap, sym, subst, ◌∙◌, true, ◌&&◌, some, List, [], ◌∷◌, ◌==◌, get_elem?,
  set, Bool-cases, Option-cases, ◌⊎◌, inl, inr, arith, ==_iff,
}
use lity.Evmasm.Opcode
use lity.Evmasm.Opcode.{Instruction}
use lity.Evmasm.Word.{constant_value, word_mod}
use lity.Prelude.Bits.{bit_and_comm, bit_or_comm, bit_xor_comm}
use lity.Evmasm.Instruction.{
  instruction_info, is_dup_instruction, is_swap_instruction, get_swap_number,
}
use lity.Evmasm.AssemblyItem.{AssemblyItem, operation, type_eq, op, item_eq}
use lity.Evmasm.SemanticInformation.{one_of, is_swap, is_commutative_operation}
use lity.Evmasm.Machine.{continue, fault, Machine, swap, execute, step, exec}
use lity.Evmasm.Machine.Runs.Stack.{get_elem?-set, set-set}
use lity.Evmasm.Machine.Runs.Known.{type_eq→eq, step-operation}
use lity.Evmasm.Machine.Runs.Refined.{
  Refined, Refined-fault, Refined-same, exec-fault, exec-one, exec-two,
}
use lity.Evmasm.PeepholeOptimiser.Methods.{
  double_swap, commutative_swap, swap_comparison, swappable_op,
}

-- An instruction among those listed has what they all have.
abbrev AllHave : (Instruction → Type 0) → List Instruction → Type 0
AllHave P [] = Unit
AllHave P (x ∷ xs) = P x × AllHave P xs

one_of-elim :
    (P : Instruction → Type 0) (xs : List Instruction) (i : Instruction)
    → one_of xs i ≡ true
    → AllHave P xs
    → P i
one_of-elim P [] i h a = cc
one_of-elim P (x ∷ xs) i h a = elim (Bool-cases (i == x)) [
  | inl e ↦ subst P (sym ((==_iff i x).0 e)) a.0
  | inr e ↦ one_of-elim P xs i (ground arith) a.1
]

module _ (m : Machine) where
  open m use {World, Final}

  execute-swap :
      (i : Instruction) (w : World) (s : List ℕ)
      → is_swap_instruction i ≡ true
      → execute m i w s ≡ swap m (get_swap_number i) w s
  unfolding execute is_dup_instruction is_swap_instruction
  execute-swap i w s h = ground arith

  -- SWAPn is a fault, or undone by another.
  swap-swap :
      (n : ℕ) (w : World) (s : List ℕ)
      → (swap m n w s ≡ fault)
        ⊎ ((s' : List ℕ) × (swap m n w s ≡ continue w s') × (swap m n w s' ≡ continue w s))
  unfolding swap
  swap-swap n w [] = inl refl
  swap-swap n w (x ∷ s) = elim (Option-cases (get_elem? s (n - 1))) [
    | inl e ↦ inl (rw (e, swap) refl)
    | inr (y, e) ↦ inr (
      y ∷ set s (n - 1) x,
      rw (e, swap) refl,
      rw (get_elem?-set s (n - 1) x y e, swap)
          (ap (λ l. continue w (x ∷ l)) (set-set s (n - 1) x y e)),
    )
  ]

  pub double_swap-Refined :
      (a b : AssemblyItem) (out : List AssemblyItem) (w : World) (s : List ℕ)
      → double_swap a b ≡ some out
      → Refined (exec m (a ∷ b ∷ []) w s) (exec m out w s)
  unfolding double_swap item_eq is_swap
  double_swap-Refined a b out w s h =
      let ta : a.type ≡ operation = type_eq→eq _ _ (ground arith) in
      let tb : b.type ≡ operation = type_eq→eq _ _ (ground arith) in
      let same : b.instruction ≡ a.instruction = ground arith in
      let i : is_swap_instruction a.instruction ≡ true = ground arith in
      let ho : [] ≡ out = ground arith in
      let n = get_swap_number a.instruction in
      let first : (s₁ : List ℕ) → step m a w s₁ ≡ swap m n w s₁ =
        λ s₁. step-operation m a a.instruction w s₁ ta refl ∙ execute-swap _ w s₁ i in
      let second : (s₁ : List ℕ) → step m b w s₁ ≡ swap m n w s₁ =
        λ s₁. step-operation m b a.instruction w s₁ tb same ∙ execute-swap _ w s₁ i in
      subst (λ o. Refined (exec m (a ∷ b ∷ []) w s) (exec m o w s)) ho
        (elim (swap-swap n w s) [
          | inl f ↦ Refined-fault _ _ (exec-fault m a (b ∷ []) w s (first s ∙ f))
          | inr (s', c, d) ↦
              Refined-same _ _ w s (exec-two m a b w w s s' (first s ∙ c) ∙ second s' ∙ d)
                (unfold exec in refl)
        ])

  execute-swap1 :
      (w : World) (x y : ℕ) (s : List ℕ)
      → execute m Opcode.swap1 w (x ∷ y ∷ s) ≡ continue w (y ∷ x ∷ s)
  unfolding execute is_dup_instruction is_swap_instruction get_swap_number
  execute-swap1 w x y s = refl

  -- The second does with two operands what the first does with them the other way round.
  abbrev Mirrors : Instruction → Instruction → Type 0
  Mirrors i j =
      (w : World) (x y : ℕ) (s : List ℕ)
      → (s' : List ℕ) × (execute m i w (y ∷ x ∷ s) ≡ continue w s')
        × (execute m j w (x ∷ y ∷ s) ≡ continue w s')

  add-Mirrors : Mirrors Opcode.add Opcode.add
  unfolding execute instruction_info is_dup_instruction is_swap_instruction constant_value
  add-Mirrors w x y s = (_, refl, ap (λ n. continue w ((n % word_mod) ∷ s)) (add_comm x y))

  mul-Mirrors : Mirrors Opcode.mul Opcode.mul
  unfolding execute instruction_info is_dup_instruction is_swap_instruction constant_value
  mul-Mirrors w x y s = (_, refl, ap (λ n. continue w ((n % word_mod) ∷ s)) (mul_comm x y))

  eq-Mirrors : Mirrors Opcode.eq Opcode.eq
  unfolding execute instruction_info is_dup_instruction is_swap_instruction constant_value
  eq-Mirrors w x y s = (_, refl, ground arith)

  and-Mirrors : Mirrors Opcode.and Opcode.and
  unfolding execute instruction_info is_dup_instruction is_swap_instruction constant_value
  and-Mirrors w x y s = (_, refl, ap (λ n. continue w (n ∷ s)) (bit_and_comm x y))

  or-Mirrors : Mirrors Opcode.or Opcode.or
  unfolding execute instruction_info is_dup_instruction is_swap_instruction constant_value
  or-Mirrors w x y s = (_, refl, ap (λ n. continue w (n ∷ s)) (bit_or_comm x y))

  xor-Mirrors : Mirrors Opcode.xor Opcode.xor
  unfolding execute instruction_info is_dup_instruction is_swap_instruction constant_value
  xor-Mirrors w x y s = (_, refl, ap (λ n. continue w (n ∷ s)) (bit_xor_comm x y))

  lt-Mirrors : Mirrors Opcode.lt Opcode.gt
  unfolding execute instruction_info is_dup_instruction is_swap_instruction constant_value
  lt-Mirrors w x y s = (_, refl, refl)

  gt-Mirrors : Mirrors Opcode.gt Opcode.lt
  unfolding execute instruction_info is_dup_instruction is_swap_instruction constant_value
  gt-Mirrors w x y s = (_, refl, refl)

  slt-Mirrors : Mirrors Opcode.slt Opcode.sgt
  unfolding execute instruction_info is_dup_instruction is_swap_instruction constant_value
  slt-Mirrors w x y s = (_, refl, refl)

  sgt-Mirrors : Mirrors Opcode.sgt Opcode.slt
  unfolding execute instruction_info is_dup_instruction is_swap_instruction constant_value
  sgt-Mirrors w x y s = (_, refl, refl)

  short_0 : (w : World) → execute m Opcode.swap1 w [] ≡ fault
  unfolding execute is_dup_instruction is_swap_instruction get_swap_number
  short_0 w = refl

  short_1 : (w : World) (x : ℕ) → execute m Opcode.swap1 w (x ∷ []) ≡ fault
  unfolding execute is_dup_instruction is_swap_instruction get_swap_number
  short_1 w x = refl

  -- SWAP1 before an operation may go if the operation's mirror takes its place.
  swapped-Refined :
      (a b c : AssemblyItem) (w : World) (s : List ℕ)
      → (type_eq a.type operation && a.instruction == Opcode.swap1) ≡ true
      → b.type ≡ operation
      → c.type ≡ operation
      → Mirrors b.instruction c.instruction
      → Refined (exec m (a ∷ b ∷ []) w s) (exec m (c ∷ []) w s)
  swapped-Refined a b c w s h tb tc mirrors =
      by_stack s
        (λ s₁. step-operation m a Opcode.swap1 w s₁ (type_eq→eq _ _ (ground arith)) (ground arith))
    where
      by_stack :
          (s₁ : List ℕ)
          → ((s₂ : List ℕ) → step m a w s₂ ≡ execute m Opcode.swap1 w s₂)
          → Refined (exec m (a ∷ b ∷ []) w s₁) (exec m (c ∷ []) w s₁)
      by_stack [] p = Refined-fault _ _ (exec-fault m a (b ∷ []) w [] (p [] ∙ short_0 w))
      by_stack (x ∷ []) p =
          Refined-fault _ _ (exec-fault m a (b ∷ []) w (x ∷ []) (p (x ∷ []) ∙ short_1 w x))
      by_stack (x ∷ y ∷ r) p =
          let (s', e, f) = mirrors w x y r in
          Refined-same _ _ w s'
            (exec-two m a b w w (x ∷ y ∷ r) (y ∷ x ∷ r) (p (x ∷ y ∷ r) ∙ execute-swap1 w x y r)
              ∙ step-operation m b b.instruction w (y ∷ x ∷ r) tb refl
              ∙ e)
            (exec-one m c w (x ∷ y ∷ r)
              ∙ step-operation m c c.instruction w (x ∷ y ∷ r) tc refl
              ∙ f)

  pub commutative_swap-Refined :
      (a b : AssemblyItem) (out : List AssemblyItem) (w : World) (s : List ℕ)
      → commutative_swap a b ≡ some out
      → Refined (exec m (a ∷ b ∷ []) w s) (exec m out w s)
  unfolding commutative_swap is_commutative_operation
  commutative_swap-Refined a b out w s h =
      let tb : b.type ≡ operation = type_eq→eq _ _ (ground arith) in
      let ho : (b ∷ []) ≡ out = ground arith in
      let i : one_of
            (Opcode.add ∷ Opcode.mul ∷ Opcode.eq ∷ Opcode.and ∷ Opcode.or ∷ Opcode.xor ∷ [])
            b.instruction
          ≡ true =
        ground arith in
      subst (λ o. Refined (exec m (a ∷ b ∷ []) w s) (exec m o w s)) ho
        (swapped-Refined a b b w s (ground arith) tb tb (
          one_of-elim (λ j. Mirrors j j)
            (Opcode.add ∷ Opcode.mul ∷ Opcode.eq ∷ Opcode.and ∷ Opcode.or ∷ Opcode.xor ∷ [])
            b.instruction i
            (
              add-Mirrors,
              (mul-Mirrors, (eq-Mirrors, (and-Mirrors, (or-Mirrors, (xor-Mirrors, tt))))),
            )))

  moved : (i j a b : Instruction) → i ≡ a → b ≡ j → Mirrors a b → Mirrors i j
  moved i j a b e f h = subst (λ k. Mirrors i k) f (subst (λ k. Mirrors k b) (sym e) h)

  swappable-Mirrors : (i j : Instruction) → swappable_op i ≡ some j → Mirrors i j
  swappable-Mirrors i j h = elim (Bool-cases (i == Opcode.lt)) [
    | inl e ↦ moved i j Opcode.lt Opcode.gt (ground arith) (ground arith) lt-Mirrors
    | inr e₁ ↦ elim (Bool-cases (i == Opcode.gt)) [
      | inl e ↦ moved i j Opcode.gt Opcode.lt (ground arith) (ground arith) gt-Mirrors
      | inr e₂ ↦ elim (Bool-cases (i == Opcode.slt)) [
        | inl e ↦ moved i j Opcode.slt Opcode.sgt (ground arith) (ground arith) slt-Mirrors
        | inr e₃ ↦ elim (Bool-cases (i == Opcode.sgt)) [
          | inl e ↦ moved i j Opcode.sgt Opcode.slt (ground arith) (ground arith) sgt-Mirrors
          | inr e₄ ↦ absurd (ground arith)
        ]
      ]
    ]
  ]

  pub swap_comparison-Refined :
      (a b : AssemblyItem) (out : List AssemblyItem) (w : World) (s : List ℕ)
      → swap_comparison a b ≡ some out
      → Refined (exec m (a ∷ b ∷ []) w s) (exec m out w s)
  unfolding swap_comparison
  swap_comparison-Refined a b out w s h = elim (Option-cases (swappable_op b.instruction)) [
    | inl e ↦ absurd (ground arith)
    | inr (j, e) ↦
        let ho : (op j ∷ []) ≡ out = ground arith in
        subst (λ o. Refined (exec m (a ∷ b ∷ []) w s) (exec m o w s)) ho
          (swapped-Refined a b (op j) w s (ground arith) (type_eq→eq _ _ (ground arith)) refl
            (swappable-Mirrors b.instruction j e))
  ]
