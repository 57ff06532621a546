-- ===== src/Evmasm/PeepholeOptimiser/Windows/Drop.antt =====
-- libevmasm/PeepholeOptimiser.cpp: `PushPop`, `OpPop` and `DoublePush`.
use lity.Prelude.{
  ℕ, zero, suc, ◌-◌, ◌≡◌, refl, ap, sym, subst, ◌∙◌, Bool, true, false, ◌||◌, Option, none, some,
  List, [], ◌∷◌, ◌++◌, get_elem?, length, replicate, Bool-cases, Option-cases, ◌⊎◌, inl, inr, arith,
}
use lity.Evmasm.Opcode
use lity.Evmasm.Opcode.{Instruction}
use lity.Evmasm.Instruction.{instruction_info, is_dup_instruction, get_dup_number}
use lity.Evmasm.SourceLocation.{SourceLocation}
use lity.Evmasm.AssemblyItem.{
  AssemblyItem, AssemblyItemType, undefined_item, operation, push, push_string, push_tag, push_sub,
  push_sub_size, push_program_size, tag, push_data, push_library_address, type_eq, op, op_at,
  item_eq,
}
use lity.Evmasm.SemanticInformation.{is_dup}
use lity.Evmasm.Machine.{
  continue, fault, Machine, split_at, dup, pure, execute, step_by_type, step, exec,
}
use lity.Evmasm.Machine.Words.{IsSplit, split_at_lem}
use lity.Evmasm.Machine.Runs.Known.{type_eq→eq, step-operation, step-push, step-pop}
use lity.Evmasm.Machine.Runs.Pure.{execute-pure, outputs-one}
use lity.Evmasm.Machine.Runs.Refined.{
  Refined, Refined-fault, Refined-same, exec-continue, exec-fault, exec-two,
}
use lity.Evmasm.PeepholeOptimiser.Methods.{push_pop, op_pop, double_push}

-- The types of item whose push `PushPop` removes.
abbrev is_removable : AssemblyItemType → Bool
is_removable t =
    type_eq t push
    || type_eq t push_string
    || type_eq t push_tag
    || type_eq t push_sub
    || type_eq t push_sub_size
    || type_eq t push_program_size
    || type_eq t push_data
    || type_eq t push_library_address

module _ (m : Machine) where
  open m use {World, Final}

  pushes_by_type :
      (t : AssemblyItemType) (i d : ℕ) (w : World) (s : List ℕ)
      → is_removable t ≡ true
      → (v : ℕ) × (step_by_type m t i d w s ≡ continue w (v ∷ s))
  unfolding step_by_type
  pushes_by_type undefined_item i d w s h = cc
  pushes_by_type operation i d w s h = cc
  pushes_by_type tag i d w s h = cc
  pushes_by_type t i d w s h = (_, refl)

  -- DUPn continues with one more item on the stack, or is a fault.
  dup-pushes :
      (n : ℕ) (w : World) (s : List ℕ)
      → (dup m n w s ≡ fault) ⊎ ((v : ℕ) × (dup m n w s ≡ continue w (v ∷ s)))
  unfolding dup
  dup-pushes n w s = elim (Option-cases (get_elem? s (n - 1))) [
    | inl e ↦ inl (rw (e, dup) refl)
    | inr (v, e) ↦ inr (v, rw (e, dup) refl)
  ]

  execute-dup :
      (i : Instruction) (w : World) (s : List ℕ)
      → is_dup_instruction i ≡ true
      → execute m i w s ≡ dup m (get_dup_number i) w s
  unfolding execute
  execute-dup i w s h = rw h refl

  -- An item that `PushPop` removes continues with one more item on the stack, or is a fault.
  removed-pushes :
      (a : AssemblyItem) (w : World) (s : List ℕ)
      → (is_dup a || is_removable a.type) ≡ true
      → (step m a w s ≡ fault) ⊎ ((v : ℕ) × (step m a w s ≡ continue w (v ∷ s)))
  unfolding is_dup
  removed-pushes a w s h = elim (Bool-cases (is_removable a.type)) [
    | inl e ↦ inr (unfold step in pushes_by_type a.type a.instruction a.data_value w s e)
    | inr e ↦
        let t : type_eq a.type operation ≡ true = ground arith in
        let d : is_dup_instruction a.instruction ≡ true = ground arith in
        let p : step m a w s ≡ dup m (get_dup_number a.instruction) w s =
          step-operation m a a.instruction w s (type_eq→eq _ _ t) refl
          ∙ execute-dup a.instruction w s d in
        elim (dup-pushes (get_dup_number a.instruction) w s) [
          | inl f ↦ inl (p ∙ f)
          | inr (v, c) ↦ inr (v, p ∙ c)
        ]
  ]

  pub push_pop-Refined :
      (a b : AssemblyItem) (out : List AssemblyItem) (w : World) (s : List ℕ)
      → push_pop a b ≡ some out
      → Refined (exec m (a ∷ b ∷ []) w s) (exec m out w s)
  unfolding push_pop
  push_pop-Refined a b out w s h =
      let hb : item_eq b (op Opcode.pop) ≡ true = ground arith in
      let ha : (is_dup a || is_removable a.type) ≡ true = ground arith in
      let ho : [] ≡ out = ground arith in
      subst (λ o. Refined (exec m (a ∷ b ∷ []) w s) (exec m o w s)) ho
        (elim (removed-pushes a w s ha) [
          | inl f ↦ Refined-fault _ _ (exec-fault m a (b ∷ []) w s f)
          | inr (v, c) ↦
              Refined-same _ _ w s (exec-two m a b w w s (v ∷ s) c ∙ step-pop m b w v s hb)
                (unfold exec in refl)
        ])

  -- As many pops as there are items on top.
  exec-pops :
      (n : ℕ) (l : SourceLocation) (w : World) (xs r : List ℕ)
      → length xs ≡ n
      → exec m (replicate n (op_at Opcode.pop l)) w (xs ++ r) ≡ continue w r
  unfolding exec item_eq
  exec-pops zero l w [] r h = refl
  exec-pops zero l w (x ∷ xs) r h = absurd (omega arith)
  exec-pops (suc n) l w [] r h = absurd (omega arith)
  exec-pops (suc n) l w (x ∷ xs) r h =
      exec-continue m (op_at Opcode.pop l) _ w w (x ∷ (xs ++ r)) (xs ++ r)
        (step-pop m (op_at Opcode.pop l) w x (xs ++ r) refl)
      ∙ exec-pops n l w xs r (omega arith)

  -- An instruction without side effects and with one result, after the table.
  pub pure-one :
      (a : AssemblyItem) (w : World) (s : List ℕ)
      → a.type ≡ operation
      → (instruction_info a.instruction).ret ≡ 1
      → (instruction_info a.instruction).side_effects ≡ false
      → (step m a w s ≡ fault)
        ⊎ ((v : ℕ) × (xs : List ℕ) × (r : List ℕ) × (length xs
              ≡ (instruction_info a.instruction).args)
            × (xs ++ r ≡ s)
            × (step m a w s ≡ continue w (v ∷ r)))
  pure-one a w s t e f =
      let i = a.instruction in
      let p : step m a w s ≡ pure m i w s =
        step-operation m a i w s t refl ∙ execute-pure m i w s e f in
      split (split_at (instruction_info i).args s) refl (split_at_lem (instruction_info i).args s) p
    where
      split :
          (o : Option (List ℕ × List ℕ))
          → split_at (instruction_info a.instruction).args s ≡ o
          → IsSplit (instruction_info a.instruction).args s o
          → step m a w s ≡ pure m a.instruction w s
          → (step m a w s ≡ fault)
            ⊎ ((v : ℕ) × (xs : List ℕ) × (r : List ℕ) × (length xs
                  ≡ (instruction_info a.instruction).args)
                × (xs ++ r ≡ s)
                × (step m a w s ≡ continue w (v ∷ r)))
      split none q k p = inl (p ∙ (unfold pure in rw (q, pure) refl))
      split (some (xs, r)) q k p =
          let (v, g) = outputs-one m a.instruction w xs e in
          inr (v, xs, r, k.0, k.1, p ∙ (unfold pure in rw (q, pure, g) refl))

  pub op_pop-Refined :
      (a b : AssemblyItem) (out : List AssemblyItem) (w : World) (s : List ℕ)
      → op_pop a b ≡ some out
      → Refined (exec m (a ∷ b ∷ []) w s) (exec m out w s)
  unfolding op_pop
  op_pop-Refined a b out w s h =
      let n = (instruction_info a.instruction).args in
      let hb : item_eq b (op Opcode.pop) ≡ true = ground arith in
      let t : type_eq a.type operation ≡ true = ground arith in
      let e : (instruction_info a.instruction).ret ≡ 1 = ground arith in
      let f : (instruction_info a.instruction).side_effects ≡ false = ground arith in
      let ho : replicate n (op_at Opcode.pop a.location) ≡ out = ground arith in
      subst (λ o. Refined (exec m (a ∷ b ∷ []) w s) (exec m o w s)) ho
        (elim (pure-one a w s (type_eq→eq _ _ t) e f) [
          | inl g ↦ Refined-fault _ _ (exec-fault m a (b ∷ []) w s g)
          | inr (v, xs, r, k, j, c) ↦
              Refined-same _ _ w r (exec-two m a b w w s (v ∷ r) c ∙ step-pop m b w v r hb) (
                subst (λ z. exec m (replicate n (op_at Opcode.pop a.location)) w z ≡ continue w r) j
                  (exec-pops n a.location w xs r k))
        ])

  execute-dup1 :
      (w : World) (x : ℕ) (s : List ℕ) → execute m Opcode.dup1 w (x ∷ s) ≡ continue w (x ∷ x ∷ s)
  unfolding execute is_dup_instruction get_dup_number
  execute-dup1 w x s = refl

  pub double_push-Refined :
      (a b : AssemblyItem) (out : List AssemblyItem) (w : World) (s : List ℕ)
      → double_push a b ≡ some out
      → Refined (exec m (a ∷ b ∷ []) w s) (exec m out w s)
  unfolding double_push
  double_push-Refined a b out w s h =
      let ta : a.type ≡ push = type_eq→eq _ _ (ground arith) in
      let tb : b.type ≡ push = type_eq→eq _ _ (ground arith) in
      let d : a.data_value ≡ b.data_value = ground arith in
      let ho : (a ∷ op_at Opcode.dup1 b.location ∷ []) ≡ out = ground arith in
      let x = a.data_value in
      subst (λ o. Refined (exec m (a ∷ b ∷ []) w s) (exec m o w s)) ho
        (Refined-same _ _ w (x ∷ x ∷ s)
          (exec-two m a b w w s (x ∷ s) (step-push m a w s ta)
            ∙ step-push m b w (x ∷ s) tb
            ∙ ap (λ y. continue w (y ∷ x ∷ s)) (sym d))
          (exec-two m a (op_at Opcode.dup1 b.location) w w s (x ∷ s) (step-push m a w s ta)
            ∙ step-operation m (op_at Opcode.dup1 b.location) Opcode.dup1 w (x ∷ s) refl refl
            ∙ execute-dup1 w x s))
