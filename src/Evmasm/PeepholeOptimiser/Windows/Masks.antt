-- ===== src/Evmasm/PeepholeOptimiser/Windows/Masks.antt =====
-- libevmasm/PeepholeOptimiser.cpp: `TagConjunctions` and `TruthyAnd`.
use lity.Prelude.{ℕ, ◌^◌, ◌<◌, ◌≡◌, refl, ap, subst, ◌∙◌, true, some, List, [], ◌∷◌, bit_and, arith}
use lity.Prelude.Bits.{ones, bit_and_comm, bit_and-mask}
use lity.Evmasm.Opcode
use lity.Evmasm.Opcode.{Instruction}
use lity.Evmasm.Word.{constant_value, max_word, complement}
use lity.Evmasm.Instruction.{instruction_info, is_dup_instruction, is_swap_instruction}
use lity.Evmasm.AssemblyItem.{AssemblyItem, push, push_tag, op, item_eq}
use lity.Evmasm.Machine.{AreWords, continue, fault, Machine, execute, step, exec}
use lity.Evmasm.Machine.Runs.Known.{
  type_eq→eq, item_eq-op, step-operation, step-push, step-push_tag,
}
use lity.Evmasm.Machine.Runs.Refined.{
  Refined, Refined-fault, Refined-same, exec-continue, exec-one, exec-two,
}
use lity.Evmasm.PeepholeOptimiser.Methods.{tag_conjunctions, truthy_and}

module _ (m : Machine) where
  open m use {World, Final}

  execute-and :
      (w : World) (x y : ℕ) (s : List ℕ)
      → execute m Opcode.and w (x ∷ y ∷ s) ≡ continue w (bit_and x y ∷ s)
  unfolding execute instruction_info is_dup_instruction is_swap_instruction constant_value
  execute-and w x y s = refl

  execute-and_short : (w : World) (x : ℕ) → execute m Opcode.and w (x ∷ []) ≡ fault
  unfolding execute instruction_info is_dup_instruction is_swap_instruction
  execute-and_short w x = refl

  execute-not :
      (w : World) (x : ℕ) (s : List ℕ)
      → execute m Opcode.not w (x ∷ s) ≡ continue w (complement x ∷ s)
  unfolding execute instruction_info is_dup_instruction is_swap_instruction constant_value
  execute-not w x s = refl

  step-op :
      (it : AssemblyItem) (i : Instruction) (w : World) (s : List ℕ)
      → item_eq it (op i) ≡ true
      → step m it w s ≡ execute m i w s
  step-op it i w s h = let p = item_eq-op it i h in step-operation m it i w s p.0 p.1

  -- The address of a tag passes a mask whose lowest 32 digits are ones.
  masked-address :
      (t c : ℕ) → bit_and c 0xffff_ffff ≡ 0xffff_ffff → bit_and c (m.address t) ≡ m.address t
  unfolding ones
  masked-address t c h =
      bit_and_comm c (m.address t) ∙ bit_and-mask 32 (m.address t) c h (m.address-le t)

  pub tag_conjunctions-Refined :
      (a b c : AssemblyItem) (out : List AssemblyItem) (w : World) (s : List ℕ)
      → tag_conjunctions a b c ≡ some out
      → Refined (exec m (a ∷ b ∷ c ∷ []) w s) (exec m out w s)
  unfolding tag_conjunctions
  tag_conjunctions-Refined a b c out w s h =
      let ta : a.type ≡ push_tag = type_eq→eq _ _ (ground arith) in
      let tb : b.type ≡ push = type_eq→eq _ _ (ground arith) in
      let hc : item_eq c (op Opcode.and) ≡ true = ground arith in
      let mask : bit_and b.data_value 0xffff_ffff ≡ 0xffff_ffff = ground arith in
      let ho : (a ∷ []) ≡ out = ground arith in
      let x = m.address a.data_value in
      subst (λ o. Refined (exec m (a ∷ b ∷ c ∷ []) w s) (exec m o w s)) ho
        (Refined-same _ _ w (x ∷ s)
          (exec-continue m a (b ∷ c ∷ []) w w s (x ∷ s) (step-push_tag m a w s ta)
            ∙ exec-two m b c w w (x ∷ s) (b.data_value ∷ x ∷ s) (step-push m b w (x ∷ s) tb)
            ∙ step-op c Opcode.and w (b.data_value ∷ x ∷ s) hc
            ∙ execute-and w b.data_value x s
            ∙ ap (λ v. continue w (v ∷ s)) (masked-address a.data_value b.data_value mask))
          (exec-one m a w s ∙ step-push_tag m a w s ta))

  masked-word : (x : ℕ) → x < 2 ^ 256 → bit_and max_word x ≡ x
  unfolding ones
  masked-word x h = bit_and_comm max_word x ∙ bit_and-mask 256 x max_word refl (omega arith)

  pub truthy_and-Refined :
      (a b c : AssemblyItem) (out : List AssemblyItem) (w : World) (s : List ℕ)
      → AreWords s
      → truthy_and a b c ≡ some out
      → Refined (exec m (a ∷ b ∷ c ∷ []) w s) (exec m out w s)
  unfolding truthy_and
  truthy_and-Refined a b c out w s words h =
      let ta : a.type ≡ push = type_eq→eq _ _ (ground arith) in
      let d : a.data_value ≡ 0 = ground arith in
      let hb : item_eq b (op Opcode.not) ≡ true = ground arith in
      let hc : item_eq c (op Opcode.and) ≡ true = ground arith in
      let ho : [] ≡ out = ground arith in
      let start : exec m (a ∷ b ∷ c ∷ []) w s ≡ step m c w (max_word ∷ s) =
        exec-continue m a (b ∷ c ∷ []) w w s (0 ∷ s)
          (step-push m a w s ta ∙ ap (λ v. continue w (v ∷ s)) d)
        ∙ exec-two m b c w w (0 ∷ s) (max_word ∷ s)
            (step-op b Opcode.not w (0 ∷ s) hb ∙ execute-not w 0 s) in
      subst (λ o. Refined (exec m (a ∷ b ∷ c ∷ []) w s) (exec m o w s)) ho
        (by_stack s words (start ∙ step-op c Opcode.and w (max_word ∷ s) hc))
    where
      by_stack :
          (s₁ : List ℕ)
          → AreWords s₁
          → exec m (a ∷ b ∷ c ∷ []) w s₁ ≡ execute m Opcode.and w (max_word ∷ s₁)
          → Refined (exec m (a ∷ b ∷ c ∷ []) w s₁) (exec m [] w s₁)
      by_stack [] k p = Refined-fault _ _ (p ∙ execute-and_short w max_word)
      by_stack (x ∷ r) k p =
          Refined-same _ _ w (x ∷ r)
            (p ∙ execute-and w max_word x r ∙ ap (λ v. continue w (v ∷ r)) (masked-word x k.0))
            (unfold exec in refl)
