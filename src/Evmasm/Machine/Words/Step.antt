-- ===== src/Evmasm/Machine/Words/Step.antt =====
-- libevmasm/Instruction.h: an item leaves a stack of words, if it found one.
use lity.Prelude.{
  ℕ, ◌-◌, ◌^◌, ◌<◌, ◌≡◌, refl, Bool, true, false, Option, none, some, List, [], ◌∷◌, ◌++◌, ◌==◌,
  if◌then◌else◌, get_elem?, set, arith,
}
use lity.Prelude.Bits.{ones}
use lity.Evmasm.Opcode
use lity.Evmasm.Opcode.{Instruction}
use lity.Evmasm.Word.{constant_value}
use lity.Evmasm.Instruction.{
  instruction_info, is_dup_instruction, is_swap_instruction, get_dup_number, get_swap_number,
}
use lity.Evmasm.AssemblyItem.{
  AssemblyItem, AssemblyItemType, undefined_item, operation, push, push_tag, tag,
}
use lity.Evmasm.Machine.{
  AreWords, Effect, continue, jump_to, stop, fault, Machine, split_at, ends, dup, swap, jump,
  jump_if, end, act, outputs, pure, execute, step_by_type, step, exec,
}
use lity.Evmasm.Machine.Words.{
  IsWord, constant_value-IsWord, AreWords-append, get_elem?-IsWord, set-AreWords, split_at-AreWords,
}

-- The data of every item is a word.
abbrev pub FitItems : List AssemblyItem → Type 0
FitItems [] = Unit
FitItems (it ∷ items) = (it.data_value < 2 ^ 256) × FitItems items

module _ (m : Machine) where
  open m use {World, Final}

  abbrev pub Keeps : Effect World Final → Type 0
  Keeps (continue w s) = AreWords s
  Keeps (jump_to a w s) = AreWords s
  Keeps (stop r) = Unit
  Keeps fault = Unit

  dup-Keeps : (n : ℕ) (w : World) (s : List ℕ) → AreWords s → Keeps (dup m n w s)
  unfolding dup
  dup-Keeps n w s h = copied (get_elem? s (n - 1)) (get_elem?-IsWord s (n - 1) h)
    where
      copied :
          (o : Option ℕ) → IsWord o → Keeps (elim o [ none ↦ fault | some x ↦ continue w (x ∷ s) ])
      copied none k = tt
      copied (some x) k = (k, h)

  swap-Keeps : (n : ℕ) (w : World) (s : List ℕ) → AreWords s → Keeps (swap m n w s)
  unfolding swap
  swap-Keeps n w [] h = tt
  swap-Keeps n w (x ∷ s) h = swapped (get_elem? s (n - 1)) (get_elem?-IsWord s (n - 1) h.1)
    where
      swapped :
          (o : Option ℕ)
          → IsWord o
          → Keeps (elim o [ none ↦ fault | some y ↦ continue w (y ∷ set s (n - 1) x) ])
      swapped none k = tt
      swapped (some y) k = (k, set-AreWords s (n - 1) x h.1 h.0)

  if-Keeps :
      (b : Bool) (e e' : Effect World Final) → Keeps e → Keeps e' → Keeps (if b then e else e')
  if-Keeps true e e' h h' = h
  if-Keeps false e e' h h' = h'

  jump-Keeps : (w : World) (s : List ℕ) → AreWords s → Keeps (jump m w s)
  unfolding jump
  jump-Keeps w [] h = tt
  jump-Keeps w (a ∷ s) h = h.1

  jump_if-Keeps : (w : World) (s : List ℕ) → AreWords s → Keeps (jump_if m w s)
  unfolding jump_if
  jump_if-Keeps w [] h = tt
  jump_if-Keeps w (a ∷ []) h = tt
  jump_if-Keeps w (a ∷ c ∷ s) h = if-Keeps (c == 0) _ _ h.1.1 h.1.1

  end-Keeps : (i : Instruction) (w : World) (s : List ℕ) → Keeps (end m i w s)
  unfolding end
  end-Keeps i w s = ended (m.finish i w s)
    where
      ended : (o : Option Final) → Keeps (elim o [ none ↦ fault | some r ↦ stop r ])
      ended none = tt
      ended (some r) = tt

  act-Keeps : (i : Instruction) (w : World) (s : List ℕ) → AreWords s → Keeps (act m i w s)
  unfolding act
  act-Keeps i w s h = acted (m.effect i w s) (λ w' s' e. m.effect-AreWords i w w' s s' h e)
    where
      acted :
          (o : Option (World × List ℕ))
          → ((w' : World) (s' : List ℕ) → o ≡ some (w', s') → AreWords s')
          → Keeps (elim o [ none ↦ fault | some (w', s') ↦ continue w' s' ])
      acted none k = tt
      acted (some (w', s')) k = k w' s' refl

  outputs-AreWords :
      (i : Instruction) (w : World) (xs : List ℕ) → AreWords xs → AreWords (outputs m i w xs)
  unfolding outputs
  outputs-AreWords i w xs h = chosen (constant_value i xs) (constant_value-IsWord i xs h)
    where
      chosen :
          (o : Option ℕ)
          → IsWord o
          → AreWords (elim o [ none ↦ m.results i w xs | some v ↦ v ∷ [] ])
      chosen none k = m.results-AreWords i w xs h
      chosen (some v) k = (k, tt)

  pure-Keeps : (i : Instruction) (w : World) (s : List ℕ) → AreWords s → Keeps (pure m i w s)
  unfolding pure
  pure-Keeps i w s h =
      taken (split_at (instruction_info i).args s)
        (λ xs r e. split_at-AreWords (instruction_info i).args s xs r h e)
    where
      taken :
          (o : Option (List ℕ × List ℕ))
          → ((xs r : List ℕ) → o ≡ some (xs, r) → AreWords xs × AreWords r)
          → Keeps (elim o [ none ↦ fault | some (xs, r) ↦ continue w (outputs m i w xs ++ r) ])
      taken none k = tt
      taken (some (xs, r)) k =
          let p = k xs r refl in AreWords-append _ r (outputs-AreWords i w xs p.0) p.1

  execute-Keeps : (i : Instruction) (w : World) (s : List ℕ) → AreWords s → Keeps (execute m i w s)
  unfolding execute
  execute-Keeps i w s h = if-Keeps (is_dup_instruction i) _ _ (dup-Keeps (get_dup_number i) w s h) (
      if-Keeps (is_swap_instruction i) _ _ (swap-Keeps (get_swap_number i) w s h) (
        if-Keeps (i == Opcode.jump) _ _ (jump-Keeps w s h) (
          if-Keeps (i == Opcode.jumpi) _ _ (jump_if-Keeps w s h) (
            if-Keeps (ends i) _ _ (end-Keeps i w s) (
              if-Keeps (instruction_info i).side_effects _ _ (act-Keeps i w s h)
                (pure-Keeps i w s h))))))

  address-lt : (t : ℕ) → m.address t < 2 ^ 256
  unfolding ones
  address-lt t = omega (arith, m.address-le t)

  -- An item whose data is a word leaves words on a stack of words.
  pub step-AreWords :
      (it : AssemblyItem) (w : World) (s : List ℕ)
      → it.data_value < 2 ^ 256
      → AreWords s
      → Keeps (step m it w s)
  unfolding step
  step-AreWords it w s d h = by_type it.type
    where
      by_type : (t : AssemblyItemType) → Keeps (step_by_type m t it.instruction it.data_value w s)
      by_type undefined_item = tt
      by_type operation = execute-Keeps it.instruction w s h
      by_type push = (d, h)
      by_type push_tag = (address-lt it.data_value, h)
      by_type tag = h
      by_type t = (m.assigned-lt t it.data_value, h)

  pub exec-AreWords :
      (items : List AssemblyItem) (w : World) (s : List ℕ)
      → FitItems items
      → AreWords s
      → Keeps (exec m items w s)
  unfolding exec
  exec-AreWords [] w s f h = h
  exec-AreWords (it ∷ items) w s f h =
      after (step m it w s) (step-AreWords it w s f.0 h)
        (λ w' s' h'. exec-AreWords items w' s' f.1 h')
    where
      after :
          (e : Effect World Final)
          → Keeps e
          → ((w' : World) (s' : List ℕ) → AreWords s' → Keeps (exec m items w' s'))
          → Keeps (elim e [
            | continue w' s' ↦ exec m items w' s'
            | jump_to a w' s' ↦ jump_to a w' s'
            | stop r ↦ stop r
            | fault ↦ fault
          ])
      after (continue w' s') k rest = rest w' s' k
      after (jump_to a w' s') k rest = k
      after (stop r) k rest = tt
      after fault k rest = tt
