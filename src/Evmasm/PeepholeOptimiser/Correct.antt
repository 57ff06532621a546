-- ===== src/Evmasm/PeepholeOptimiser/Correct.antt =====
-- libevmasm/PeepholeOptimiser.cpp: the optimiser keeps what a program does.
use lity.Prelude.{
  ℕ, zero, suc, ◌≡◌, refl, subst, Bool, true, false, Option, none, some, List, [], ◌∷◌, ◌++◌,
  Bool-cases, ◌⊎◌, inl, inr, arith, ok,
}
use lity.Evmasm.Opcode
use lity.Evmasm.Opcode.{Instruction}
use lity.Evmasm.Instruction.{is_dup_instruction, is_swap_instruction}
use lity.Evmasm.AssemblyItem.{AssemblyItem, op, item_eq}
use lity.Evmasm.Machine.{
  AreWords, Effect, continue, stop, fault, Machine, jump, end, execute, step, stopped, run,
}
use lity.Evmasm.Machine.Words.Step.{FitItems}
use lity.Evmasm.Machine.Runs.Known.{item_eq-op, step-operation}
use lity.Evmasm.PeepholeOptimiser.{optimised_items, optimise}
use lity.Evmasm.PeepholeOptimiser.Methods.{is_terminator}
use lity.Evmasm.PeepholeOptimiser.Rewrites.{
  Rewrite, window, next_tag, unreachable, one, apply_methods-Rewrite,
}
use lity.Evmasm.PeepholeOptimiser.Rounds.{
  apply_methods-total, optimised_items-empty, optimised_items-round,
}
use lity.Evmasm.PeepholeOptimiser.Positions.{distinct_tags}
use lity.Evmasm.PeepholeOptimiser.Simulation.{Known, follow_window, follow_next_tag, follow_one}

module _ (m : Machine) where
  open m use {World, Final}

  abbrev GoesOn : Effect World Final → Type 0
  GoesOn (continue w s) = Unit
  GoesOn _ = ⊥

  not-GoesOn-jump : (w : World) (s : List ℕ) → ¬ GoesOn (jump m w s)
  unfolding jump
  not-GoesOn-jump w [] h = h
  not-GoesOn-jump w (a ∷ s) h = h

  not-GoesOn-end : (i : Instruction) (w : World) (s : List ℕ) → ¬ GoesOn (end m i w s)
  unfolding end
  not-GoesOn-end i w s h = ended (m.finish i w s) h
    where
      ended : (o : Option Final) → ¬ GoesOn (elim o [ none ↦ fault | some r ↦ stop r ])
      ended none h = h
      ended (some r) h = h

  -- After the instructions that `UnreachableCode` looks for the code does not go on.
  not-GoesOn-terminator :
      (it : AssemblyItem) (w : World) (s : List ℕ)
      → is_terminator it ≡ true
      → ¬ GoesOn (step m it w s)
  unfolding is_terminator execute is_dup_instruction is_swap_instruction
  not-GoesOn-terminator it w s h g = elim (Bool-cases (item_eq it (op Opcode.jump))) [
    | inl e ↦ not-GoesOn-jump w s (ran Opcode.jump e g)
    | inr e₁ ↦ elim (Bool-cases (item_eq it (op Opcode.return))) [
      | inl e ↦ not-GoesOn-end Opcode.return w s (ran Opcode.return e g)
      | inr e₂ ↦ elim (Bool-cases (item_eq it (op Opcode.stop))) [
        | inl e ↦ not-GoesOn-end Opcode.stop w s (ran Opcode.stop e g)
        | inr e₃ ↦ elim (Bool-cases (item_eq it (op Opcode.invalid))) [
          | inl e ↦ not-GoesOn-end Opcode.invalid w s (ran Opcode.invalid e g)
          | inr e₄ ↦ elim (Bool-cases (item_eq it (op Opcode.selfdestruct))) [
            | inl e ↦ not-GoesOn-end Opcode.selfdestruct w s (ran Opcode.selfdestruct e g)
            | inr e₅ ↦ not-GoesOn-end Opcode.revert w s (ran Opcode.revert (ground arith) g)
          ]
        ]
      ]
    ]
  ]
    where
      ran :
          (i : Instruction)
          → item_eq it (op i) ≡ true
          → GoesOn (step m it w s)
          → GoesOn (execute m i w s)
      ran i e g = let p = item_eq-op it i e in subst GoesOn (step-operation m it i w s p.0 p.1) g

module _ (m : Machine) (program : List AssemblyItem) (fits : FitItems program)
    (distinct : distinct_tags m program ≡ true) where
  runs_below : (b : ℕ) → Known m program fits distinct b
  unfolding run
  runs_below zero zero items w s r le at words h = absurd (cc)
  runs_below zero (suc n) items w s r le at words h = absurd (omega arith)
  runs_below (suc b) zero items w s r le at words h = absurd (cc)
  runs_below (suc b) (suc n) [] w s r le at words h = (1, rw optimised_items-empty h)
  runs_below (suc b) (suc n) (it ∷ items) w s r le at words h =
      let (out, rest, e) = apply_methods-total it items in
      rw (optimised_items-round m (it ∷ items) out rest e)
        (by_round out rest (apply_methods-Rewrite m (it ∷ items) out rest e) (runs_below b))
    where
      by_round :
          (out rest : List AssemblyItem)
          → Rewrite m (it ∷ items) out rest
          → Known m program fits distinct b
          → (g : ℕ) × (run m (optimised_items program) g (out ++ optimised_items rest) w s
              ≡ stopped r)
      by_round out rest (window win e pos _ _ refined) known =
          follow_window m program fits distinct b (suc n) win out rest w s r known le pos
            (rw e at at) words (refined w s words) (rw e at h)
      by_round out rest (next_tag a j t e rule) known =
          follow_next_tag m program fits distinct b (suc n) a j t out rest w s r known le
            (rw e at at) words rule (rw e at h)
      by_round out rest (unreachable x others e o q g) known = rw o (
          follow_one m program fits distinct b n x others (optimised_items rest) w s r known
            (omega arith) (rw e at at) words
            (λ w' s' k. absurd (not-GoesOn-terminator m x w s g (rw k tt))) (rw e at h))
      by_round out rest (one x e o) known = rw o (
          follow_one m program fits distinct b n x rest (optimised_items rest) w s r known
            (omega arith) (rw e at at) words (λ w' s' k. refl) (rw e at h))

pub run-optimised_items :
    (m : Machine) (program : List AssemblyItem) (n : ℕ) (w : m.World) (s : List ℕ) (r : m.Final)
    → FitItems program
    → distinct_tags m program ≡ true
    → AreWords s
    → run m program n program w s ≡ stopped r
    → (g : ℕ) × (run m (optimised_items program) g (optimised_items program) w s ≡ stopped r)
run-optimised_items m program n w s r fits distinct words h =
    runs_below m program fits distinct n n program w s r (omega arith) ([], refl) words h

optimise-cases :
    (items after : List AssemblyItem) (changed : Bool)
    → optimise items ≡ ok (changed, after)
    → ((changed ≡ true) × (after ≡ optimised_items items)) ⊎ ((changed ≡ false) × (after ≡ items))
unfolding optimise
optimise-cases items after changed h = ground arith

-- What `optimise` leaves does what the items did: a program whose data are words and no two of whose
-- tags have one address, that stops from its start on a stack of words, still stops with the same
-- result. The machine and the addresses are any.
pub run-optimise :
    (m : Machine) (program after : List AssemblyItem) (changed : Bool) (n : ℕ) (w : m.World)
    (s : List ℕ) (r : m.Final)
    → optimise program ≡ ok (changed, after)
    → FitItems program
    → distinct_tags m program ≡ true
    → AreWords s
    → run m program n program w s ≡ stopped r
    → (g : ℕ) × (run m after g after w s ≡ stopped r)
run-optimise m program after changed n w s r o fits distinct words h =
    elim (optimise-cases program after changed o) [
      | inl (_, e) ↦ rw e (run-optimised_items m program n w s r fits distinct words h)
      | inr (_, e) ↦ (n, rw e h)
    ]
