-- ===== src/Evmasm/PeepholeOptimiser/Simulation.antt =====
-- libevmasm/PeepholeOptimiser.cpp: an optimised program does what the program does.
use lity.Prelude.{
  ℕ, zero, suc, ◌+◌, ◌≤◌, ◌<◌, ◌≡◌, refl, ap, subst, ◌∙◌, true, Option, none, some, List, [], ◌∷◌,
  ◌++◌, ◌==◌, if◌then◌else◌, length, Bool-cases, ◌⊎◌, inl, inr, arith,
}
use lity.Evmasm.Opcode
use lity.Evmasm.Opcode.{Instruction}
use lity.Evmasm.Instruction.{is_dup_instruction, is_swap_instruction}
use lity.Evmasm.AssemblyItem.{AssemblyItem, tag, op, op_at, item_eq}
use lity.Evmasm.Machine.{
  AreWords, Effect, continue, jump_to, stop, fault, Machine, execute, step, exec, find_dest,
  stopped, run,
}
use lity.Evmasm.Machine.Words.Step.{FitItems, Keeps, step-AreWords, exec-AreWords}
use lity.Evmasm.Machine.Runs.Known.{item_eq-op, step-operation, step-push_tag, step-pop}
use lity.Evmasm.Machine.Runs.Refined.{Refined}
use lity.Evmasm.Machine.Runs.Straight.{run-exec, run-stopped-exec, run-ne-fault}
use lity.Evmasm.PeepholeOptimiser.{optimised_items}
use lity.Evmasm.PeepholeOptimiser.Methods.{jump_to_next}
use lity.Evmasm.PeepholeOptimiser.Dests.{
  jump_to_next-some, optimised_items-tag, optimised_dest, find_dest-optimised_items,
}
use lity.Evmasm.PeepholeOptimiser.Positions.{
  IsAt, IsAt-append, FitItems-at, FitItems-window, find_dest-IsAt, distinct_tags,
  find_dest-distinct,
}

module _ (m : Machine) (program : List AssemblyItem) (fits : FitItems program)
    (distinct : distinct_tags m program ≡ true) where
  open m use {World, Final}

  abbrev pub Stops : List AssemblyItem → World → List ℕ → Final → ℕ → Type 0
  Stops items w s r n = run m program n items w s ≡ stopped r

  -- The optimised program stops alike from the optimised items.
  abbrev pub Follows : List AssemblyItem → World → List ℕ → Final → Type 0
  Follows items w s r = (g : ℕ) × (run m (optimised_items program) g items w s ≡ stopped r)

  -- What is known of runs with at most b steps.
  abbrev pub Known : ℕ → Type 0
  Known b =
      (n : ℕ) (items : List AssemblyItem) (w : World) (s : List ℕ) (r : m.Final)
      → n ≤ b
      → IsAt program items
      → AreWords s
      → run m program n items w s ≡ stopped r
      → (g : ℕ) × (run m (optimised_items program) g (optimised_items items) w s ≡ stopped r)

  pub follow_window :
      (b n : ℕ) (win out rest : List AssemblyItem) (w : World) (s : List ℕ) (r : Final)
      → Known b
      → n ≤ suc b
      → 0 < length win
      → IsAt program (win ++ rest)
      → AreWords s
      → Refined (exec m win w s) (exec m out w s)
      → Stops (win ++ rest) w s r n
      → Follows (out ++ optimised_items rest) w s r
  follow_window b n win out rest w s r known le pos at words refined h =
      by_effect (exec m win w s) refl refined (
        exec-AreWords m win w s
          (FitItems-window win rest (FitItems-at program (win ++ rest) fits at)) words)
    where
      by_effect :
          (e : Effect World Final)
          → exec m win w s ≡ e
          → Refined e (exec m out w s)
          → Keeps m e
          → Follows (out ++ optimised_items rest) w s r
      by_effect (continue w' s') q k words' =
          let (g, e, j) = run-stopped-exec m program win rest n w w' s s' r q h in
          let (g', j') =
            known g rest w' s' r (omega arith) (IsAt-append program win rest at) words' j in
          (
            length out + g',
            run-exec m (optimised_items program) out (optimised_items rest) (length out + g') g' w
                  w' s s' refl k
                ∙ j',
          )
      by_effect (jump_to a w' s') q k words' = absurd k
      by_effect (stop x) q k words' = absurd k
      by_effect fault q k words' = absurd (run-ne-fault m program win rest n w s r q h)

  -- A jump that succeeds goes to the optimised code at its destination.
  follow_jump :
      (b n a : ℕ) (w : World) (s : List ℕ) (r : Final)
      → Known b
      → n ≤ b
      → AreWords s
      → (items : List AssemblyItem) → find_dest m a program ≡ some items
      → Stops items w s r n
      → (dest : List AssemblyItem) × (find_dest m a (optimised_items program) ≡ some dest)
        × Follows dest w s r
  follow_jump b n a w s r known le words items e h = (
    optimised_items items,
    find_dest-optimised_items m a program ∙ ap optimised_dest e,
    known n items w s r le (find_dest-IsAt m a program items e) words h,
  )

  -- One item that is kept, or after which the code goes on by a jump only.
  pub follow_one :
      (b n : ℕ) (it : AssemblyItem) (rest items : List AssemblyItem) (w : World) (s : List ℕ)
      (r : Final)
      → Known b
      → n ≤ b
      → IsAt program (it ∷ rest)
      → AreWords s
      → ((w' : World) (s' : List ℕ) → step m it w s ≡ continue w' s' → items ≡ optimised_items rest)
      → Stops (it ∷ rest) w s r (suc n)
      → Follows (it ∷ items) w s r
  unfolding run
  follow_one b n it rest items w s r known le at words same h =
      by_effect (step m it w s) refl
        (step-AreWords m it w s (FitItems-at program (it ∷ rest) fits at).0 words)
    where
      by_effect :
          (e : Effect World Final) → step m it w s ≡ e → Keeps m e → Follows (it ∷ items) w s r
      by_effect (continue w' s') q words' =
          let (g, j) =
            known n rest w' s' r le (IsAt-append program (it ∷ []) rest at) words'
              (rw (q, run) at h) in
          (suc g, rw (q, run) (rw (same w' s' q) j))
      by_effect (stop x) q words' = (1, rw (q, run) (rw (q, run) at h))
      by_effect fault q words' = absurd (cc (rw (q, run) at h))
      by_effect (jump_to a w' s') q words' = by_dest (find_dest m a program) refl
        where
          by_dest :
              (d : Option (List AssemblyItem))
              → find_dest m a program ≡ d
              → Follows (it ∷ items) w s r
          by_dest none p = absurd (cc (rw (p, run) at (rw (q, run) at h)))
          by_dest (some dest) p =
              let (dest', p', (g, j)) =
                follow_jump b n a w' s' r known le words' dest p (rw p at (rw (q, run) at h)) in
              (suc g, rw (q, run) (rw p' j))

  -- Behind a push of a tag's address, a jump that is right before the tag goes to the tag.
  tag_at :
      (a j t : AssemblyItem) (rest : List AssemblyItem)
      → IsAt program (a ∷ j ∷ t ∷ rest)
      → t.type ≡ tag
      → a.data_value ≡ t.data_value
      → find_dest m (m.address a.data_value) program ≡ some (t ∷ rest)
  tag_at a j t rest at t_type same =
      let (before, e) = IsAt-append program (a ∷ j ∷ []) (t ∷ rest) at in
      rw same (
        subst (λ l. find_dest m (m.address t.data_value) l ≡ some (t ∷ rest)) e
          (find_dest-distinct m before rest t t_type (rw e distinct)))

  -- After the push, an unconditional jump leads to the tag.
  after_jump :
      (n a : ℕ) (j t : AssemblyItem) (rest : List AssemblyItem) (w : World) (s : List ℕ) (r : Final)
      → item_eq j (op Opcode.jump) ≡ true
      → find_dest m a program ≡ some (t ∷ rest)
      → Stops (j ∷ t ∷ rest) w (a ∷ s) r (suc n)
      → Stops (t ∷ rest) w s r n
  unfolding run
  after_jump n a j t rest w s r jumps e h =
      let p = item_eq-op j Opcode.jump jumps in
      let q : step m j w (a ∷ s) ≡ jump_to a w s =
        step-operation m j Opcode.jump w (a ∷ s) p.0 p.1
        ∙ (unfold execute is_dup_instruction is_swap_instruction in refl) in
      rw e at (rw (q, run) at h)

  -- After the push, a conditional jump leads to the tag on both ways, and takes its condition.
  after_jumpi :
      (n a : ℕ) (j t : AssemblyItem) (rest : List AssemblyItem) (w : World) (s : List ℕ) (r : Final)
      → item_eq j (op Opcode.jumpi) ≡ true
      → find_dest m a program ≡ some (t ∷ rest)
      → Stops (j ∷ t ∷ rest) w (a ∷ s) r (suc n)
      → (c : ℕ) × (s' : List ℕ) × (s ≡ c ∷ s') × Stops (t ∷ rest) w s' r n
  unfolding run
  after_jumpi n a j t rest w [] r jumps e h =
      let p = item_eq-op j Opcode.jumpi jumps in
      let q : step m j w (a ∷ []) ≡ fault =
        step-operation m j Opcode.jumpi w (a ∷ []) p.0 p.1
        ∙ (unfold execute is_dup_instruction is_swap_instruction in refl) in
      absurd (cc (rw (q, run) at h))
  after_jumpi n a j t rest w (c ∷ s') r jumps e h =
      let p = item_eq-op j Opcode.jumpi jumps in
      let q : step m j w (a ∷ c ∷ s') ≡ (if c == 0 then continue w s' else jump_to a w s') =
        step-operation m j Opcode.jumpi w (a ∷ c ∷ s') p.0 p.1
        ∙ (unfold execute is_dup_instruction is_swap_instruction in refl) in
      (
        c,
        s',
        refl,
        elim (Bool-cases (c == 0)) [
          | inl z ↦
              let q' : step m j w (a ∷ c ∷ s') ≡ continue w s' = q ∙ (rw z refl) in
              rw (q', run) at h
          | inr z ↦
              let q' : step m j w (a ∷ c ∷ s') ≡ jump_to a w s' = q ∙ (rw z refl) in
              rw e at (rw (q', run) at h)
        ],
      )

  pub follow_next_tag :
      (b n : ℕ) (a j t : AssemblyItem) (out rest : List AssemblyItem) (w : World) (s : List ℕ)
      (r : Final)
      → Known b
      → n ≤ suc b
      → IsAt program (a ∷ j ∷ t ∷ rest)
      → AreWords s
      → jump_to_next a j t ≡ some out
      → Stops (a ∷ j ∷ t ∷ rest) w s r n
      → Follows (out ++ optimised_items rest) w s r
  unfolding run
  follow_next_tag b zero a j t out rest w s r known le at words rule h = absurd (cc)
  follow_next_tag b (suc zero) a j t out rest w s r known le at words rule h =
      let (a_type, t_type, same, cases) = jump_to_next-some a j t out rule in
      absurd (cc (rw (step-push_tag m a w s a_type, run) at h))
  follow_next_tag b (suc (suc n)) a j t out rest w s r known le at words rule h =
      let (a_type, t_type, same, cases) = jump_to_next-some a j t out rule in
      by_jump cases t_type (tag_at a j t rest at t_type same)
        (rw (step-push_tag m a w s a_type, run) at h)
    where
      by_jump :
          ((item_eq j (op Opcode.jump) ≡ true) × (out ≡ t ∷ []))
            ⊎ ((item_eq j (op Opcode.jumpi) ≡ true) × (out ≡ op_at Opcode.pop j.location ∷ t ∷ []))
          → t.type ≡ tag
          → find_dest m (m.address a.data_value) program ≡ some (t ∷ rest)
          → Stops (j ∷ t ∷ rest) w (m.address a.data_value ∷ s) r (suc n)
          → Follows (out ++ optimised_items rest) w s r
      by_jump (inl (jumps, o)) t_type e k =
          let k' = after_jump n (m.address a.data_value) j t rest w s r jumps e k in
          let (g, f) =
            known n (t ∷ rest) w s r (omega arith) (IsAt-append program (a ∷ j ∷ []) (t ∷ rest) at)
              words k' in
          (g, rw o (rw (← optimised_items-tag m t rest t_type) f))
      by_jump (inr (jumps, o)) t_type e k =
          let (c, s', es, k') = after_jumpi n (m.address a.data_value) j t rest w s r jumps e k in
          let words' : AreWords (c ∷ s') = subst AreWords es words in
          let (g, f) =
            known n (t ∷ rest) w s' r (omega arith) (IsAt-append program (a ∷ j ∷ []) (t ∷ rest) at)
              words'.1 k' in
          let pop = op_at Opcode.pop j.location in
          let q : step m pop w (c ∷ s') ≡ continue w s' =
            step-pop m pop w c s' (unfold item_eq in refl) in
          (suc g, rw (o, es) (rw (q, run) (rw (← optimised_items-tag m t rest t_type) f)))
