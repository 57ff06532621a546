-- ===== src/Evmasm/Machine/Runs/Straight.antt =====
-- Running straight code in front of other code.
use lity.Prelude.{ℕ, zero, suc, ◌+◌, ◌≡◌, refl, List, [], ◌∷◌, ◌++◌, length, arith, ◌≢◌}
use lity.Evmasm.AssemblyItem.{AssemblyItem}
use lity.Evmasm.Machine.{Effect, continue, jump_to, stop, fault, Machine, step, exec, stopped, run}

module _ (m : Machine) (program : List AssemblyItem) where
  open m use {World, Final}

  -- After straight code that continues, the run goes on behind it.
  pub run-exec :
      (code rest : List AssemblyItem) (n g : ℕ) (w w' : World) (s s' : List ℕ)
      → n ≡ length code + g
      → exec m code w s ≡ continue w' s'
      → run m program n (code ++ rest) w s ≡ run m program g rest w' s'
  unfolding exec run
  run-exec [] rest n g w w' s s' e h =
      let f : n ≡ g = omega arith in
      let ew : w ≡ w' = cc in let es : s ≡ s' = cc in rw (f, ew, es) refl
  run-exec (it ∷ code) rest zero g w w' s s' e h = absurd (omega arith)
  run-exec (it ∷ code) rest (suc n) g w w' s s' e h =
      after (step m it w s) refl (λ w₁ s₁ k. run-exec code rest n g w₁ w' s₁ s' (omega arith) k)
    where
      after :
          (f : Effect World Final)
          → step m it w s ≡ f
          → ((w₁ : World) (s₁ : List ℕ)
              → exec m code w₁ s₁ ≡ continue w' s'
              → run m program n (code ++ rest) w₁ s₁ ≡ run m program g rest w' s')
          → run m program (suc n) (it ∷ (code ++ rest)) w s ≡ run m program g rest w' s'
      after (continue w₁ s₁) q ih = rw (q, run) (ih w₁ s₁ (rw (q, exec) at h))
      after (jump_to a w₁ s₁) q ih = absurd (cc (rw (q, exec) at h))
      after (stop r) q ih = absurd (cc (rw (q, exec) at h))
      after fault q ih = absurd (cc (rw (q, exec) at h))

  -- A run that stops has gone through straight code that continues, with the fuel for it.
  pub run-stopped-exec :
      (code rest : List AssemblyItem) (n : ℕ) (w w' : World) (s s' : List ℕ) (r : Final)
      → exec m code w s ≡ continue w' s'
      → run m program n (code ++ rest) w s ≡ stopped r
      → (g : ℕ) × (n ≡ length code + g) × (run m program g rest w' s' ≡ stopped r)
  unfolding exec run
  run-stopped-exec [] rest n w w' s s' r h k =
      let ew : w ≡ w' = cc in let es : s ≡ s' = cc in (n, omega arith, rw (← ew, ← es) k)
  run-stopped-exec (it ∷ code) rest zero w w' s s' r h k = absurd (cc)
  run-stopped-exec (it ∷ code) rest (suc n) w w' s s' r h k =
      after (step m it w s) refl (λ w₁ s₁ h₁ k₁. run-stopped-exec code rest n w₁ w' s₁ s' r h₁ k₁)
    where
      after :
          (f : Effect World Final)
          → step m it w s ≡ f
          → ((w₁ : World) (s₁ : List ℕ)
              → exec m code w₁ s₁ ≡ continue w' s'
              → run m program n (code ++ rest) w₁ s₁ ≡ stopped r
              → (g : ℕ) × (n ≡ length code + g) × (run m program g rest w' s' ≡ stopped r))
          → (g : ℕ) × (suc n ≡ suc (length code) + g) × (run m program g rest w' s' ≡ stopped r)
      after (continue w₁ s₁) q ih =
          let (g, e, j) = ih w₁ s₁ (rw (q, exec) at h) (rw (q, run) at k) in (g, omega arith, j)
      after (jump_to a w₁ s₁) q ih = absurd (cc (rw (q, exec) at h))
      after (stop r) q ih = absurd (cc (rw (q, exec) at h))
      after fault q ih = absurd (cc (rw (q, exec) at h))

  -- A run that stops does not go through a fault.
  pub run-ne-fault :
      (code rest : List AssemblyItem) (n : ℕ) (w : World) (s : List ℕ) (r : Final)
      → exec m code w s ≡ fault
      → run m program n (code ++ rest) w s ≢ stopped r
  unfolding exec run
  run-ne-fault [] rest n w s r h k = cc
  run-ne-fault (it ∷ code) rest zero w s r h k = cc
  run-ne-fault (it ∷ code) rest (suc n) w s r h k =
      after (step m it w s) refl (λ w₁ s₁ h₁ k₁. run-ne-fault code rest n w₁ s₁ r h₁ k₁)
    where
      after :
          (f : Effect World Final)
          → step m it w s ≡ f
          → ((w₁ : World) (s₁ : List ℕ)
              → exec m code w₁ s₁ ≡ fault
              → run m program n (code ++ rest) w₁ s₁ ≡ stopped r
              → ⊥)
          → ⊥
      after (continue w₁ s₁) q ih = ih w₁ s₁ (rw (q, exec) at h) (rw (q, run) at k)
      after (jump_to a w₁ s₁) q ih = cc (rw (q, exec) at h)
      after (stop r) q ih = cc (rw (q, exec) at h)
      after fault q ih = cc (rw (q, run) at k)
