-- ===== src/Evmasm/Machine/Runs/Refined.antt =====
-- One run of straight code stands for another.
use lity.Prelude.{ℕ, ◌≡◌, refl, sym, subst, ◌∙◌, List, [], ◌∷◌}
use lity.Evmasm.AssemblyItem.{AssemblyItem}
use lity.Evmasm.Machine.{Effect, continue, jump_to, stop, fault, Machine, step, exec}

-- The second may take the place of the first: where the first continues, the second continues alike;
-- a fault may become anything; the first neither jumps nor stops.
abbrev pub Refined : {W F : Type 0} → Effect W F → Effect W F → Type 0
Refined (continue w s) e = e ≡ continue w s
Refined (jump_to a w s) e = ⊥
Refined (stop r) e = ⊥
Refined fault e = Unit

pub Refined-fault : {W F : Type 0} (d e : Effect W F) → d ≡ fault → Refined d e
Refined-fault d e p = subst (λ x. Refined x e) (sym p) tt

pub Refined-same :
    {W F : Type 0} (d e : Effect W F) (w : W) (s : List ℕ)
    → d ≡ continue w s
    → e ≡ continue w s
    → Refined d e
Refined-same d e w s p q = subst (λ x. Refined x e) (sym p) q

module _ (m : Machine) where
  open m use {World, Final}

  pub exec-continue :
      (it : AssemblyItem) (items : List AssemblyItem) (w w' : World) (s s' : List ℕ)
      → step m it w s ≡ continue w' s'
      → exec m (it ∷ items) w s ≡ exec m items w' s'
  unfolding exec
  exec-continue it items w w' s s' e = rw (e, exec) refl

  pub exec-fault :
      (it : AssemblyItem) (items : List AssemblyItem) (w : World) (s : List ℕ)
      → step m it w s ≡ fault
      → exec m (it ∷ items) w s ≡ fault
  unfolding exec
  exec-fault it items w s e = rw (e, exec) refl

  pub exec-one : (it : AssemblyItem) (w : World) (s : List ℕ) → exec m (it ∷ []) w s ≡ step m it w s
  unfolding exec
  exec-one it w s = unchanged (step m it w s)
    where
      unchanged :
          (e : Effect World Final)
          → elim e [
            | continue w' s' ↦ continue w' s'
            | jump_to a w' s' ↦ jump_to a w' s'
            | stop r ↦ stop r
            | fault ↦ fault
          ]
            ≡ e
      unchanged (continue w' s') = refl
      unchanged _ = refl

  pub exec-two :
      (a b : AssemblyItem) (w w' : World) (s s' : List ℕ)
      → step m a w s ≡ continue w' s'
      → exec m (a ∷ b ∷ []) w s ≡ step m b w' s'
  exec-two a b w w' s s' e = exec-continue a (b ∷ []) w w' s s' e ∙ exec-one b w' s'
