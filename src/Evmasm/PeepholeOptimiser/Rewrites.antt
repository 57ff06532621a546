-- ===== src/Evmasm/PeepholeOptimiser/Rewrites.antt =====
-- libevmasm/PeepholeOptimiser.cpp: what a round of the loop does, whichever method applies.
use lity.Prelude.{
  ℕ, ◌<◌, ◌≡◌, refl, ap, ◌∙◌, true, none, some, List, [], ◌∷◌, ◌++◌, length, Option-cases, inl, inr,
  arith,
}
use lity.Evmasm.AssemblyItem.{AssemblyItem}
use lity.Evmasm.Machine.{AreWords, Machine, exec}
use lity.Evmasm.Machine.Runs.Refined.{Refined}
use lity.Evmasm.PeepholeOptimiser.Methods.{
  Output, Applied, with_rest, window_1, window_2, window_3, identity, push_pop, op_pop, double_swap,
  double_push, commutative_swap, swap_comparison, jump_to_next, tag_conjunctions, truthy_and,
  drop_to_tag, is_terminator, unreachable_code, first_applied, apply_methods,
}
use lity.Evmasm.PeepholeOptimiser.Windows.Drop.{
  push_pop-Refined, op_pop-Refined, double_push-Refined,
}
use lity.Evmasm.PeepholeOptimiser.Windows.Swaps.{
  double_swap-Refined, commutative_swap-Refined, swap_comparison-Refined,
}
use lity.Evmasm.PeepholeOptimiser.Windows.Masks.{tag_conjunctions-Refined, truthy_and-Refined}
use lity.Evmasm.PeepholeOptimiser.Windows.Tagless.{
  tagless, push_pop-tagless, op_pop-tagless, double_push-tagless, double_swap-tagless,
  commutative_swap-tagless, swap_comparison-tagless, tag_conjunctions-tagless, truthy_and-tagless,
}

with_rest-some :
    (o : Output) (r rest out : List AssemblyItem)
    → with_rest o r ≡ some (out, rest)
    → (o ≡ some out) × (r ≡ rest)
with_rest-some none r rest out h = cc
with_rest-some (some x) r rest out h = (ground arith, ground arith)

window_1-some :
    (rule : AssemblyItem → Output) (items out rest : List AssemblyItem)
    → window_1 rule items ≡ some (out, rest)
    → (a : AssemblyItem) × (items ≡ a ∷ rest) × (rule a ≡ some out)
unfolding window_1
window_1-some rule [] out rest h = cc
window_1-some rule (a ∷ r) out rest h =
    let p = with_rest-some (rule a) r rest out h in (a, ap (λ l. a ∷ l) p.1, p.0)

window_2-some :
    (rule : AssemblyItem → AssemblyItem → Output) (items out rest : List AssemblyItem)
    → window_2 rule items ≡ some (out, rest)
    → (a : AssemblyItem) × (b : AssemblyItem) × (items ≡ a ∷ b ∷ rest) × (rule a b ≡ some out)
unfolding window_2
window_2-some rule [] out rest h = cc
window_2-some rule (a ∷ []) out rest h = cc
window_2-some rule (a ∷ b ∷ r) out rest h =
    let p = with_rest-some (rule a b) r rest out h in (a, b, ap (λ l. a ∷ b ∷ l) p.1, p.0)

window_3-some :
    (rule : AssemblyItem → AssemblyItem → AssemblyItem → Output)
    (items out rest : List AssemblyItem)
    → window_3 rule items ≡ some (out, rest)
    → (a : AssemblyItem) × (b : AssemblyItem) × (c : AssemblyItem) × (items ≡ a ∷ b ∷ c ∷ rest)
      × (rule a b c ≡ some out)
unfolding window_3
window_3-some rule [] out rest h = cc
window_3-some rule (a ∷ []) out rest h = cc
window_3-some rule (a ∷ b ∷ []) out rest h = cc
window_3-some rule (a ∷ b ∷ c ∷ r) out rest h =
    let p = with_rest-some (rule a b c) r rest out h in (a, b, c, ap (λ l. a ∷ b ∷ c ∷ l) p.1, p.0)

-- One round: `items` is a window and `rest`, and `out` is written for the window.
pub data Rewrite (m : Machine) (items out rest : List AssemblyItem) : Type 0 where
  window :
      (win : List AssemblyItem)
      → items ≡ win ++ rest
      → 0 < length win
      → tagless win ≡ true
      → tagless out ≡ true
      → ((w : m.World) (s : List ℕ) → AreWords s → Refined (exec m win w s) (exec m out w s))
      → Rewrite m items out rest
  next_tag :
      (a j t : AssemblyItem)
      → items ≡ a ∷ j ∷ t ∷ rest
      → jump_to_next a j t ≡ some out
      → Rewrite m items out rest
  unreachable :
      (it : AssemblyItem) (others : List AssemblyItem)
      → items ≡ it ∷ others
      → out ≡ it ∷ []
      → rest ≡ drop_to_tag others
      → is_terminator it ≡ true
      → Rewrite m items out rest
  one : (it : AssemblyItem) → items ≡ it ∷ rest → out ≡ it ∷ [] → Rewrite m items out rest

module _ (m : Machine) where
  -- A method all whose applications are such rounds.
  abbrev IsMethod : (List AssemblyItem → Applied) → Type 0
  IsMethod f =
      (items out rest : List AssemblyItem) → f items ≡ some (out, rest) → Rewrite m items out rest

  abbrev AreMethods : List (List AssemblyItem → Applied) → Type 0
  AreMethods [] = Unit
  AreMethods (f ∷ fs) = IsMethod f × AreMethods fs

  first_applied-IsMethod :
      (fs : List (List AssemblyItem → Applied)) → AreMethods fs → IsMethod (first_applied fs)
  unfolding first_applied
  first_applied-IsMethod [] k items out rest h = cc
  first_applied-IsMethod (f ∷ fs) k items out rest h = elim (Option-cases (f items)) [
    | inl e ↦ first_applied-IsMethod fs k.1 items out rest (rw (e, first_applied) at h)
    | inr (r, e) ↦ k.0 items out rest (e ∙ (rw (e, first_applied) at h))
  ]

  two-IsMethod :
      (rule : AssemblyItem → AssemblyItem → Output)
      → ((a b : AssemblyItem) (out : List AssemblyItem)
          → rule a b ≡ some out
          → (tagless (a ∷ b ∷ []) ≡ true) × (tagless out ≡ true))
      → ((a b : AssemblyItem) (out : List AssemblyItem) (w : m.World) (s : List ℕ)
          → rule a b ≡ some out
          → Refined (exec m (a ∷ b ∷ []) w s) (exec m out w s))
      → IsMethod (window_2 rule)
  two-IsMethod rule no_tags sound items out rest h =
      let (a, b, e, r) = window_2-some rule items out rest h in
      let t = no_tags a b out r in
      window (a ∷ b ∷ []) e (omega arith) t.0 t.1 (λ w s k. sound a b out w s r)

  three-IsMethod :
      (rule : AssemblyItem → AssemblyItem → AssemblyItem → Output)
      → ((a b c : AssemblyItem) (out : List AssemblyItem)
          → rule a b c ≡ some out
          → (tagless (a ∷ b ∷ c ∷ []) ≡ true) × (tagless out ≡ true))
      → ((a b c : AssemblyItem) (out : List AssemblyItem) (w : m.World) (s : List ℕ)
          → AreWords s
          → rule a b c ≡ some out
          → Refined (exec m (a ∷ b ∷ c ∷ []) w s) (exec m out w s))
      → IsMethod (window_3 rule)
  three-IsMethod rule no_tags sound items out rest h =
      let (a, b, c, e, r) = window_3-some rule items out rest h in
      let t = no_tags a b c out r in
      window (a ∷ b ∷ c ∷ []) e (omega arith) t.0 t.1 (λ w s k. sound a b c out w s k r)

  jump_to_next-IsMethod : IsMethod (window_3 jump_to_next)
  jump_to_next-IsMethod items out rest h =
      let (a, j, t, e, r) = window_3-some jump_to_next items out rest h in next_tag a j t e r

  identity-IsMethod : IsMethod (window_1 identity)
  unfolding identity
  identity-IsMethod items out rest h =
      let (a, e, r) = window_1-some identity items out rest h in one a e (ground arith)

  unreachable_code-IsMethod : IsMethod unreachable_code
  unfolding unreachable_code
  unreachable_code-IsMethod [] out rest h = cc
  unreachable_code-IsMethod (it ∷ others) out rest h =
      unreachable it others refl (ground arith) (ground arith) (ground arith)

  pub apply_methods-Rewrite :
      (items out rest : List AssemblyItem)
      → apply_methods items ≡ some (out, rest)
      → Rewrite m items out rest
  unfolding apply_methods
  apply_methods-Rewrite items out rest h =
      first_applied-IsMethod
        (window_2 push_pop
          ∷ window_2 op_pop
          ∷ window_2 double_push
          ∷ window_2 double_swap
          ∷ window_2 commutative_swap
          ∷ window_2 swap_comparison
          ∷ window_3 jump_to_next
          ∷ unreachable_code
          ∷ window_3 tag_conjunctions
          ∷ window_3 truthy_and
          ∷ window_1 identity
          ∷ [])
        (
          two-IsMethod push_pop push_pop-tagless (push_pop-Refined m),
          (
            two-IsMethod op_pop op_pop-tagless (op_pop-Refined m),
            (
              two-IsMethod double_push double_push-tagless (double_push-Refined m),
              (
                two-IsMethod double_swap double_swap-tagless (double_swap-Refined m),
                (
                  two-IsMethod commutative_swap commutative_swap-tagless
                      (commutative_swap-Refined m),
                  (
                    two-IsMethod swap_comparison swap_comparison-tagless
                        (swap_comparison-Refined m),
                    (
                      jump_to_next-IsMethod,
                      (
                        unreachable_code-IsMethod,
                        (
                          three-IsMethod tag_conjunctions tag_conjunctions-tagless
                              (λ a b c out w s k r. tag_conjunctions-Refined m a b c out w s r),
                          (
                            three-IsMethod truthy_and truthy_and-tagless (truthy_and-Refined m),
                            (identity-IsMethod, tt),
                          ),
                        ),
                      ),
                    ),
                  ),
                ),
              ),
            ),
          ),
        )
        items out rest h
