-- ===== src/Evmasm/PeepholeOptimiser/Rounds.antt =====
-- libevmasm/PeepholeOptimiser.cpp: the loop ends, and is the rounds one after the other.
use lity.Prelude.{
  ℕ, zero, suc, ◌≤◌, ◌<◌, ◌≡◌, refl, ap, sym, ◌∙◌, some, List, [], ◌∷◌, ◌++◌, length, length-append,
  Option-cases, inl, inr, arith,
}
use lity.Evmasm.AssemblyItem.{AssemblyItem}
use lity.Evmasm.Machine.{Machine}
use lity.Evmasm.PeepholeOptimiser.{optimise_loop, optimised_items}
use lity.Evmasm.PeepholeOptimiser.Methods.{
  Applied, window_1, window_2, window_3, identity, push_pop, op_pop, double_swap, double_push,
  commutative_swap, swap_comparison, jump_to_next, tag_conjunctions, truthy_and, unreachable_code,
  drop_to_tag, first_applied, apply_methods,
}
use lity.Evmasm.PeepholeOptimiser.Rewrites.{
  Rewrite, window, next_tag, unreachable, one, apply_methods-Rewrite,
}

first_applied-last :
    (fs : List (List AssemblyItem → Applied)) (f : List AssemblyItem → Applied)
    (items : List AssemblyItem) (r : List AssemblyItem × List AssemblyItem)
    → f items ≡ some r
    → (r' : List AssemblyItem × List AssemblyItem) × (first_applied (fs ++ f ∷ []) items ≡ some r')
unfolding first_applied
first_applied-last [] f items r h = (r, rw (h, first_applied) refl)
first_applied-last (g ∷ fs) f items r h = elim (Option-cases (g items)) [
  | inl e ↦ let (r', k) = first_applied-last fs f items r h in (r', rw (e, first_applied) k)
  | inr (r', e) ↦ (r', rw (e, first_applied) refl)
]

-- Some method applies wherever an item is left: the exception of `applyMethods` is never thrown.
pub apply_methods-total :
    (it : AssemblyItem) (items : List AssemblyItem)
    → (out : List AssemblyItem) × (rest : List AssemblyItem) × (apply_methods (it ∷ items)
        ≡ some (out, rest))
unfolding apply_methods
apply_methods-total it items =
    let (r, e) =
      first_applied-last
        (window_2 push_pop
          ∷ window_2 op_pop
          ∷ window_2 double_push
          ∷ window_2 double_swap
          ∷ window_2 commutative_swap
          ∷ window_2 swap_comparison
          ∷ window_3 jump_to_next
          ∷ unreachable_code
          ∷ window_3 tag_conjunctions
          ∷ window_3 truthy_and
          ∷ [])
        (window_1 identity) (it ∷ items) (it ∷ [], items) (unfold window_1 identity in refl) in
    (r.0, r.1, e)

loop-empty : (n : ℕ) → optimise_loop n [] ≡ []
unfolding optimise_loop apply_methods window_1 window_2 window_3 unreachable_code
loop-empty zero = refl
loop-empty (suc n) = refl

pub optimised_items-empty : optimised_items [] ≡ []
unfolding optimised_items
optimised_items-empty = loop-empty 0

pub length-drop_to_tag : (items : List AssemblyItem) → length (drop_to_tag items) ≤ length items
unfolding drop_to_tag
length-drop_to_tag [] = omega arith
length-drop_to_tag (it ∷ items) = ground (arith, length-drop_to_tag items)

module _ (m : Machine) where
  -- Every round leaves fewer items.
  pub Rewrite-lt :
      (items out rest : List AssemblyItem) → Rewrite m items out rest → length rest < length items
  Rewrite-lt items out rest (window win e pos _ _ _) =
      omega (arith, ap length e, length-append {0} win rest)
  Rewrite-lt items out rest (next_tag a j t e _) = omega (arith, ap length e)
  Rewrite-lt items out rest (unreachable it others e _ r _) =
      omega (arith, ap length e, ap length r, length-drop_to_tag others)
  Rewrite-lt items out rest (one it e _) = omega (arith, ap length e)

  loop-fuel :
      (n k : ℕ) (items : List AssemblyItem)
      → length items ≤ n
      → length items ≤ k
      → optimise_loop n items ≡ optimise_loop k items
  unfolding optimise_loop
  loop-fuel zero zero items p q = refl
  loop-fuel zero (suc k) [] p q = sym (loop-empty (suc k))
  loop-fuel zero (suc k) (it ∷ items) p q = absurd (omega arith)
  loop-fuel (suc n) zero [] p q = loop-empty (suc n)
  loop-fuel (suc n) zero (it ∷ items) p q = absurd (omega arith)
  loop-fuel (suc n) (suc k) items p q = elim (Option-cases (apply_methods items)) [
    | inl e ↦ rw (e, optimise_loop) refl
    | inr ((out, rest), e) ↦
        let lt = Rewrite-lt items out rest (apply_methods-Rewrite m items out rest e) in
        rw (e, optimise_loop) (ap (λ l. out ++ l) (loop-fuel n k rest (omega arith) (omega arith)))
  ]

  -- The items after the loop: what the first round writes, and the rounds on what it leaves.
  pub optimised_items-round :
      (items out rest : List AssemblyItem)
      → apply_methods items ≡ some (out, rest)
      → optimised_items items ≡ out ++ optimised_items rest
  unfolding optimised_items
  optimised_items-round items out rest e =
      let lt = Rewrite-lt items out rest (apply_methods-Rewrite m items out rest e) in
      loop-fuel (length items) (suc (length items)) items (omega arith) (omega arith)
      ∙ (unfold optimise_loop in
          rw (e, optimise_loop)
            (ap (λ l. out ++ l)
              (loop-fuel (length items) (length rest) rest (omega arith) (omega arith))))
