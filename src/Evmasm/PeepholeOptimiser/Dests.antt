-- ===== src/Evmasm/PeepholeOptimiser/Dests.antt =====
-- libevmasm/PeepholeOptimiser.cpp: the loop keeps the tags, and what follows a tag is optimised on its own.
use lity.Prelude.{
  ℕ, zero, suc, ◌≤◌, ◌≡◌, refl, ap, sym, ◌∙◌, true, false, ◌&&◌, Option, none, some, List, [], ◌∷◌,
  ◌++◌, ◌==◌, length, Bool-cases, ◌⊎◌, inl, inr, arith,
}
use lity.Evmasm.Opcode
use lity.Evmasm.AssemblyItem.{AssemblyItem, push_tag, tag, type_eq, op, op_at, item_eq}
use lity.Evmasm.Machine.{Machine, find_dest}
use lity.Evmasm.Machine.Runs.Known.{type_eq→eq}
use lity.Evmasm.PeepholeOptimiser.{optimised_items}
use lity.Evmasm.PeepholeOptimiser.Methods.{jump_to_next, drop_to_tag, is_terminator, apply_methods}
use lity.Evmasm.PeepholeOptimiser.Windows.Tagless.{tagless}
use lity.Evmasm.PeepholeOptimiser.Rewrites.{
  Rewrite, window, next_tag, unreachable, one, apply_methods-Rewrite,
}
use lity.Evmasm.PeepholeOptimiser.Rounds.{
  apply_methods-total, optimised_items-empty, optimised_items-round, length-drop_to_tag, Rewrite-lt,
}

-- What `JumpToNext` writes: the tag, below a pop in the place of a conditional jump.
pub jump_to_next-some :
    (a j t : AssemblyItem) (out : List AssemblyItem)
    → jump_to_next a j t ≡ some out
    → (a.type ≡ push_tag)
      × (t.type ≡ tag)
      × (a.data_value ≡ t.data_value)
      × (((item_eq j (op Opcode.jump) ≡ true) × (out ≡ t ∷ []))
          ⊎ ((item_eq j (op Opcode.jumpi) ≡ true) × (out ≡ op_at Opcode.pop j.location ∷ t ∷ [])))
unfolding jump_to_next
jump_to_next-some a j t out h = (
  type_eq→eq _ _ (ground arith),
  type_eq→eq _ _ (ground arith),
  ground arith,
  elim (Bool-cases (item_eq j (op Opcode.jumpi))) [
    | inl e ↦ inr (e, ground arith)
    | inr e ↦ inl (ground arith, ground arith)
  ],
)

abbrev pub optimised_dest : Option (List AssemblyItem) → Option (List AssemblyItem)
optimised_dest none = none
optimised_dest (some items) = some (optimised_items items)

module _ (m : Machine) where
  find_dest-tagless :
      (a : ℕ) (xs ys : List AssemblyItem)
      → tagless xs ≡ true
      → find_dest m a (xs ++ ys) ≡ find_dest m a ys
  unfolding find_dest
  find_dest-tagless a [] ys h = refl
  find_dest-tagless a (x ∷ xs) ys h = ground (arith, find_dest-tagless a xs ys)

  find_dest-drop :
      (a : ℕ) (items : List AssemblyItem) → find_dest m a (drop_to_tag items) ≡ find_dest m a items
  unfolding find_dest drop_to_tag
  find_dest-drop a [] = refl
  find_dest-drop a (it ∷ items) = ground (arith, find_dest-drop a items)

  terminator-tagless : (it : AssemblyItem) → is_terminator it ≡ true → tagless (it ∷ []) ≡ true
  unfolding is_terminator item_eq
  terminator-tagless it h = ground arith

  -- A tag at the front stays there.
  pub optimised_items-tag :
      (t : AssemblyItem) (items : List AssemblyItem)
      → t.type ≡ tag
      → optimised_items (t ∷ items) ≡ t ∷ optimised_items items
  optimised_items-tag t items h =
      let (out, rest, e) = apply_methods-total t items in
      optimised_items-round m (t ∷ items) out rest e
      ∙ by_round out rest (apply_methods-Rewrite m (t ∷ items) out rest e)
    where
      is_tag : type_eq t.type tag ≡ true
      is_tag = rw h refl

      by_round :
          (out rest : List AssemblyItem)
          → Rewrite m (t ∷ items) out rest
          → out ++ optimised_items rest ≡ t ∷ optimised_items items
      by_round out rest (window [] e p _ _ _) = absurd (omega arith)
      by_round out rest (window (x ∷ win) e p g _ _) =
          let same : t ≡ x = cc in
          let no_tag : type_eq t.type tag ≡ false = rw same (ground arith) in
          absurd (cc (is_tag, no_tag))
      by_round out rest (next_tag a j t' e g) =
          let same : t ≡ a = cc in
          let is_push : t.type ≡ push_tag = rw same (jump_to_next-some a j t' out g).0 in
          absurd (cc (h, is_push))
      by_round out rest (unreachable it others e o r g) =
          let same : t ≡ it = cc in
          let no_tag : type_eq t.type tag ≡ false =
            rw same (let k = terminator-tagless it g in ground arith) in
          absurd (cc (is_tag, no_tag))
      by_round out rest (one it e o) =
          let same : t ≡ it = cc in let r : items ≡ rest = cc in rw (o, same, r) refl

  -- What `JumpToNext` writes has the tag that it found.
  written_after :
      (a : ℕ) (out rest : List AssemblyItem) (j t : AssemblyItem)
      → ((item_eq j (op Opcode.jump) ≡ true) × (out ≡ t ∷ []))
        ⊎ ((item_eq j (op Opcode.jumpi) ≡ true) × (out ≡ op_at Opcode.pop j.location ∷ t ∷ []))
      → find_dest m a (out ++ optimised_items rest) ≡ find_dest m a (t ∷ optimised_items rest)
  written_after a out rest j t (inl (_, o)) = ap (λ l. find_dest m a (l ++ optimised_items rest)) o
  written_after a out rest j t (inr (_, o)) =
      ap (λ l. find_dest m a (l ++ optimised_items rest)) o
      ∙ find_dest-tagless a (op_at Opcode.pop j.location ∷ []) (t ∷ optimised_items rest) refl

  jump_to_next-tagless :
      (a j t : AssemblyItem) (out : List AssemblyItem)
      → jump_to_next a j t ≡ some out
      → tagless (a ∷ j ∷ []) ≡ true
  unfolding jump_to_next item_eq
  jump_to_next-tagless a j t out h = ground arith

  kept :
      (a : ℕ) (it : AssemblyItem) (rest : List AssemblyItem)
      → find_dest m a (optimised_items rest) ≡ optimised_dest (find_dest m a rest)
      → find_dest m a (it ∷ optimised_items rest) ≡ optimised_dest (find_dest m a (it ∷ rest))
  kept a it rest h = elim (Bool-cases (type_eq it.type tag && m.address it.data_value == a)) [
    | inl e ↦
        let t : it.type ≡ tag = type_eq→eq _ _ (ground arith) in
        unfold find_dest in rw (e, find_dest) (ap some (sym (optimised_items-tag it rest t)))
    | inr e ↦ unfold find_dest in rw (e, find_dest) h
  ]

  dest_below :
      (n a : ℕ) (items : List AssemblyItem)
      → length items ≤ n
      → find_dest m a (optimised_items items) ≡ optimised_dest (find_dest m a items)
  dest_below n a [] p = rw optimised_items-empty (unfold find_dest in refl)
  dest_below zero a (it ∷ items) p = absurd (omega arith)
  dest_below (suc n) a (it ∷ items) p =
      let (out, rest, e) = apply_methods-total it items in
      let r = apply_methods-Rewrite m (it ∷ items) out rest e in
      rw (optimised_items-round m (it ∷ items) out rest e)
        (by_round out rest e r (λ l q. dest_below n a l q))
    where
      by_round :
          (out rest : List AssemblyItem)
          → apply_methods (it ∷ items) ≡ some (out, rest)
          → Rewrite m (it ∷ items) out rest
          → ((l : List AssemblyItem)
              → length l ≤ n
              → find_dest m a (optimised_items l) ≡ optimised_dest (find_dest m a l))
          → find_dest m a (out ++ optimised_items rest)
            ≡ optimised_dest (find_dest m a (it ∷ items))
      by_round out rest h (window win e q g k _) ih =
          let lt = Rewrite-lt m (it ∷ items) out rest (apply_methods-Rewrite m _ out rest h) in
          find_dest-tagless a out (optimised_items rest) k
          ∙ ih rest (omega arith)
          ∙ ap optimised_dest (sym (find_dest-tagless a win rest g))
          ∙ ap (λ l. optimised_dest (find_dest m a l)) (sym e)
      by_round out rest h (next_tag x j t e g) ih =
          let (x_type, t_type, same, cases) = jump_to_next-some x j t out g in
          let smaller : length (t ∷ rest) ≤ n = omega (arith, ap length e) in
          written_after a out rest j t cases
          ∙ ap (find_dest m a) (sym (optimised_items-tag t rest t_type))
          ∙ ih (t ∷ rest) smaller
          ∙ ap optimised_dest
              (sym (find_dest-tagless a (x ∷ j ∷ []) (t ∷ rest) (jump_to_next-tagless x j t out g)))
          ∙ ap (λ l. optimised_dest (find_dest m a l)) (sym e)
      by_round out rest h (unreachable it' others e o r g) ih =
          let smaller : length rest ≤ n =
            omega (arith, ap length e, ap length r, length-drop_to_tag others) in
          ap (λ l. find_dest m a (l ++ optimised_items rest)) o
          ∙ find_dest-tagless a (it' ∷ []) (optimised_items rest) (terminator-tagless it' g)
          ∙ ih rest smaller
          ∙ ap (λ l. optimised_dest (find_dest m a l)) r
          ∙ ap optimised_dest (find_dest-drop a others)
          ∙ ap optimised_dest
              (sym (find_dest-tagless a (it' ∷ []) others (terminator-tagless it' g)))
          ∙ ap (λ l. optimised_dest (find_dest m a l)) (sym e)
      by_round out rest h (one it' e o) ih =
          ap (λ l. find_dest m a (l ++ optimised_items rest)) o
          ∙ kept a it' rest (ih rest (omega (arith, ap length e)))
          ∙ ap (λ l. optimised_dest (find_dest m a l)) (sym e)

  -- The code at a destination, after the loop, is what the loop makes of the code there before.
  pub find_dest-optimised_items :
      (a : ℕ) (items : List AssemblyItem)
      → find_dest m a (optimised_items items) ≡ optimised_dest (find_dest m a items)
  find_dest-optimised_items a items = dest_below (length items) a items (omega arith)
