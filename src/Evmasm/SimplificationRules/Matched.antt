-- ===== src/Evmasm/SimplificationRules/Matched.antt =====
-- libevmasm/SimplificationRules.cpp: a pattern that matches has the value of the expression.
use lity.Prelude.{
  ℕ, ◌≡◌, refl, sym, ap, ◌∙◌, subst, true, Option, none, some, List, [], ◌∷◌, length, map, ◌==◌,
  Result, ok, err, Bool-cases, Option-cases, ◌⊎◌, inl, inr, arith,
}
use lity.Evmasm.Opcode.{Instruction}
use lity.Evmasm.Instruction.{instruction_info}
use lity.Evmasm.AssemblyItem.{AssemblyItem, type_eq, push, operation}
use lity.Evmasm.Machine.Runs.Known.{type_eq→eq}
use lity.Evmasm.SimplificationRules.{
  Expression, Groups, group_number, set_group, matches_base_item, match_group, count, after_match,
  matches, matches_all,
}
use lity.Evmasm.SimplificationRules.Meaning.{
  IsMeaning, Consistent, item_data, group_data, Extends, set_group-Extends, set_group_self,
  known_nullary,
}
use lity.Evmasm.SimplificationRules.Syntax.{
  Group, Pattern, Patterns, constant, matched, apply, nil, cons, value, push_value, evaluate,
  evaluate_all,
}

after_match-ok :
    (f : Groups → Result (Option Groups)) (r : Result (Option Groups)) (gs' : Groups)
    → after_match f r ≡ ok (some gs')
    → (gs : Groups) × (r ≡ ok (some gs)) × (f gs ≡ ok (some gs'))
after_match-ok f (ok (some gs)) gs' h = (gs, refl, h)
after_match-ok f (ok none) gs' h = absurd (cc)
after_match-ok f (err x) gs' h = absurd (cc)

push_value-some :
    (mean : ℕ → ℕ) (a : ℕ) (args : List ℕ) (o : Option ℕ) (os : Option (List ℕ)) (vs : List ℕ)
    → ((v : ℕ) → o ≡ some v → v ≡ mean a)
    → ((ws : List ℕ) → os ≡ some ws → ws ≡ map mean args)
    → push_value o os ≡ some vs
    → vs ≡ map mean (a ∷ args)
push_value-some mean a args (some v) (some ws) vs h k s =
    let e = h v refl in let e' = k ws refl in cc
push_value-some mean a args (some v) none vs h k s = absurd (cc)
push_value-some mean a args none os vs h k s = absurd (cc)

module _ (environment : Instruction → ℕ) (representative : ℕ → Expression) (mean : ℕ → ℕ)
    (consistent : Consistent environment representative mean) where
  -- Only representatives are in the groups.
  abbrev pub Bound : Groups → Type 0
  Bound gs = (g : Group) (e : Expression) → gs g ≡ some e → (a : ℕ) × (e ≡ representative a)

  item_data-mean : (a : ℕ) → item_data (mean a) (representative a).item ≡ mean a
  item_data-mean a = elim (Option-cases (representative a).item) [
    | inl e ↦ rw e refl
    | inr (it, e) ↦ elim (Bool-cases (type_eq it.type push)) [
      | inl p ↦ rw (e, p) (sym ((consistent a).1.of_push it e (type_eq→eq _ _ p)))
      | inr n ↦ rw (e, n) refl
    ]
  ]

  pub group_data-mean :
      (gs : Groups) (g : Group) (e : Expression)
      → Bound gs
      → gs g ≡ some e
      → group_data mean gs g ≡ mean e.id
  unfolding group_data
  group_data-mean gs g e b h =
      let (a, k) = b g e h in rw (h, k, (consistent a).0) (item_data-mean a)

  unfoldable pub Matches : Groups → Groups → ((Group → ℕ) → Type 0) → Type 0
  Matches gs gs' P =
      Bound gs'
      × Extends gs gs'
      × ((gs'' : Groups) → Extends gs' gs'' → Bound gs'' → P (group_data mean gs''))

  set_group-Bound :
      (g : Group) (a : ℕ) (gs : Groups) → Bound gs → Bound (set_group g (representative a) gs)
  set_group-Bound g a gs b g' e h = elim (Bool-cases (group_number g' == group_number g)) [
    | inl t ↦ (a, ground arith)
    | inr t ↦ b g' e (ground arith)
  ]

  match_group-value :
      (g : Group) (a : ℕ) (gs gs' : Groups)
      → match_group g (representative a) gs ≡ some gs'
      → Bound gs
      → Matches gs gs' (λ d. d g ≡ mean a)
  unfolding match_group Matches
  match_group-value g a gs gs' h b = elim (Option-cases (gs g)) [
    | inl n ↦
        let e : set_group g (representative a) gs ≡ gs' = ground arith in
        subst (λ q. Matches gs q (λ d. d g ≡ mean a)) e
          (
            set_group-Bound g a gs b,
            set_group-Extends g (representative a) gs n,
            λ gs'' x b'.
                group_data-mean gs'' g (representative a) b'
                  (x g (representative a) (set_group_self g (representative a) gs))
                ∙ ap mean (consistent a).0,
          )
    | inr (e', k) ↦
        let e : gs ≡ gs' = ground arith in
        let i : e'.id ≡ (representative a).id = ground arith in
        subst (λ q. Matches gs q (λ d. d g ≡ mean a)) e
          (
            b,
            λ g' e'' k'. k',
            λ gs'' x b'. group_data-mean gs'' g e' b' (x g e' k) ∙ ap mean (i ∙ (consistent a).0),
          )
  ]

  unfoldable pub AppliesTo : Instruction → Patterns → ℕ → (Group → ℕ) → Type 0
  AppliesTo i ps u d = (v : ℕ) → evaluate environment d (apply i ps) ≡ some v → v ≡ u

  -- The operands once they are matched: the instruction has the value of the expression.
  applied :
      (i : Instruction) (ps : Patterns) (e : Expression) (it : AssemblyItem) (u : ℕ) (d : Group → ℕ)
      → IsMeaning environment mean e u
      → e.item ≡ some it
      → it.type ≡ operation
      → i ≡ it.instruction
      → ((vs : List ℕ) → evaluate_all environment d ps ≡ some vs → vs ≡ map mean e.arguments)
      → AppliesTo i ps u d
  unfolding AppliesTo evaluate
  applied i ps e it u d means o t k operands v h =
      elim (Option-cases (evaluate_all environment d ps)) [
        | inl n ↦ absurd (ground arith)
        | inr (vs, s) ↦
            let w : value environment i vs ≡ some v = ground arith in
            let w' : value environment it.instruction (map mean e.arguments) ≡ some v =
              subst (λ l. value environment it.instruction l ≡ some v) (operands vs s)
                (subst (λ j. value environment j vs ≡ some v) k w) in
            sym ((means.of_operation it o t).1 v w')
      ]

  constant-value :
      (n a : ℕ) (gs gs' : Groups)
      → matches representative (constant n) (representative a) gs ≡ ok (some gs')
      → Bound gs
      → Matches gs gs' (λ d. (v : ℕ) → evaluate environment d (constant n) ≡ some v → v ≡ mean a)
  unfolding matches evaluate matches_base_item Matches
  constant-value n a gs gs' h b = elim (Option-cases (representative a).item) [
    | inl o ↦ absurd (ground arith)
    | inr (it, o) ↦
        let t : type_eq it.type push ≡ true = ground arith in
        let k : n ≡ it.data_value = ground arith in
        let e : gs ≡ gs' = ground arith in
        let u = (consistent a).1.of_push it o (type_eq→eq _ _ t) in
        subst
          (λ q.
            Matches gs q (λ d. (v : ℕ) → evaluate environment d (constant n) ≡ some v → v ≡ mean a))
          e (b, λ g e' k'. k', λ gs'' x b' v s. ground arith)
  ]

  matched-value :
      (g : Group) (a : ℕ) (gs gs' : Groups)
      → matches representative (matched g) (representative a) gs ≡ ok (some gs')
      → Bound gs
      → Matches gs gs' (λ d. (v : ℕ) → evaluate environment d (matched g) ≡ some v → v ≡ mean a)
  unfolding matches evaluate Matches
  matched-value g a gs gs' h b =
      let (b', x, values) = match_group-value g a gs gs' (ground arith) b in
      (b', x, λ gs'' y c v s. let w = values gs'' y c in ground arith)

  -- The item of an operation that matches, and its operands.
  apply-matches :
      (i : Instruction) (ps : Patterns) (e : Expression) (it : AssemblyItem) (gs gs' : Groups)
      → e.item ≡ some it
      → matches representative (apply i ps) e gs ≡ ok (some gs')
      → (type_eq it.type operation ≡ true)
        × (i ≡ it.instruction)
        × ((count ps ≡ 0) ⊎ (length e.arguments ≡ count ps))
        × (matches_all representative ps e.arguments gs ≡ ok (some gs'))
  unfolding matches matches_base_item
  apply-matches i ps e it gs gs' o h = (ground arith, ground arith, ground arith, ground arith)

  no_length : {A : Type 0} (l : List A) → length l ≡ 0 → l ≡ []
  no_length [] h = refl
  no_length (x ∷ l) h = absurd (omega arith)

  -- What matching the operands gives.
  abbrev pub Operands : Patterns → List ℕ → Groups → Groups → Type 0
  Operands ps args gs gs' =
      Matches gs gs'
        (λ d. (vs : List ℕ) → evaluate_all environment d ps ≡ some vs → vs ≡ map mean args)

  pub apply-value :
      (i : Instruction) (ps : Patterns) (e : Expression) (u : ℕ) (gs gs' : Groups)
      → (count ps ≡ length e.arguments
          → matches_all representative ps e.arguments gs ≡ ok (some gs')
          → Operands ps e.arguments gs gs')
      → IsMeaning environment mean e u
      → matches representative (apply i ps) e gs ≡ ok (some gs')
      → Bound gs
      → Matches gs gs' (AppliesTo i ps u)
  unfolding Matches AppliesTo evaluate
  apply-value i nil e u gs gs' operands means h b = elim (Option-cases e.item) [
    | inl n ↦ absurd (unfold matches matches_base_item in ground arith)
    | inr (it, o) ↦
        let (t, k, c, all) = apply-matches i nil e it gs gs' o h in
        let same : gs ≡ gs' = unfold matches in ground arith in
        subst (λ q. Matches gs q (AppliesTo i nil u)) same
          (b, λ g e' k'. k', λ gs'' x b'. nullary it o (type_eq→eq _ _ t) k (group_data mean gs''))
  ]
    where
      nullary :
          (it : AssemblyItem)
          → e.item ≡ some it
          → it.type ≡ operation
          → i ≡ it.instruction
          → (d : Group → ℕ) → AppliesTo i nil u d
      nullary it o t k d v s =
          let z = known_nullary environment i v s in
          let no_arguments =
            no_length e.arguments
              ((means.of_operation it o t).0 ∙ sym (ap (λ j. (instruction_info j).args) k) ∙ z) in
          applied i nil e it u d means o t k (λ vs q. rw no_arguments (ground arith)) v s
  apply-value i (cons p ps) e u gs gs' operands means h b = elim (Option-cases e.item) [
    | inl n ↦ absurd (unfold matches matches_base_item in ground arith)
    | inr (it, o) ↦
        let (t, k, c, all) = apply-matches i (cons p ps) e it gs gs' o h in
        let (b', x, values) = operands (omega arith) all in
        (
          b',
          x,
          λ gs'' y b''.
              applied i (cons p ps) e it u (group_data mean gs'') means o (type_eq→eq _ _ t) k
                (values gs'' y b''),
        )
  ]

  mutual
    unfolding matches evaluate Matches AppliesTo

    pub matches-value :
        (p : Pattern) (a : ℕ) (gs gs' : Groups)
        → matches representative p (representative a) gs ≡ ok (some gs')
        → Bound gs
        → Matches gs gs' (λ d. (v : ℕ) → evaluate environment d p ≡ some v → v ≡ mean a)
    matches-value (constant n) a gs gs' h b = constant-value n a gs gs' h b
    matches-value (matched g) a gs gs' h b = matched-value g a gs gs' h b
    matches-value (apply i ps) a gs gs' h b =
        apply-value i ps (representative a) (mean a) gs gs'
          (λ c all. matches_all-value ps (representative a).arguments gs gs' c all b)
          (consistent a).1 h b

    pub matches_all-value :
        (ps : Patterns) (args : List ℕ) (gs gs' : Groups)
        → count ps ≡ length args
        → matches_all representative ps args gs ≡ ok (some gs')
        → Bound gs
        → Operands ps args gs gs'
    matches_all-value nil [] gs gs' c h b =
        let same : gs ≡ gs' = ground arith in
        subst (λ q. Operands nil [] gs q) same (b, λ g e k. k, λ gs'' y b' vs s. ground arith)
    matches_all-value nil (a ∷ args) gs gs' c h b = absurd (omega arith)
    matches_all-value (cons p ps) [] gs gs' c h b = absurd (omega arith)
    matches_all-value (cons p ps) (a ∷ args) gs gs' c h b =
        let (gs₁, first, rest) =
          after_match-ok (λ q. matches_all representative ps args q)
            (matches representative p (representative a) gs) gs' h in
        let (b₁, x₁, value₁) = matches-value p a gs gs₁ first b in
        let (b₂, x₂, values₂) = matches_all-value ps args gs₁ gs' (omega arith) rest b₁ in
        (
          b₂,
          λ g e k. x₂ g e (x₁ g e k),
          λ gs'' y b' vs s.
              push_value-some mean a args _ _ vs (value₁ gs'' (λ g e k. y g e (x₂ g e k)) b')
                (values₂ gs'' y b') s,
        )
