-- ===== src/Evmasm/RuleList/FirstMatch.antt =====
-- libevmasm/SimplificationRules.cpp, RuleList.h: the rule that is found first keeps the value of the
-- expression.
use lity.Prelude.{
  ℕ, ◌^◌, ◌<◌, ◌≡◌, refl, sym, ap, ◌∙◌, subst, true, false, Option, none, some, List, [], ◌∷◌,
  Result, ok, err, Bool-cases, Option-cases, inl, inr, ◌⊎◌, arith,
}
use lity.Evmasm.Opcode.{Instruction}
use lity.Evmasm.SimplificationRules.Syntax.{
  Group, Pattern, constant, matched, apply, SimplificationRule, evaluate,
}
use lity.Evmasm.SimplificationRules.{
  Expression, Groups, no_groups, matches, has_instruction, rules_of, found, first_match,
  find_first_match,
}
use lity.Evmasm.SimplificationRules.Meaning.{IsMeaning, Consistent, group_data, group_data-none}
use lity.Evmasm.SimplificationRules.Matched.{
  group_data-mean, Bound, Matches, AppliesTo, apply-value, matches_all-value,
}
use lity.Evmasm.RuleList.{part_1, part_2, simplification_rule_list}
use lity.Evmasm.RuleList.Sound.{
  Agree, Sound, AllSound, done, ◌also◌, behind, append-AllSound, constant_rules-AllSound,
  known_constant_rules-AllSound,
}
use lity.Evmasm.RuleList.Logic.{
  self_rules-AllSound, logic_rules-AllSound, power_rules-AllSound, negation_rules-AllSound,
  address_rules-AllSound,
}
use lity.Evmasm.RuleList.Moves.{
  add-AllSound, mul-AllSound, and-AllSound, or-AllSound, xor-AllSound, subtraction_rules-AllSound,
}

module _ (environment : Instruction → ℕ)
    (addresses : (i : Instruction) → environment i < 2 ^ 160) where
  -- The whole list.
  pub simplification_rule_list-AllSound : AllSound environment simplification_rule_list
  unfolding simplification_rule_list part_1 part_2
  simplification_rule_list-AllSound =
      append-AllSound environment _ _
        (append-AllSound environment _ _ (constant_rules-AllSound environment) (
          append-AllSound environment _ _ (known_constant_rules-AllSound environment) (
            append-AllSound environment _ _ (self_rules-AllSound environment)
              (logic_rules-AllSound environment))))
        (append-AllSound environment _ _ (power_rules-AllSound environment 256 0) (
          append-AllSound environment _ _ (address_rules-AllSound environment addresses) (
            append-AllSound environment _ _ (negation_rules-AllSound environment) (
              append-AllSound environment _ _ (add-AllSound environment) (
                append-AllSound environment _ _ (mul-AllSound environment) (
                  append-AllSound environment _ _ (and-AllSound environment) (
                    append-AllSound environment _ _ (or-AllSound environment) (
                      append-AllSound environment _ _ (xor-AllSound environment)
                        (subtraction_rules-AllSound environment)))))))))

  rules_of-AllSound :
      (i : Instruction) (rs : List SimplificationRule)
      → AllSound environment rs
      → AllSound environment (rules_of i rs)
  unfolding rules_of
  rules_of-AllSound i [] done = done
  rules_of-AllSound i (r ∷ rs) (h also hs) = elim (Bool-cases (has_instruction i r.pattern)) [
    | inl e ↦ rw e (h also rules_of-AllSound i rs hs)
    | inr e ↦ rw e (rules_of-AllSound i rs hs)
  ]
  rules_of-AllSound i (r ∷ q ∷ rs) (behind same h hs) =
      elim (Bool-cases (has_instruction i r.pattern)) [
        | inl e ↦
            let e' : has_instruction i q.pattern ≡ true = ap (has_instruction i) same ∙ e in
            rw (e, e') (behind same h (rules_of-AllSound i rs hs))
        | inr e ↦
            let e' : has_instruction i q.pattern ≡ false = ap (has_instruction i) same ∙ e in
            rw (e, e') (rules_of-AllSound i rs hs)
      ]

  module _ (representative : ℕ → Expression) (e : Expression) where
    found-cases :
        (r r' : SimplificationRule) (gs : Groups)
        (rest : Result (Option (SimplificationRule × Groups))) (m : Result (Option Groups))
        → found r' rest m ≡ ok (some (r, gs))
        → ((r' ≡ r) × (m ≡ ok (some gs))) ⊎ ((m ≡ ok none) × (rest ≡ ok (some (r, gs))))
    found-cases r r' gs rest (ok (some gs')) h = inl (cc, cc)
    found-cases r r' gs rest (ok none) h = inr (refl, h)
    found-cases r r' gs rest (err x) h = absurd (cc)

    first_match-Sound :
        (rs : List SimplificationRule) (r : SimplificationRule) (gs : Groups)
        → AllSound environment rs
        → first_match representative e rs ≡ ok (some (r, gs))
        → Sound environment r
    unfolding first_match
    first_match-Sound [] r gs done h = absurd (cc)
    first_match-Sound (r' ∷ rs) r gs (s also hs) h =
        elim (found-cases r r' gs (first_match representative e rs)
          (matches representative r'.pattern e no_groups) h) [
            | inl (same, _) ↦ subst (Sound environment) same s
            | inr (_, k) ↦ first_match-Sound rs r gs hs k
          ]
    first_match-Sound (r' ∷ q ∷ rs) r gs (behind p s hs) h =
        elim (found-cases r r' gs (first_match representative e (q ∷ rs))
          (matches representative r'.pattern e no_groups) h) [
            | inl (same, _) ↦ subst (Sound environment) same s
            | inr (n, k) ↦
                elim (found-cases r q gs (first_match representative e rs)
                  (matches representative q.pattern e no_groups) k) [
                    | inl (_, m) ↦
                        let n' = ap (λ t. matches representative t e no_groups) p ∙ n in
                        absurd (cc (m, n'))
                    | inr (_, k') ↦ first_match-Sound rs r gs hs k'
                  ]
          ]

    first_match-matches :
        (i : Instruction) (rs : List SimplificationRule) (r : SimplificationRule) (gs : Groups)
        → first_match representative e (rules_of i rs) ≡ ok (some (r, gs))
        → (has_instruction i r.pattern ≡ true)
          × (matches representative r.pattern e no_groups ≡ ok (some gs))
    unfolding first_match rules_of
    first_match-matches i [] r gs h = absurd (cc)
    first_match-matches i (r' ∷ rs) r gs h = elim (Bool-cases (has_instruction i r'.pattern)) [
      | inl t ↦
          elim (found-cases r r' gs (first_match representative e (rules_of i rs))
            (matches representative r'.pattern e no_groups) (rw t at h)) [
              | inl (same, m) ↦ (
                ap (λ q. has_instruction i q.pattern) (sym same) ∙ t,
                ap (λ q. matches representative q.pattern e no_groups) (sym same) ∙ m,
              )
              | inr (_, k) ↦ first_match-matches i rs r gs k
            ]
      | inr t ↦ first_match-matches i rs r gs (rw t at h)
    ]

Agree-value : (o o' : Option ℕ) (u : ℕ) → Agree o o' → ((v : ℕ) → o ≡ some v → v ≡ u) → o' ≡ some u
Agree-value (some v) (some v') u a h = ap some (sym a ∙ h v refl)
Agree-value (some v) none u a h = absurd a
Agree-value none o' u a h = absurd a

module _ (environment : Instruction → ℕ) (representative : ℕ → Expression) (mean : ℕ → ℕ)
    (consistent : Consistent environment representative mean)
    (words : (a : ℕ) → mean a < 2 ^ 256) where
  pattern-value :
      (p : Pattern) (i : Instruction) (e : Expression) (u : ℕ) (gs : Groups)
      → IsMeaning environment mean e u
      → has_instruction i p ≡ true
      → matches representative p e no_groups ≡ ok (some gs)
      → Bound environment representative mean consistent gs
        × ((v : ℕ) → evaluate environment (group_data mean gs) p ≡ some v → v ≡ u)
  unfolding Matches AppliesTo
  pattern-value (constant n) i e u gs means t h = absurd (cc)
  pattern-value (matched g) i e u gs means t h = absurd (cc)
  pattern-value (apply i' ps) i e u gs means t h =
      let (b, x, values) =
        apply-value environment representative mean consistent i' ps e u no_groups gs
          (λ c all.
            matches_all-value environment representative mean consistent ps e.arguments no_groups gs
              c all (λ g e' k. absurd (cc)))
          means h (λ g e' k. absurd (cc)) in
      (b, values gs (λ g e' k. k) b)

  group_data-lt :
      (gs : Groups) (g : Group)
      → Bound environment representative mean consistent gs
      → group_data mean gs g < 2 ^ 256
  group_data-lt gs g b = elim (Option-cases (gs g)) [
    | inl n ↦ let z = group_data-none mean gs g n in omega (arith, z)
    | inr (e, k) ↦
        let v = group_data-mean environment representative mean consistent gs g e b k in
        omega (arith, v, words e.id)
  ]

-- The first rule that matches keeps the value. If each class has one value, a word, that its
-- representative computes from its arguments, of which it has as many as the table says; if the
-- expression computes the value u in the same way; and if the opcodes of addresses put 160 bits, then the
-- replacement that the rule builds from what it matched has the value u.
pub find_first_match-value :
    (environment : Instruction → ℕ) (representative : ℕ → Expression) (mean : ℕ → ℕ)
    (e : Expression) (u : ℕ) (r : SimplificationRule) (gs : Groups)
    → ((i : Instruction) → environment i < 2 ^ 160)
    → Consistent environment representative mean
    → ((a : ℕ) → mean a < 2 ^ 256)
    → IsMeaning environment mean e u
    → find_first_match representative simplification_rule_list e ≡ ok (some (r, gs))
    → evaluate environment (group_data mean gs) (r.action (group_data mean gs)) ≡ some u
unfolding find_first_match
find_first_match-value environment representative mean e u r gs addresses consistent words means h =
    elim (Option-cases e.item) [
      | inl n ↦ absurd (ground arith)
      | inr (it, o) ↦
          let f : first_match representative e (rules_of it.instruction simplification_rule_list)
              ≡ ok (some (r, gs)) =
            ground arith in
          let (t, m) =
            first_match-matches environment addresses representative e it.instruction
              simplification_rule_list r gs f in
          let (b, v) =
            pattern-value environment representative mean consistent words r.pattern it.instruction
              e u gs means t m in
          let sound =
            first_match-Sound environment addresses representative e
              (rules_of it.instruction simplification_rule_list) r gs
              (rules_of-AllSound environment addresses it.instruction simplification_rule_list
                (simplification_rule_list-AllSound environment addresses))
              f in
          Agree-value (evaluate environment (group_data mean gs) r.pattern) _ u
            (sound (group_data mean gs)
              (λ g. group_data-lt environment representative mean consistent words gs g b))
            v
    ]
