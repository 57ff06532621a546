-- ===== src/Solidity/Token/Operators.antt =====
-- libsolidity/parsing/Token.h: the classes of operators, and what an assignment operator stands for.
use lity.Prelude.{
  ℕ, ◌≤◌, ◌<◌, ◌≡◌, ◌≢◌, ◌↔◌, inl, inr, refl, Bool, true, false, ◌&&◌, ◌||◌, not, List, [], ◌∷◌,
  length, get_or, ltb, ◌==◌, arith, everywhere, everywhere_sound, ltb→lt, Bool-cases, zero, suc,
}
use lity.Solidity.Token.{
  Token, conditional, precedences, precedence, is_assignment_op, is_binary_op, is_compare_op,
}

abbrev has_precedence : ℕ → Bool
has_precedence t = is_binary_op t || (is_compare_op t || (is_assignment_op t || (t == conditional)))

abbrev agree : ℕ → Bool
agree t =
    (not (ltb 0 (precedence t)) || has_precedence t)
    && (not (has_precedence t) || ltb 0 (precedence t))

agree-everywhere : everywhere agree 45 ≡ true
unfolding everywhere precedence precedences is_binary_op is_compare_op is_assignment_op
agree-everywhere = refl

agree_iff :
    (n : ℕ) (b : Bool) → ((not (ltb 0 n) || b) && (not b || ltb 0 n)) ≡ true → (0 < n) ↔ (b ≡ true)
agree_iff n true h = ground arith
agree_iff n false h = ground arith

get_or_out {ℓ} : {A : Type ℓ} (xs : List A) (i : ℕ) (d : A) → length xs ≤ i → get_or xs i d ≡ d
get_or_out [] i d h = refl
get_or_out (x ∷ xs) zero d h = absurd (omega arith)
get_or_out (x ∷ xs) (suc i) d h = get_or_out xs i d (omega arith)

precedence_out : (t : Token) → 45 ≤ t → precedence t ≡ 0
unfolding precedence precedences
precedence_out t h = get_or_out precedences t 0 h

has_precedence_out : (t : Token) → 45 ≤ t → has_precedence t ≢ true
unfolding is_binary_op is_compare_op is_assignment_op
has_precedence_out t h e = ground arith

-- The tokens with a precedence above 0 are the binary operators, the comparisons, the assignment
-- operators and the question mark.
pub precedence_iff :
    (t : Token)
    → (0 < precedence t)
      ↔ ((is_binary_op t || (is_compare_op t || (is_assignment_op t || (t == conditional)))) ≡ true)
precedence_iff t = elim (Bool-cases (ltb t 45)) [
  | inl below ↦
      agree_iff (precedence t) (has_precedence t)
        (everywhere_sound agree 45 t (ltb→lt t 45 below) agree-everywhere)
  | inr above ↦
      let high : 45 ≤ t = ground arith in
      let none_above = precedence_out t high in
      ((λ h. absurd (omega arith)), (λ h. absurd (has_precedence_out t high h)))
]
