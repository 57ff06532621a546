-- ===== src/Evmasm/RuleList/Words.antt =====
-- Laws of the operations on words of 256 bits that the rules rest on.
use lity.Prelude.{ℕ, ◌-◌, ◌^◌, ◌<◌, ◌≡◌, refl, ap, sym, ◌∙◌, bit_and, bit_or, bit_xor, arith, ◌==◌}
use lity.Prelude.Bits.{ones}
use lity.Prelude.Bits.Laws.{
  bit_and-ones, bit_or-ones, bit_and-complement, bit_or-complement, bit_xor_self, bit_xor→eq,
}
use lity.Evmasm.Word.{max_word, complement}

max-ones : ones 256 ≡ max_word
unfolding ones
max-ones = refl

module _ (x : ℕ) (w : x < 2 ^ 256) where
  pub and_max : bit_and x max_word ≡ x
  and_max = ap (bit_and x) (sym max-ones) ∙ bit_and-ones 256 x ∙ omega arith

  pub or_max : bit_or x max_word ≡ max_word
  or_max = ap (bit_or x) (sym max-ones) ∙ bit_or-ones 256 x (omega (arith, max-ones)) ∙ max-ones

  pub and_complement : bit_and x (complement x) ≡ 0
  and_complement =
      ap (λ (t : ℕ). bit_and x (t - x)) (sym max-ones)
      ∙ bit_and-complement 256 x (omega (arith, max-ones))

  pub or_complement : bit_or x (complement x) ≡ max_word
  or_complement =
      ap (λ (t : ℕ). bit_or x (t - x)) (sym max-ones)
      ∙ bit_or-complement 256 x (omega (arith, max-ones))
      ∙ max-ones

pub bit_xor-zero_test : (x y : ℕ) → (bit_xor x y == 0) ≡ (x == y)
bit_xor-zero_test x y =
    let same : x ≡ y → bit_xor x y ≡ 0 = λ e. ap (λ (t : ℕ). bit_xor t y) e ∙ bit_xor_self y in
    let apart = bit_xor→eq x y in ground arith
