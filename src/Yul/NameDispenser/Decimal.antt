-- ===== src/Yul/NameDispenser/Decimal.antt =====
-- Different numbers have different decimal digits.
use lity.Prelude.{
  ℕ, zero, suc, ◌+◌, ◌-◌, ◌*◌, ◌/◌, ◌%◌, ◌≤◌, ◌<◌, ◌≡◌, refl, sym, ap, ◌∙◌, [], ◌∷◌, ◌++◌, ltb,
  Bool-cases, inl, inr, arith,
}
use lity.Yul.Expression.{Name}
use lity.Yul.NameDispenser.{digits, to_string, candidate}

-- The number that digits stand for, after a number before them.
unfoldable read : ℕ → Name → ℕ
read before [] = before
read before (d ∷ ds) = read (before * 10 + (d - 48)) ds

read-append :
    (before : ℕ) (xs : Name) (d : ℕ) → read before (xs ++ (d ∷ [])) ≡ read before xs * 10 + (d - 48)
unfolding read
read-append before [] d = refl
read-append before (x ∷ xs) d = read-append (before * 10 + (x - 48)) xs d

read-digits : (fuel n : ℕ) → n < fuel → read 0 (digits fuel n) ≡ n
unfolding digits read
read-digits zero n h = absurd (omega arith)
read-digits (suc fuel) n h = elim (Bool-cases (ltb n 10)) [
  | inl small ↦ rw small (omega arith)
  | inr large ↦
      let big : 10 ≤ n = ground arith in
      rw large (
        read-append 0 (digits fuel (n / 10)) (48 + n % 10)
        ∙ rw (read-digits fuel (n / 10) (omega arith)) (omega arith))
]

to_string-injective : (m n : ℕ) → to_string m ≡ to_string n → m ≡ n
unfolding to_string
to_string-injective m n e =
    sym (read-digits (m + 1) m (omega arith)) ∙ ap (read 0) e ∙ read-digits (n + 1) n (omega arith)

tail : Name → Name
tail [] = []
tail (c ∷ cs) = cs

append-cancel : (xs ys zs : Name) → xs ++ ys ≡ xs ++ zs → ys ≡ zs
unfolding tail
append-cancel [] ys zs e = e
append-cancel (x ∷ xs) ys zs e = append-cancel xs ys zs (ap tail e)

-- Different counters make different names.
pub candidate-injective :
    (name_hint : Name) (m n : ℕ) → candidate name_hint m ≡ candidate name_hint n → m ≡ n
unfolding candidate tail
candidate-injective name_hint m n e =
    to_string-injective m n
      (ap tail (append-cancel name_hint (95 ∷ to_string m) (95 ∷ to_string n) e))
