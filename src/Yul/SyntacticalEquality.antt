-- ===== src/Yul/SyntacticalEquality.antt =====
-- libyul/optimiser/SyntacticalEquality.cpp: when two expressions are written alike.
use mathlib.Core.Bool.{false≢true}
use lity.Prelude.{◌≡◌, ◌↔◌, refl, ap, subst, ◌∙◌, Bool, true, false, ◌&&◌, ◌==◌, arith, ==_iff}
use lity.Devcore.StringUtils.{string_eq}
use lity.Devcore.StringUtils.Within.{string_eq_sound, string_eq_self}
use lity.Yul.Expression.{
  Name, LiteralKind, number_literal, boolean_literal, string_literal, Expression, Arguments,
  functional_instruction, function_call, identifier, literal, no_argument, argument, size,
}

abbrev pub kind_eq : LiteralKind → LiteralKind → Bool
kind_eq number_literal number_literal = true
kind_eq boolean_literal boolean_literal = true
kind_eq string_literal string_literal = true
kind_eq _ _ = false

-- `equal`, and `equalVector` after it has compared the sizes. Different kinds of expression are not
-- equal, and there are no others, so that the assertion on the last branch is never reached.
unfoldable mutual
  unfolding size

  pub equal : Expression → Expression → Bool
  equal (functional_instruction i xs) (functional_instruction j ys) =
      (i == j) && ((size xs == size ys) && equal_each xs ys)
  equal (function_call f xs) (function_call g ys) =
      string_eq f g && ((size xs == size ys) && equal_each xs ys)
  equal (identifier n) (identifier m) = string_eq n m
  equal (literal k v t) (literal l w u) = kind_eq k l && (string_eq v w && string_eq t u)
  equal _ _ = false

  pub equal_each : Arguments → Arguments → Bool
  equal_each no_argument ys = true
  equal_each (argument e xs) no_argument = false
  equal_each (argument e xs) (argument f ys) = equal e f && equal_each xs ys

kind_eq_sound : (k l : LiteralKind) → kind_eq k l ≡ true → k ≡ l
kind_eq_sound number_literal number_literal h = refl
kind_eq_sound boolean_literal boolean_literal h = refl
kind_eq_sound string_literal string_literal h = refl
kind_eq_sound number_literal boolean_literal h = absurd (false≢true h)
kind_eq_sound number_literal string_literal h = absurd (false≢true h)
kind_eq_sound boolean_literal number_literal h = absurd (false≢true h)
kind_eq_sound boolean_literal string_literal h = absurd (false≢true h)
kind_eq_sound string_literal number_literal h = absurd (false≢true h)
kind_eq_sound string_literal boolean_literal h = absurd (false≢true h)

kind_eq_self : (k : LiteralKind) → kind_eq k k ≡ true
kind_eq_self number_literal = refl
kind_eq_self boolean_literal = refl
kind_eq_self string_literal = refl

both : (x y : Bool) → (x && y) ≡ true → (x ≡ true) × (y ≡ true)
both x y h = ground arith

size_no : (e : Expression) (xs : Arguments) → (size no_argument == size (argument e xs)) ≡ true → ⊥
unfolding size
size_no e xs h = absurd (ground arith)

size_less :
    (e f : Expression) (xs ys : Arguments)
    → (size (argument e xs) == size (argument f ys)) ≡ true
    → (size xs == size ys) ≡ true
unfolding size
size_less e f xs ys h = ground arith

ap2 : {A B C : Type 0} (f : A → B → C) {a a' : A} {b b' : B} → a ≡ a' → b ≡ b' → f a b ≡ f a' b'
ap2 f {a} {a'} {b} {b'} e k = ap (λ x. f x b) e ∙ ap (f a') k

literal_eq :
    {k l : LiteralKind} {v w t u : Name} → k ≡ l → v ≡ w → t ≡ u → literal k v t ≡ literal l w u
literal_eq {k} {l} {v} {w} {t} {u} e h r =
    ap (λ x. literal x v t) e ∙ ap (λ x. literal l x t) h ∙ ap (literal l w) r

-- What is found equal is the same, and the other way round.
mutual
  unfolding equal equal_each size

  equal_sound : (a b : Expression) → equal a b ≡ true → a ≡ b
  equal_sound (functional_instruction i xs) (functional_instruction j ys) h =
      let (hi, hxs) = both (i == j) ((size xs == size ys) && equal_each xs ys) h in
      let (hs, he) = both (size xs == size ys) (equal_each xs ys) hxs in
      ap2 functional_instruction ((==_iff i j).0 hi) (equal_each_sound xs ys hs he)
  equal_sound (function_call f xs) (function_call g ys) h =
      let (hf, hxs) = both (string_eq f g) ((size xs == size ys) && equal_each xs ys) h in
      let (hs, he) = both (size xs == size ys) (equal_each xs ys) hxs in
      ap2 function_call (string_eq_sound f g hf) (equal_each_sound xs ys hs he)
  equal_sound (identifier n) (identifier m) h = ap identifier (string_eq_sound n m h)
  equal_sound (literal k v t) (literal l w u) h =
      let (hk, hvt) = both (kind_eq k l) (string_eq v w && string_eq t u) h in
      let (hv, ht) = both (string_eq v w) (string_eq t u) hvt in
      literal_eq (kind_eq_sound k l hk) (string_eq_sound v w hv) (string_eq_sound t u ht)
  equal_sound (functional_instruction i xs) (function_call g ys) h = absurd (false≢true h)
  equal_sound (functional_instruction i xs) (identifier m) h = absurd (false≢true h)
  equal_sound (functional_instruction i xs) (literal l w u) h = absurd (false≢true h)
  equal_sound (function_call f xs) (functional_instruction j ys) h = absurd (false≢true h)
  equal_sound (function_call f xs) (identifier m) h = absurd (false≢true h)
  equal_sound (function_call f xs) (literal l w u) h = absurd (false≢true h)
  equal_sound (identifier n) (functional_instruction j ys) h = absurd (false≢true h)
  equal_sound (identifier n) (function_call g ys) h = absurd (false≢true h)
  equal_sound (identifier n) (literal l w u) h = absurd (false≢true h)
  equal_sound (literal k v t) (functional_instruction j ys) h = absurd (false≢true h)
  equal_sound (literal k v t) (function_call g ys) h = absurd (false≢true h)
  equal_sound (literal k v t) (identifier m) h = absurd (false≢true h)

  equal_each_sound :
      (xs ys : Arguments) → (size xs == size ys) ≡ true → equal_each xs ys ≡ true → xs ≡ ys
  equal_each_sound no_argument no_argument hs he = refl
  equal_each_sound no_argument (argument f ys) hs he = absurd (size_no f ys hs)
  equal_each_sound (argument e xs) no_argument hs he = absurd (false≢true he)
  equal_each_sound (argument e xs) (argument f ys) hs he =
      let (h, hrest) = both (equal e f) (equal_each xs ys) he in
      ap2 argument (equal_sound e f h) (equal_each_sound xs ys (size_less e f xs ys hs) hrest)

mutual
  unfolding equal equal_each size

  equal_self : (a : Expression) → equal a a ≡ true
  equal_self (functional_instruction i xs) =
      rw ((==_iff i i).1 refl, (==_iff (size xs) (size xs)).1 refl, equal_each_self xs) refl
  equal_self (function_call f xs) =
      rw (string_eq_self f, (==_iff (size xs) (size xs)).1 refl, equal_each_self xs) refl
  equal_self (identifier n) = string_eq_self n
  equal_self (literal k v t) = rw (kind_eq_self k, string_eq_self v, string_eq_self t) refl

  equal_each_self : (xs : Arguments) → equal_each xs xs ≡ true
  equal_each_self no_argument = refl
  equal_each_self (argument e xs) = rw (equal_self e, equal_each_self xs) refl

-- Two expressions are found equal just if they are the same, up to their locations.
pub equal_iff : (a b : Expression) → (equal a b ≡ true) ↔ (a ≡ b)
equal_iff a b = (equal_sound a b, λ e. subst (λ x. equal a x ≡ true) e (equal_self a))
