-- ===== src/Yul/ReferencesCounter/Keys.antt =====
-- libyul/optimiser/NameCollector.cpp: the map of the counter has each name once, with a number that is
-- not 0.
use mathlib.Core.Bool.{true≢false}
use lity.Prelude.{
  ℕ, ◌≡◌, refl, sym, ap, ◌∙◌, Bool, true, false, ◌&&◌, ◌||◌, not, ltb, none, some, Option, List, [],
  ◌∷◌, if◌then◌else◌, Bool-cases, inl, inr, &&_iff, arith,
}
use lity.Devcore.StringUtils.{string_eq}
use lity.Devcore.StringUtils.Within.{string_eq_sound, string_eq_self}
use lity.Yul.Expression.{
  Name, Expression, Arguments, functional_instruction, function_call, identifier, literal,
  no_argument, argument,
}
use lity.Yul.Statement.{
  Statement, instruction, label, stack_assignment, assignment, variable_declaration,
  expression_statement, function_definition, if_statement, switch, for_loop, block, Block,
  no_statement, statement, Cases, no_case, case,
}
use lity.Yul.ReferencesCounter.{
  References, count_of, has_key, set_count, increment, increment_all, count, count_each,
  count_optional, count_statement, count_block, count_cases,
}
use lity.Yul.ReferencesCounter.Counts.{other_name, same_name}

-- No name twice, and no name with 0.
unfoldable pub is_proper : References → Bool
is_proper [] = true
is_proper ((key, n) ∷ rest) = not (has_key rest key) && (ltb 0 n && is_proper rest)

has_key-increment :
    (r : References) (n m : Name) → has_key (increment r n) m ≡ (string_eq n m || has_key r m)
unfolding has_key increment
has_key-increment [] n m = refl
has_key-increment ((key, k) ∷ rest) n m = elim (Bool-cases (string_eq key n)) [
  | inl same ↦ rw (same, same_name n key m same) (twice (string_eq key m) (has_key rest m))
  | inr other ↦
      rw (other, has_key-increment rest n m)
        (swapped (string_eq key m) (string_eq n m) (has_key rest m))
]
  where
    twice : (b c : Bool) → (b || c) ≡ (b || (b || c))
    twice b c = ground arith

    swapped : (b c d : Bool) → (b || (c || d)) ≡ (c || (b || d))
    swapped b c d = ground arith

symmetric : (n k : Name) → string_eq k n ≡ false → string_eq n k ≡ false
symmetric n k h = elim (Bool-cases (string_eq n k)) [
  | inl same ↦
      absurd (
        true≢false
          (sym (string_eq_self n) ∙ ap (λ x. string_eq x n) (string_eq_sound n k same) ∙ h))
  | inr other ↦ other
]

is_proper-increment :
    (r : References) (n : Name) → is_proper r ≡ true → is_proper (increment r n) ≡ true
unfolding is_proper increment has_key
is_proper-increment [] n h = refl
is_proper-increment ((key, k) ∷ rest) n h =
    let (fresh, later) = (&&_iff (not (has_key rest key)) (ltb 0 k && is_proper rest)).0 h in
    let (positive, proper) = (&&_iff (ltb 0 k) (is_proper rest)).0 later in
    elim (Bool-cases (string_eq key n)) [
      | inl same ↦ rw (same, fresh, proper) (ground arith)
      | inr other ↦
          rw
            (
              other,
              has_key-increment rest n key,
              symmetric n key other,
              fresh,
              positive,
              is_proper-increment rest n proper,
            )
            refl
    ]

is_proper-increment_all :
    (r : References) (ns : List Name) → is_proper r ≡ true → is_proper (increment_all r ns) ≡ true
unfolding increment_all
is_proper-increment_all r [] h = h
is_proper-increment_all r (n ∷ ns) h =
    is_proper-increment_all (increment r n) ns (is_proper-increment r n h)

mutual
  unfolding count count_each

  pub is_proper-count :
      (e : Expression) (r : References) → is_proper r ≡ true → is_proper (count e r) ≡ true
  is_proper-count (functional_instruction i xs) r h = is_proper-count_each xs r h
  is_proper-count (function_call f xs) r h =
      is_proper-count_each xs (increment r f) (is_proper-increment r f h)
  is_proper-count (identifier n) r h = is_proper-increment r n h
  is_proper-count (literal k v t) r h = h

  is_proper-count_each :
      (xs : Arguments) (r : References) → is_proper r ≡ true → is_proper (count_each xs r) ≡ true
  is_proper-count_each no_argument r h = h
  is_proper-count_each (argument e xs) r h =
      is_proper-count e (count_each xs r) (is_proper-count_each xs r h)

is_proper-count_optional :
    (e : Option Expression) (r : References)
    → is_proper r ≡ true
    → is_proper (count_optional e r) ≡ true
unfolding count_optional
is_proper-count_optional none r h = h
is_proper-count_optional (some e) r h = is_proper-count e r h

mutual
  unfolding count_statement count_block count_cases

  is_proper-statement :
      (s : Statement) (r : References) → is_proper r ≡ true → is_proper (count_statement s r) ≡ true
  is_proper-statement (instruction i) r h = h
  is_proper-statement (label n) r h = h
  is_proper-statement (stack_assignment n) r h = h
  is_proper-statement (assignment ns e) r h =
      is_proper-count e (increment_all r ns) (is_proper-increment_all r ns h)
  is_proper-statement (variable_declaration vs e) r h = is_proper-count_optional e r h
  is_proper-statement (expression_statement e) r h = is_proper-count e r h
  is_proper-statement (function_definition f ps rs b) r h = is_proper-block b r h
  is_proper-statement (if_statement e b) r h = is_proper-block b (count e r) (is_proper-count e r h)
  is_proper-statement (switch e cs) r h = is_proper-cases cs (count e r) (is_proper-count e r h)
  is_proper-statement (for_loop pre e post b) r h =
      let after_pre = count_block pre r in
      is_proper-block post (count_block b (count e after_pre)) (
        is_proper-block b (count e after_pre)
          (is_proper-count e after_pre (is_proper-block pre r h)))
  is_proper-statement (block b) r h = is_proper-block b r h

  pub is_proper-block :
      (b : Block) (r : References) → is_proper r ≡ true → is_proper (count_block b r) ≡ true
  is_proper-block no_statement r h = h
  is_proper-block (statement s b) r h =
      is_proper-block b (count_statement s r) (is_proper-statement s r h)

  is_proper-cases :
      (cs : Cases) (r : References) → is_proper r ≡ true → is_proper (count_cases cs r) ≡ true
  is_proper-cases no_case r h = h
  is_proper-cases (case v b cs) r h = is_proper-cases cs (count_block b r) (is_proper-block b r h)

pub count_of-absent : (r : References) (m : Name) → has_key r m ≡ false → count_of r m ≡ 0
unfolding count_of has_key
count_of-absent [] m h = refl
count_of-absent ((key, n) ∷ rest) m h =
    rw (or_left (string_eq key m) (has_key rest m) h)
      (count_of-absent rest m (or_right (string_eq key m) (has_key rest m) h))
  where
    or_left : (b c : Bool) → (b || c) ≡ false → b ≡ false
    or_left b c h = ground arith

    or_right : (b c : Bool) → (b || c) ≡ false → c ≡ false
    or_right b c h = ground arith

pub count_of-set_count :
    (r : References) (n m : Name) (value : ℕ)
    → count_of (set_count r n value) m ≡ (if string_eq n m then value else count_of r m)
unfolding count_of set_count
count_of-set_count [] n m value = refl
count_of-set_count ((key, k) ∷ rest) n m value = elim (Bool-cases (string_eq key n)) [
  | inl same ↦ rw (same, same_name n key m same) (again (string_eq key m) value k (count_of rest m))
  | inr other ↦ elim (Bool-cases (string_eq key m)) [
    | inl found ↦ rw (other, found, other_name n key m other found) refl
    | inr later ↦ rw (other, later) (count_of-set_count rest n m value)
  ]
]
  where
    again : (b : Bool) (x y z : ℕ) → (if b then x else z) ≡ (if b then x else (if b then y else z))
    again b x y z = ground arith
