-- ===== src/Yul/NameDispenser/Fresh.antt =====
-- libyul/optimiser/NameDispenser.cpp: a fresh name is found, and the rounds that it takes.
use native.Mathlib.Nat.{mod-eq_of_lt}
use lity.Prelude.{
  ℕ, zero, suc, ◌+◌, ◌≤◌, ◌<◌, ◌≡◌, ◌≢◌, refl, sym, ap, subst, ◌∙◌, true, false, ◌||◌, some, List,
  [], ◌∷◌, length, if◌then◌else◌, Bool-cases, inl, inr, arith,
}
use lity.Devcore.StringUtils.{string_eq}
use lity.Devcore.StringUtils.Within.{string_eq_sound}
use lity.Yul.Expression.{Name}
use lity.Yul.NameDispenser.{
  NameDispenser, contains, is_empty, candidate, try_names, found_name, new_name_internal,
}
use lity.Yul.NameDispenser.Decimal.{candidate-injective}

-- The names but for one.
unfoldable erase : List Name → Name → List Name
erase [] n = []
erase (x ∷ xs) n = let rest = erase xs n in if string_eq x n then rest else x ∷ rest

length-erase : (xs : List Name) (n : Name) → length (erase xs n) ≤ length xs
unfolding erase
length-erase [] n = omega arith
length-erase (x ∷ xs) n = ground (arith, length-erase xs n)

erase-shorter : (xs : List Name) (n : Name) → contains xs n ≡ true → length (erase xs n) < length xs
unfolding erase contains
erase-shorter [] n h = absurd (ground arith)
erase-shorter (x ∷ xs) n h = elim (Bool-cases (string_eq x n)) [
  | inl same ↦ let le = length-erase xs n in rw same (omega arith)
  | inr other ↦ let le = erase-shorter xs n (ground arith) in rw other (omega arith)
]

contains-erase :
    (xs : List Name) (n m : Name) → contains xs m ≡ true → m ≢ n → contains (erase xs n) m ≡ true
unfolding erase contains
contains-erase [] n m h apart = h
contains-erase (x ∷ xs) n m h apart = elim (Bool-cases (string_eq x n)) [
  | inl same ↦ elim (Bool-cases (string_eq x m)) [
    | inl found ↦ absurd (apart (sym (string_eq_sound x m found) ∙ string_eq_sound x n same))
    | inr later ↦ rw same (contains-erase xs n m (ground arith) apart)
  ]
  | inr other ↦ elim (Bool-cases (string_eq x m)) [
    | inl found ↦ rw other (ground arith)
    | inr later ↦ let rest = contains-erase xs n m (ground arith) apart in rw other (ground arith)
  ]
]

candidate-is_empty : (name_hint : Name) (k : ℕ) → is_empty (candidate name_hint k) ≡ false
unfolding candidate
candidate-is_empty [] k = refl
candidate-is_empty (c ∷ cs) k = refl

abbrev bound : ℕ
bound = 0x1_0000_0000_0000_0000

-- What the loop finds: a name that is not empty and not used, and how far the counter is then.
abbrev Finds : ℕ → List Name → Name → Name → ℕ → Type 0
Finds fuel used_names name_hint name counter =
    (found : Name) × (next : ℕ) × (try_names fuel used_names name_hint name counter
      ≡ some (found, next))
    × (contains used_names found ≡ false)
    × (is_empty found ≡ false)
    × (counter ≤ next)
    × (next < counter + fuel)

module _ (used_names : List Name) (name_hint : Name) where
  -- A name that will not do makes the loop try the candidate of the next counter.
  another_round :
      (fuel : ℕ) (name : Name) (counter : ℕ)
      → counter + 1 < bound
      → (is_empty name || contains used_names name) ≡ true
      → Finds fuel used_names name_hint (candidate name_hint (counter + 1)) (counter + 1)
      → Finds (suc fuel) used_names name_hint name counter
  unfolding try_names
  another_round fuel name counter small again (found, next, e, free, full, lo, hi) =
      (found, next, rw (again, mod-eq_of_lt small) e, free, full, omega arith, omega arith)

  -- The used names among the candidates that are left are those of a list, and each round takes one.
  candidates-Finds :
      (fuel : ℕ) (left : List Name) (counter : ℕ)
      → length left < fuel
      → counter + fuel ≤ bound
      → ((k : ℕ)
          → counter ≤ k
          → contains used_names (candidate name_hint k) ≡ true
          → contains left (candidate name_hint k) ≡ true)
      → Finds fuel used_names name_hint (candidate name_hint counter) counter
  unfolding try_names
  candidates-Finds zero left counter enough small covers = absurd (omega arith)
  candidates-Finds (suc fuel) left counter enough small covers =
      elim (Bool-cases (contains used_names (candidate name_hint counter))) [
        | inl used ↦
            let here = covers counter (omega arith) used in
            let shorter = erase-shorter left (candidate name_hint counter) here in
            another_round fuel (candidate name_hint counter) counter (omega arith)
              (rw (used, candidate-is_empty name_hint counter) refl)
              (candidates-Finds fuel (erase left (candidate name_hint counter)) (counter + 1)
                (omega arith) (omega arith)
                (λ k above used.
                  contains-erase left (candidate name_hint counter) (candidate name_hint k)
                    (covers k (omega arith) used)
                    (λ e. later k above (candidate-injective name_hint k counter e))))
        | inr free ↦
            let full = candidate-is_empty name_hint counter in
            (
              candidate name_hint counter,
              counter,
              rw (free, full) refl,
              free,
              full,
              omega arith,
              omega arith,
            )
      ]
    where
      later : (k : ℕ) → counter + 1 ≤ k → k ≢ counter
      later k above e = omega arith

  names-Finds :
      (counter : ℕ)
      → counter + length used_names + 2 ≤ bound
      → Finds (suc (length used_names + 1)) used_names name_hint name_hint counter
  unfolding try_names
  names-Finds counter small =
      elim (Bool-cases (is_empty name_hint || contains used_names name_hint)) [
        | inl again ↦ another_round (length used_names + 1) name_hint counter (omega arith) again (
            candidates-Finds (length used_names + 1) used_names (counter + 1) (omega arith)
              (omega arith) (λ k above used. used))
        | inr free ↦
            (name_hint, counter, rw free refl, ground arith, ground arith, omega arith, omega arith)
      ]

-- As long as the counter does not reach its end, the loop comes to an end after at most as many
-- rounds as there are used names, and two more: the name is not empty and was not used, it is used
-- from then on, and the counter has grown by at most one more than the number of used names.
pub new_name_internal-fresh :
    (d : NameDispenser) (name_hint : Name)
    → d.counter + length d.used_names + 2 ≤ 0x1_0000_0000_0000_0000
    → (name : Name) × (after : NameDispenser) × (new_name_internal d name_hint ≡ some (name, after))
      × (is_empty name ≡ false)
      × (contains d.used_names name ≡ false)
      × (after.used_names ≡ name ∷ d.used_names)
      × (d.counter ≤ after.counter)
      × (after.counter ≤ d.counter + length d.used_names + 1)
unfolding new_name_internal found_name
new_name_internal-fresh d name_hint small =
    let rounds : suc (length d.used_names + 1) ≡ length d.used_names + 2 = omega arith in
    let (name, next, e, free, full, lo, hi) =
      subst (λ fuel. Finds fuel d.used_names name_hint name_hint d.counter) rounds
        (names-Finds d.used_names name_hint d.counter small) in
    (
      name,
      record { used_names = name ∷ d.used_names; counter = next },
      ap (found_name d.used_names) e,
      full,
      free,
      refl,
      lo,
      omega arith,
    )
