-- ===== src/Evmasm/ConstantOptimiser/Represent.antt =====
-- libevmasm/ConstantOptimiser.cpp: the search finds a routine for every word, and the check on it never
-- fails.
use lity.Prelude.{
  ℕ, zero, suc, ◌+◌, ◌-◌, ◌*◌, ◌/◌, ◌%◌, ◌^◌, ◌≤◌, ◌<◌, ◌≡◌, refl, ap, ◌∙◌, Bool, true, false, not,
  ◌||◌, List, [], ◌∷◌, ◌++◌, ltb, leb, ◌==◌, if◌then◌else◌, arith, Result, ok, Bool-cases, inl, inr,
  ==_iff,
}
use native.Mathlib.Nat.{pow-suc, pow-le-pow_right, mod-lt, mod-add-div'}
use lity.Prelude.Bits.Laws.{pow_pos}
use lity.Evmasm.Opcode
use lity.Evmasm.Word.{word_mod, max_word}
use lity.Devcore.CommonData
use lity.Evmasm.AssemblyItem.{AssemblyItem, op, push_item}
use lity.Evmasm.ConstantOptimiser.{
  Params, Search, Finder, composed, unless, decompose, try_bits, search, find_fuel,
  find_representation,
}
use lity.Evmasm.ConstantOptimiser.Check.{check_representation}
use lity.Evmasm.ConstantOptimiser.Found.{
  Computes, Operand, composed-Computes, push-Computes, not-Computes, gas_needed-plain,
}

-- The finder has a routine for every word.
abbrev FindsWords : Finder → Type 0
FindsWords find =
    (v steps : ℕ)
    → v < word_mod
    → (r : List AssemblyItem) × (steps' : ℕ) × (find v steps ≡ ok (r, steps')) × Computes r v

Goes : ℕ → Result Search → Type 0
Goes value r = (st : Search) × (r ≡ ok st) × Computes st.routine value

unless-Operand :
    (find : Finder) (skipped : Bool) (v steps : ℕ)
    → FindsWords find
    → v < word_mod
    → (r : List AssemblyItem) × (steps' : ℕ) × (unless skipped find v steps ≡ ok (r, steps'))
      × Operand skipped r v
unless-Operand find true v steps f h = ([], steps, refl, refl)
unless-Operand find false v steps f h = f v steps h

pub le-mul : (q m : ℕ) → 0 < m → q ≤ q * m
le-mul q zero h = absurd (omega arith)
le-mul q (suc m) h = omega arith

-- The upper part is at most half of the value.
pub upper-le : (k value : ℕ) → value / 2 ^ (k + 9) * 2 ≤ value
upper-le k value =
    let q = value / 2 ^ (k + 9) in
    let next : k + 9 ≡ suc (k + 8) = omega arith in
    let double : 2 ^ (k + 9) ≡ 2 ^ (k + 8) * 2 = ap (λ (t : ℕ). 2 ^ t) next ∙ pow-suc 2 (k + 8) in
    let pos : 0 < 2 ^ (k + 8) = pow_pos (k + 8) in
    let parts : value % 2 ^ (k + 9) + q * 2 ^ (k + 9) ≡ value = mod-add-div' value (2 ^ (k + 9)) in
    let times : q * 2 ^ (k + 9) ≡ q * (2 ^ (k + 8) * 2) = ap (λ (t : ℕ). q * t) double in
    let more : q ≤ q * 2 ^ (k + 8) = le-mul q (2 ^ (k + 8)) pos in grind arith

module _ (find : Finder) (p : Params) (value : ℕ) (f : FindsWords find)
    (word : value < word_mod) where
  decompose-Goes :
      (bits lower upper : ℕ) (negative : Bool) (st : Search)
      → bits < 256
      → lower < word_mod
      → upper < word_mod
      → (if negative then value + lower ≡ upper * 2 ^ bits else value ≡ upper * 2 ^ bits + lower)
      → Computes st.routine value
      → Goes value (decompose find p value bits negative lower upper st)
  unfolding decompose Goes
  decompose-Goes bits lower upper negative st b l u e c =
      elim (Bool-cases (upper == 0 || leb (2 ^ bits / 256) lower)) [
        | inl t ↦ (st, rw t refl, c)
        | inr t ↦
            let (low, steps, k, d) = unless-Operand find (lower == 0) lower st.max_steps f l in
            let (high, steps', k', d') = unless-Operand find (upper == 1) upper steps f u in
            let whole =
              composed-Computes bits value lower upper negative low high b word l d d' e in
            let (gas, g) =
              gas_needed-plain p (composed bits negative lower upper low high) whole.plain in
            elim (Bool-cases (ltb gas st.best_gas)) [
              | inl better ↦ (
                record {
                  best_gas = gas;
                  routine = composed bits negative lower upper low high;
                  max_steps = steps' - 1;
                },
                rw (t, k, k', g, better) refl,
                whole,
              )
              | inr worse ↦ (record st { max_steps = steps' - 1 }, rw (t, k, k', g, worse) refl, c)
            ]
      ]

  try_bits-Goes :
      (k : ℕ) (st : Search)
      → k < 247
      → Computes st.routine value
      → Goes value (try_bits find p value (k + 9) st)
  unfolding try_bits Goes
  try_bits-Goes k st b c =
      let bits = k + 9 in
      let gap = value / 2 ^ (bits - 8) % 512 in
      let power = 2 ^ bits in
      let few : bits ≤ 255 = omega arith in
      let small : power ≤ 2 ^ 255 = pow-le-pow_right (omega arith) few in
      let lower-lt : value % power < power = mod-lt value (pow_pos bits) in
      let parts = mod-add-div' value power in
      let half = upper-le k value in
      elim (Bool-cases (not (gap == 0xff || gap == 0x100))) [
        | inl t ↦ (st, rw t refl, c)
        | inr t ↦ elim (Bool-cases (ltb (power - value % power) (value % power))) [
          | inl n ↦
              rw (t, n)
                (decompose-Goes bits (power - value % power) (value / power + 1) true st
                  (omega arith) (omega arith) (omega arith) (grind arith) c)
          | inr n ↦
              rw (t, n)
                (decompose-Goes bits (value % power) (value / power) false st (omega arith)
                  (omega arith) (omega arith) (omega arith) c)
        ]
      ]

  search-Goes :
      (k : ℕ) (st : Search)
      → k ≤ 247
      → Computes st.routine value
      → Goes value (search find p value k st)
  unfolding search Goes
  search-Goes zero st b c = (st, refl, c)
  search-Goes (suc k) st b c =
      let (st', e, c') = try_bits-Goes k st (omega arith) c in
      let (st'', e', c'') = search-Goes k st' (omega arith) c' in
      elim (Bool-cases (st.max_steps == 0)) [
        | inl t ↦ (st, rw t refl, c)
        | inr t ↦ (st'', rw (t, e) e', c'')
      ]

find_fuel-FindsWords : (fuel : ℕ) (p : Params) → FindsWords (find_fuel fuel p)
unfolding find_fuel Goes
find_fuel-FindsWords zero p v steps h = (push_item v ∷ [], steps, refl, push-Computes v)
find_fuel-FindsWords (suc fuel) p v steps h =
    let f : FindsWords (find_fuel fuel p) = find_fuel-FindsWords fuel p in
    elim (Bool-cases (ltb v 0x1_0000)) [
      | inl small ↦ (push_item v ∷ [], steps, rw small refl, push-Computes v)
      | inr large ↦
          elim (Bool-cases
            (ltb (CommonData.bytes_required (max_word - v)) (CommonData.bytes_required v))) [
              | inl t ↦
                  let (r, steps', e, c) = f (max_word - v) steps (omega arith) in
                  (r ++ op Opcode.not ∷ [], steps', rw (large, t, e) refl, not-Computes r v h c)
              | inr t ↦
                  let (gas, g) = gas_needed-plain p (push_item v ∷ []) (push-Computes v).plain in
                  let (st, e, c) =
                    search-Goes (find_fuel fuel p) p v f h 247
                      (record { best_gas = gas; routine = push_item v ∷ []; max_steps = steps })
                      (omega arith) (push-Computes v) in
                  (st.routine, st.max_steps, rw (large, t, g, e) refl, c)
            ]
    ]

-- For every word a routine is found, whatever the parameters and the steps that are left, and the check
-- of the constructor on it does not fail: the routine leaves exactly the word.
pub find_representation-checked :
    (p : Params) (value steps : ℕ)
    → value < word_mod
    → (routine : List AssemblyItem) × (steps' : ℕ) × (find_representation p value steps
        ≡ ok (routine, steps'))
      × (check_representation value routine ≡ true)
unfolding find_representation check_representation
find_representation-checked p value steps h =
    let (r, steps', e, c) = find_fuel-FindsWords (suc value) p value steps h in
    (r, steps', e, rw (c.runs []) ((==_iff value value).1 refl))
