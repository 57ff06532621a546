-- ===== src/Evmasm/ConstantOptimiser/Fuel.antt =====
-- libevmasm/ConstantOptimiser.cpp: the recursion of `findRepresentation` goes to smaller values, so that
-- the value is fuel enough.
use lity.Prelude.{
  ℕ, zero, suc, ◌+◌, ◌-◌, ◌/◌, ◌%◌, ◌^◌, ◌≤◌, ◌<◌, ◌≡◌, refl, ap, Bool, true, false, not, ◌||◌,
  List, [], ◌∷◌, ltb, leb, ◌==◌, if◌then◌else◌, arith, Result, Exception, ok, err, ◌>>=◌,
  Bool-cases, Result-cases, ltb→lt, ◌⊎◌, inl, inr,
}
use native.Mathlib.Nat.{mod-lt, mod-add-div'}
use lity.Prelude.Bits.Laws.{pow_pos}
use lity.Evmasm.Word.{max_word}
use lity.Devcore.CommonData
use lity.Devcore.CommonData.Size.{bytes_required-le, lt-pow-bytes_required}
use lity.Evmasm.AssemblyItem.{AssemblyItem, push_item}
use lity.Evmasm.ConstantOptimiser.{
  Params, Search, Finder, unless, gas_needed, decompose, try_bits, search, find_fuel,
  find_representation,
}
use lity.Evmasm.ConstantOptimiser.Represent.{upper-le, le-mul}

AgreeBelow : ℕ → Finder → Finder → Type 0
AgreeBelow value find find' = (v steps : ℕ) → v < value → find v steps ≡ find' v steps

unless-agree :
    (value : ℕ) (find find' : Finder) (skipped : Bool) (v steps : ℕ)
    → AgreeBelow value find find'
    → v < value
    → unless skipped find v steps ≡ unless skipped find' v steps
unfolding AgreeBelow
unless-agree value find find' true v steps a h = refl
unless-agree value find find' false v steps a h = a v steps h

module _ (find find' : Finder) (p : Params) (value : ℕ) (agree : AgreeBelow value find find')
    (large : 0x1_0000 ≤ value) where
  decompose-agree :
      (bits lower upper : ℕ) (negative : Bool) (st : Search)
      → ((upper == 0 || leb (2 ^ bits / 256) lower) ≡ false → (lower < value) × (upper < value))
      → decompose find p value bits negative lower upper st
        ≡ decompose find' p value bits negative lower upper st
  unfolding decompose
  decompose-agree bits lower upper negative st small =
      elim (Bool-cases (upper == 0 || leb (2 ^ bits / 256) lower)) [
        | inl t ↦ rw t refl
        | inr t ↦
            let (l, u) = small t in
            let e = unless-agree value find find' (lower == 0) lower st.max_steps agree l in
            elim (Result-cases (unless (lower == 0) find' lower st.max_steps)) [
              | inr (x, k) ↦ rw (t, e, k) refl
              | inl ((low, steps), k) ↦
                  let e' = unless-agree value find find' (upper == 1) upper steps agree u in
                  rw (t, e, k, e') refl
            ]
      ]

  try_bits-agree :
      (k : ℕ) (st : Search) → try_bits find p value (k + 9) st ≡ try_bits find' p value (k + 9) st
  unfolding try_bits
  try_bits-agree k st =
      let bits = k + 9 in
      let gap = value / 2 ^ (bits - 8) % 512 in
      let power = 2 ^ bits in
      let lower-lt : value % power < power = mod-lt value (pow_pos bits) in
      let parts = mod-add-div' value power in
      let half = upper-le k value in
      elim (Bool-cases (not (gap == 0xff || gap == 0x100))) [
        | inl t ↦ rw t refl
        | inr t ↦ elim (Bool-cases (ltb (power - value % power) (value % power))) [
          | inl n ↦
              rw (t, n)
                (decompose-agree bits (power - value % power) (value / power + 1) true st
                  (λ q. let lt = ltb→lt _ _ n in (omega arith, omega arith)))
          | inr n ↦
              rw (t, n)
                (decompose-agree bits (value % power) (value / power) false st (λ q.
                  let pos : 0 < value / power = ground arith in
                  let more = le-mul power (value / power) pos in (grind arith, omega arith)))
        ]
      ]

  search-agree : (k : ℕ) (st : Search) → search find p value k st ≡ search find' p value k st
  unfolding search
  search-agree zero st = refl
  search-agree (suc k) st =
      let e = try_bits-agree k st in
      go e (λ st'. search-agree k st') (Result-cases (try_bits find' p value (k + 9) st))
    where
      go :
          try_bits find p value (k + 9) st ≡ try_bits find' p value (k + 9) st
          → ((st' : Search) → search find p value k st' ≡ search find' p value k st')
          → ((st' : Search) × (try_bits find' p value (k + 9) st ≡ ok st'))
            ⊎ ((x : Exception) × (try_bits find' p value (k + 9) st ≡ err x))
          → search find p value (suc k) st ≡ search find' p value (suc k) st
      go e h (inr (x, k')) = rw (e, k') refl
      go e h (inl (st', k')) = rw (e, k') (ap (λ r. if st.max_steps == 0 then ok st else r) (h st'))

-- With the bytes fewer, the complement is smaller.
complement-lt :
    (v w : ℕ) → ltb (CommonData.bytes_required w) (CommonData.bytes_required v) ≡ true → w < v
complement-lt v w h = elim (Bool-cases (ltb w v)) [
  | inl t ↦ ground arith
  | inr t ↦
      let le : v ≤ w = ground arith in
      let less =
        bytes_required-le (CommonData.bytes_required w) v
          (omega (arith, lt-pow-bytes_required w)) in
      absurd (ground arith)
]

abbrev start : ℕ → ℕ → ℕ → Search
start v steps gas = record { best_gas = gas; routine = push_item v ∷ []; max_steps = steps }

abbrev finish : Search → Result (List AssemblyItem × ℕ)
finish st = ok (st.routine, st.max_steps)

after_gas :
    (r : Result ℕ) (f g : ℕ → Result Search)
    → ((gas : ℕ) → f gas ≡ g gas)
    → (r >>= λ gas. f gas >>= λ st. finish st) ≡ (r >>= λ gas. g gas >>= λ st. finish st)
after_gas (err x) f g h = refl
after_gas (ok gas) f g h = ap (λ (t : Result Search). t >>= λ st. finish st) (h gas)

fuel-agree :
    (n n' : ℕ) (p : Params) (v steps : ℕ)
    → v < n
    → v < n'
    → find_fuel n p v steps ≡ find_fuel n' p v steps
unfolding find_fuel AgreeBelow
fuel-agree zero n' p v steps h h' = absurd (omega arith)
fuel-agree (suc n) zero p v steps h h' = absurd (omega arith)
fuel-agree (suc n) (suc n') p v steps h h' =
    let agree : AgreeBelow v (find_fuel n p) (find_fuel n' p) =
      λ u steps' less. fuel-agree n n' p u steps' (omega arith) (omega arith) in
    elim (Bool-cases (ltb v 0x1_0000)) [
      | inl small ↦ rw small refl
      | inr large ↦
          elim (Bool-cases
            (ltb (CommonData.bytes_required (max_word - v)) (CommonData.bytes_required v))) [
              | inl t ↦
                  rw (large, t, agree (max_word - v) steps (complement-lt v (max_word - v) t)) refl
              | inr t ↦
                  rw (large, t)
                    (after_gas (gas_needed p (push_item v ∷ []))
                      (λ gas. search (find_fuel n p) p v 247 (start v steps gas))
                      (λ gas. search (find_fuel n' p) p v 247 (start v steps gas))
                      (λ gas.
                        search-agree (find_fuel n p) (find_fuel n' p) p v agree (ground arith) 247
                          (start v steps gas)))
            ]
    ]

-- The fuel is never used up: the recursion goes to smaller values, so that a search with any fuel above
-- the value gives what `find_representation` gives, whose fuel is one more than the value.
pub find_representation-call :
    (p : Params) (value steps fuel : ℕ)
    → value < fuel
    → find_fuel fuel p value steps ≡ find_representation p value steps
unfolding find_representation
find_representation-call p value steps fuel h =
    fuel-agree fuel (suc value) p value steps h (omega arith)
