-- ===== src/Devcore/Utf8/Position.antt =====
-- libdevcore/UTF8.cpp: the position that is reported for an input that is not valid.
use mathlib.Core.Option.{some-injective}
use lity.Prelude.{
  ℕ, zero, suc, ◌+◌, ◌-◌, ◌≤◌, ◌<◌, ◌≡◌, ◌⊎◌, inl, inr, refl, sym, ap, subst, ◌≢◌, ◌∙◌, Bool, true,
  false, ◌&&◌, not, Option, none, some, List, ◌∷◌, length, ltb, arith, Bool-cases, Option-cases,
  if◌then◌else◌,
}
use lity.Devcore.Hex.Round.{AreBytes}
use lity.Devcore.Utf8.{
  is_continuation, count_of, at, continuations, round, scan, report, validate_utf8,
}
use lity.Devcore.Utf8.Table.{InRange, WellFormed}
use lity.Devcore.Utf8.Reading.{IsRest-start, IsRest-next, is_refused}
use lity.Devcore.Utf8.Steps.{Branch-at, ascii, leave, follow, scan_end, scan_leave, scan-round}
use lity.Devcore.Utf8.Valid.{WellFormed-scan}

none≢some {ℓ} : {A : Type ℓ} {a : A} → none ≢ some a
none≢some e = absurd (ground arith)

-- The inner loop goes forward, and no further than its rounds.
continuations_bounds :
    (input : List ℕ) (rounds j i : ℕ)
    → (i ≤ (continuations input rounds j i).1) × ((continuations input rounds j i).1 ≤ i + rounds)
unfolding continuations
continuations_bounds input zero j i = (omega arith, omega arith)
continuations_bounds input (suc rounds) j i =
    either (is_continuation (at input (i + 1))) (is_refused input j i)
      (continuations input rounds (suc j) (i + 1))
      (continuations_bounds input rounds (suc j) (i + 1))
  where
    either :
        (c b : Bool) (q : Bool × ℕ)
        → (i + 1 ≤ q.1) × (q.1 ≤ i + 1 + rounds)
        → (i ≤ (if not c then (false, i + 1) else if b then (false, i + 1) else q).1)
          × ((if not c then (false, i + 1) else if b then (false, i + 1) else q).1 ≤ i + suc rounds)
    either c b q h = ground arith

round_bounds :
    (input : List ℕ) (i : ℕ) (q : Bool × ℕ)
    → i < length input
    → round input i ≡ some q
    → (i ≤ q.1) × (q.1 < length input)
round_bounds input i q h e = elim (Branch-at input i) [
  | ascii _ r ↦ at_last q (true, i) (some-injective _ _ (sym r ∙ e)) (omega arith, h)
  | leave _ _ r ↦ absurd (none≢some (sym r ∙ e))
  | follow _ _ l r ↦
      let (lo, hi) = continuations_bounds input (count_of (at input i)) 0 i in
      at_last q (continuations input (count_of (at input i)) 0 i) (some-injective _ _ (sym r ∙ e))
        (lo, omega arith)
]
  where
    at_last :
        (q r : Bool × ℕ)
        → r ≡ q
        → (i ≤ r.1) × (r.1 < length input)
        → (i ≤ q.1) × (q.1 < length input)
    at_last q r e h = subst (λ x. (i ≤ x.1) × (x.1 < length input)) e h

-- The loop ends before the fuel does, and behind no byte that is not there.
scan_ends :
    (input : List ℕ) (fuel : ℕ) (v : Bool) (i : ℕ)
    → length input - i < fuel
    → i ≤ length input
    → (q : Bool × ℕ) × (scan input fuel v i ≡ some q) × (q.1 ≤ length input)
scan_ends input zero v i h l = absurd (omega arith)
scan_ends input (suc fuel) v i h l = elim (Bool-cases (ltb i (length input))) [
  | inr e ↦ ((v, i), scan_end input fuel v i (ground arith), l)
  | inl e ↦ elim (Option-cases (round input i)) [
    | inl r ↦ ((false, i), scan_leave input fuel v i (ground arith) r, l)
    | inr (q, r) ↦
        let inside : i < length input = ground arith in
        let (lo, hi) = round_bounds input i q inside r in
        let (last, s, b) = scan_ends input fuel (v && q.0) (q.1 + 1) (omega arith) (omega arith) in
        (last, scan-round input fuel v i q inside r ∙ s, b)
  ]
]

abbrev Answers : ℕ → Option (Bool × ℕ) → Type 0
Answers stop o =
    (report o ≡ some (true, none)) ⊎ ((p : ℕ) × (report o ≡ some (false, some p)) × (p ≤ stop))

answer : {stop : ℕ} (v : Bool) (last : ℕ) → last ≤ stop → Answers stop (some (v, last))
unfolding report
answer true last h = inl refl
answer false last h = inr (last, refl, h)

-- The loop ends: the code answers that the input is valid, or reports a position that is no further
-- than the input's end.
pub validate_utf8-total :
    (input : List ℕ)
    → (validate_utf8 input ≡ some (true, none))
      ⊎ ((p : ℕ) × (validate_utf8 input ≡ some (false, some p)) × (p ≤ length input))
unfolding validate_utf8
validate_utf8-total input =
    let ((v, last), e, h) = scan_ends input (length input + 1) true 0 (omega arith) (omega arith) in
    subst (Answers (length input)) (sym e) (answer v last h)

refused_continuations :
    (input : List ℕ) (n j i : ℕ)
    → is_continuation (at input (i + 1)) ≡ false
    → continuations input (suc n) j i ≡ (false, i + 1)
unfolding continuations
refused_continuations input n j i e = rw e refl

count_of_two : (a : ℕ) → InRange 0xc2 0xdf a → count_of a ≡ 1
unfolding count_of
count_of_two a h = ground arith

bad_round :
    (a b : ℕ) (rest : List ℕ)
    → InRange 0xc2 0xdf a
    → is_continuation b ≡ false
    → round (a ∷ b ∷ rest) 0 ≡ some (false, 1)
bad_round a b rest ha hb =
    let two = count_of_two a ha in
    elim (Branch-at (a ∷ b ∷ rest) 0) [
      | ascii low _ ↦ absurd (high low ha)
      | leave _ out _ ↦ absurd (inside (count_of a) two out)
      | follow _ _ _ r ↦
          r
          ∙ ap (λ k. some (continuations (a ∷ b ∷ rest) k 0 0)) two
          ∙ ap some (refused_continuations (a ∷ b ∷ rest) 0 0 0 hb)
    ]
  where
    high : {x : ℕ} → x < 0x80 → ¬ InRange 0xc2 0xdf x
    high l h = omega arith

    inside : {n : ℕ} (c : ℕ) → c ≡ 1 → ¬ ((c ≡ 0) ⊎ (suc (suc n) ≤ 0 + c))
    inside c e h = ground arith

-- When the second byte of a sequence of two is not a continuation byte and the bytes behind it are
-- well-formed, the position that is reported is the input's end, and not that of the second byte.
pub validate_utf8_late :
    (a b : ℕ) (rest : List ℕ)
    → InRange 0xc2 0xdf a
    → is_continuation b ≡ false
    → WellFormed rest
    → AreBytes rest
    → validate_utf8 (a ∷ b ∷ rest) ≡ some (false, some (length (a ∷ b ∷ rest)))
unfolding validate_utf8 report
validate_utf8_late a b rest ha hb w bs =
    let enough : length (a ∷ b ∷ rest) + 1 ≡ suc (length rest + 2) = omega arith in
    rw enough (
      ap report (
        scan-round (a ∷ b ∷ rest) (length rest + 2) true 0 (false, 1) (omega arith)
          (bad_round a b rest ha hb)
        ∙ WellFormed-scan (length rest + 2) false 2 w (IsRest-next (IsRest-next IsRest-start)) bs
            (omega arith)))
