-- ===== src/Devcore/Utf8/Reading.antt =====
-- libdevcore/UTF8.cpp: reading the input from a position on, and one round of the loop.

use lity.Prelude.{
  ℕ, zero, suc, ◌+◌, ◌-◌, ◌<◌, ◌≡◌, ◌↔◌, refl, ap, ◌∙◌, Bool, true, false, ◌&&◌, not, List, ◌∷◌,
  length, get_or, ◌==◌, if◌then◌else◌, arith, everywhere, everywhere_sound,
}
use lity.Devcore.Utf8.{within, is_well_formed, count_of, is_continuation, at, continuations}
use lity.Devcore.Utf8.Table.{InRange, StartOfThree, StartOfFour}

abbrev agrees : ℕ → Bool
agrees b = if is_continuation b then within 0x80 0xbf b else not (within 0x80 0xbf b)

agrees-everywhere : everywhere agrees 256 ≡ true
unfolding everywhere
agrees-everywhere = refl

agrees_iff : (s t : Bool) → (if s then t else not t) ≡ true → (s ≡ true) ↔ (t ≡ true)
agrees_iff true t h = ground arith
agrees_iff false t h = ground arith

-- The mask finds the bytes that follow a first one.
pub is_continuation_iff : (b : ℕ) → b < 256 → (is_continuation b ≡ true) ↔ InRange 0x80 0xbf b
is_continuation_iff b h =
    let e =
      agrees_iff (is_continuation b) (within 0x80 0xbf b)
        (everywhere_sound agrees 256 b h agrees-everywhere) in
    (λ c. ground (arith, e.0 c), λ r. e.1 (ground arith))

pub two_iff :
    (a b : ℕ)
    → InRange 0x80 0xbf b
    → count_of a ≡ 1
    → (is_well_formed a b ≡ true) ↔ InRange 0xc2 0xdf a
unfolding count_of is_well_formed
two_iff a b hb h = ground arith

pub three_iff :
    (a b : ℕ)
    → InRange 0x80 0xbf b
    → count_of a ≡ 2
    → (is_well_formed a b ≡ true) ↔ StartOfThree a b
unfolding count_of is_well_formed
three_iff a b hb h = ground arith

pub four_iff :
    (a b : ℕ) → InRange 0x80 0xbf b → count_of a ≡ 3 → (is_well_formed a b ≡ true) ↔ StartOfFour a b
unfolding count_of is_well_formed
four_iff a b hb h = ground arith

-- From position i on, the input is `rest`.
pub record IsRest (input : List ℕ) (i : ℕ) (rest : List ℕ) : Type 0 where
  pub size : i + length rest ≡ length input
  pub reads : (k : ℕ) → get_or input (i + k) 0 ≡ get_or rest k 0

module _ {input : List ℕ} where
  pub IsRest-start : IsRest input 0 input
  IsRest-start = record {
    size = omega arith;
    reads = λ k. ap (λ n. get_or input n 0) (omega arith);
  }

  pub IsRest-next :
      {i a : ℕ} {rest : List ℕ} → IsRest input i (a ∷ rest) → IsRest input (i + 1) rest
  IsRest-next {i} {a} {rest} p = record {
    size = omega (arith, p.size);
    reads = λ k. ap (λ n. get_or input n 0) (omega arith) ∙ p.reads (suc k);
  }

  pub IsRest-at : {i : ℕ} {rest : List ℕ} → IsRest input i rest → at input i ≡ get_or rest 0 0
  IsRest-at {i} p = ap (λ n. get_or input n 0) (omega arith) ∙ p.reads 0

-- Both tests of a round of the inner loop.
kept : Bool → Bool → ℕ → Bool × ℕ → Bool × ℕ
kept c b next rest = if not c then (false, next) else if b then (false, next) else rest

kept_iff :
    (c b : Bool) (next : ℕ) (rest : Bool × ℕ)
    → ((kept c b next rest).0 ≡ true) ↔ ((c ≡ true) × (b ≡ false) × (rest.0 ≡ true))
unfolding kept
kept_iff true true next rest = (λ h. absurd (ground arith), λ h. absurd (ground arith))
kept_iff true false next rest = (λ h. (refl, refl, h), λ h. h.2)
kept_iff false b next rest = (λ h. absurd (ground arith), λ h. absurd (ground arith))

kept-eq :
    (c b : Bool) (next : ℕ) (rest : Bool × ℕ) → c ≡ true → b ≡ false → kept c b next rest ≡ rest
unfolding kept
kept-eq c b next rest hc hb = rw (hc, hb) refl

module _ (input : List ℕ) where
  -- The test of Table 3-7, which only the first round makes.
  abbrev pub is_refused : ℕ → ℕ → Bool
  is_refused j i = (j == 0) && not (is_well_formed (at input (i + 1 - 1)) (at input (i + 1)))

  -- A round of the inner loop that keeps `valid`, and what it leads to.
  pub continuations_iff :
      (rounds j i : ℕ)
      → ((continuations input (suc rounds) j i).0 ≡ true) ↔ (
          (is_continuation (at input (i + 1)) ≡ true)
          × (is_refused j i ≡ false)
          × ((continuations input rounds (suc j) (i + 1)).0 ≡ true))
  unfolding continuations kept
  continuations_iff rounds j i =
      kept_iff (is_continuation (at input (i + 1))) (is_refused j i) (i + 1)
        (continuations input rounds (suc j) (i + 1))

  continuations_step :
      (rounds j i : ℕ)
      → is_continuation (at input (i + 1)) ≡ true
      → is_refused j i ≡ false
      → continuations input (suc rounds) j i ≡ continuations input rounds (suc j) (i + 1)
  unfolding continuations kept
  continuations_step rounds j i c b =
      kept-eq (is_continuation (at input (i + 1))) (is_refused j i) (i + 1)
        (continuations input rounds (suc j) (i + 1)) c b

  pub continuations_last :
      (rounds j i : ℕ)
      → (continuations input rounds j i).0 ≡ true
      → (continuations input rounds j i).1 ≡ i + rounds
  unfolding continuations
  continuations_last zero j i h = omega arith
  continuations_last (suc rounds) j i h =
      let (c, b, r) = (continuations_iff rounds j i).0 h in
      let e : continuations input (suc rounds) j i ≡ continuations input rounds (suc j) (i + 1) =
        continuations_step rounds j i c b in
      ap (λ p. p.1) e ∙ continuations_last rounds (suc j) (i + 1) r ∙ omega arith
