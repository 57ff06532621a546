-- ===== src/Devcore/Utf8/Rounds.antt =====
-- libdevcore/UTF8.cpp: which sequences the inner loop accepts.

use lity.Prelude.{
  ℕ, zero, suc, ◌+◌, ◌-◌, ◌<◌, ◌≡◌, ◌↔◌, refl, sym, ap, subst, ◌∙◌, Bool, true, false, not, List,
  ◌∷◌, arith,
}
use lity.Devcore.Utf8.{is_well_formed, count_of, is_continuation, at, continuations}
use lity.Devcore.Utf8.Table.{InRange, StartOfThree, StartOfFour}
use lity.Devcore.Utf8.Reading.{
  IsRest, IsRest-next, IsRest-at, is_continuation_iff, two_iff, three_iff, four_iff, is_refused,
  continuations_iff,
}

not_iff : (w : Bool) → (not w ≡ false) ↔ (w ≡ true)
not_iff true = (λ h. refl, λ h. refl)
not_iff false = (λ h. absurd (ground arith), λ h. absurd (ground arith))

done_true : (input : List ℕ) (j i : ℕ) → (continuations input zero j i).0 ≡ true
unfolding continuations
done_true input j i = refl

module _ {input : List ℕ} where
  -- The first round of the inner loop, and a later one.
  first_iff :
      {i a b : ℕ} {rest : List ℕ} (n : ℕ)
      → IsRest input i (a ∷ b ∷ rest)
      → b < 256
      → ((continuations input (suc n) 0 i).0 ≡ true) ↔ (
          InRange 0x80 0xbf b
          × (is_well_formed a b ≡ true)
          × ((continuations input n 1 (i + 1)).0 ≡ true))
  first_iff {i} {a} {b} n p small =
      let ea : at input (i + 1 - 1) ≡ a = ap (at input) (omega arith) ∙ IsRest-at p in
      let eb : at input (i + 1) ≡ b = IsRest-at (IsRest-next p) in
      let whole = continuations_iff input n 0 i in
      let c = is_continuation_iff b small in
      let w = not_iff (is_well_formed a b) in
      let r : is_refused input 0 i ≡ not (is_well_formed a b) = rw (ea, eb) refl in
      (
        (λ h.
            let q = whole.0 h in
            (c.0 (subst (λ x. is_continuation x ≡ true) eb q.0), w.0 (sym r ∙ q.1), q.2)),
        (λ h. whole.1 (subst (λ x. is_continuation x ≡ true) (sym eb) (c.1 h.0), r ∙ w.1 h.1, h.2)),
      )

  later_iff :
      {i a b : ℕ} {rest : List ℕ} (n j : ℕ)
      → IsRest input i (a ∷ b ∷ rest)
      → b < 256
      → ((continuations input (suc n) (suc j) i).0 ≡ true)
        ↔ (InRange 0x80 0xbf b × ((continuations input n (suc (suc j)) (i + 1)).0 ≡ true))
  later_iff {i} {a} {b} n j p small =
      let eb : at input (i + 1) ≡ b = IsRest-at (IsRest-next p) in
      let whole = continuations_iff input n (suc j) i in
      let c = is_continuation_iff b small in
      (
        (λ h. let q = whole.0 h in (c.0 (subst (λ x. is_continuation x ≡ true) eb q.0), q.2)),
        (λ h.
            whole.1
              (subst (λ x. is_continuation x ≡ true) (sym eb) (c.1 h.0), refused_later j i, h.1)),
      )
    where
      refused_later : (j i : ℕ) → is_refused input (suc j) i ≡ false
      refused_later j i = ground arith

  pub two-round :
      {i a b : ℕ} {rest : List ℕ}
      → IsRest input i (a ∷ b ∷ rest)
      → b < 256
      → count_of a ≡ 1
      → ((continuations input 1 0 i).0 ≡ true) ↔ (InRange 0xc2 0xdf a × InRange 0x80 0xbf b)
  two-round {i} {a} {b} p hb e =
      let f = first_iff 0 p hb in
      (
        (λ h. let q = f.0 h in ((two_iff a b q.0 e).0 q.1, q.0)),
        (λ h. f.1 (h.1, (two_iff a b h.1 e).1 h.0, done_true input 1 (i + 1))),
      )

  pub three-round :
      {i a b c : ℕ} {rest : List ℕ}
      → IsRest input i (a ∷ b ∷ c ∷ rest)
      → b < 256
      → c < 256
      → count_of a ≡ 2
      → ((continuations input 2 0 i).0 ≡ true)
        ↔ (InRange 0x80 0xbf b × StartOfThree a b × InRange 0x80 0xbf c)
  three-round {i} {a} {b} {c} p hb hc e =
      let f = first_iff 1 p hb in
      let g = later_iff 0 0 (IsRest-next p) hc in
      (
        (λ h. let q = f.0 h in (q.0, (three_iff a b q.0 e).0 q.1, (g.0 q.2).0)),
        (λ h. f.1 (h.0, (three_iff a b h.0 e).1 h.1, g.1 (h.2, done_true input 2 (i + 1 + 1)))),
      )

  pub four-round :
      {i a b c d : ℕ} {rest : List ℕ}
      → IsRest input i (a ∷ b ∷ c ∷ d ∷ rest)
      → b < 256
      → c < 256
      → d < 256
      → count_of a ≡ 3
      → ((continuations input 3 0 i).0 ≡ true)
        ↔ (InRange 0x80 0xbf b × StartOfFour a b × InRange 0x80 0xbf c × InRange 0x80 0xbf d)
  four-round {i} {a} {b} {c} {d} p hb hc hd e =
      let f = first_iff 2 p hb in
      let g = later_iff 1 0 (IsRest-next p) hc in
      let k = later_iff 0 1 (IsRest-next (IsRest-next p)) hd in
      (
        (λ h.
            let q = f.0 h in
            let s = g.0 q.2 in (q.0, (four_iff a b q.0 e).0 q.1, s.0, (k.0 s.1).0)),
        (λ h. f.1 (
          h.0,
          (four_iff a b h.0 e).1 h.1,
          g.1 (h.2, k.1 (h.3, done_true input 3 (i + 1 + 1 + 1))),
        )),
      )
