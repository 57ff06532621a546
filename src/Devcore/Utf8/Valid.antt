-- ===== src/Devcore/Utf8/Valid.antt =====
-- libdevcore/UTF8.cpp: exactly the well-formed inputs are valid, and the loop ends.
use mathlib.Core.Bool.{true≢false}
use lity.Prelude.{
  ℕ, zero, suc, ◌+◌, ◌≤◌, ◌<◌, ◌≡◌, ◌↔◌, ◌⊎◌, inl, inr, refl, sym, ap, subst, ◌∙◌, Bool, true,
  false, ◌&&◌, Option, none, some, List, [], ◌∷◌, length, arith, Bool-cases, Option-cases, ltb,
}
use lity.Devcore.Hex.Round.{AreBytes}
use lity.Devcore.Utf8.{count_of, continuations, round, scan, report, validate_utf8}
use lity.Devcore.Utf8.Table.{
  InRange, StartOfThree, StartOfFour, WellFormed, empty, one, two, three, four,
}
use lity.Devcore.Utf8.Reading.{IsRest, IsRest-start, IsRest-next, continuations_last}
use lity.Devcore.Utf8.Rounds.{two-round, three-round, four-round}
use lity.Devcore.Utf8.Steps.{
  ascii, leave, follow, Branch-IsRest, accept, scan_end, scan_leave, scan-round,
}

count_of_two : (a : ℕ) → InRange 0xc2 0xdf a → count_of a ≡ 1
unfolding count_of
count_of_two a h = ground arith

count_of_three : (a b : ℕ) → StartOfThree a b → (0x80 ≤ a) × (count_of a ≡ 2) × InRange 0x80 0xbf b
unfolding count_of
count_of_three a b h = ground arith

count_of_four : (a b : ℕ) → StartOfFour a b → (0x80 ≤ a) × (count_of a ≡ 3) × InRange 0x80 0xbf b
unfolding count_of
count_of_four a b h = ground arith

and_true : (v : Bool) → (v && true) ≡ v
and_true true = refl
and_true false = refl

module _ {input : List ℕ} where
  -- A sequence that is accepted is passed over, and the verdict so far is kept.
  accepted_scan :
      {i a : ℕ} {rest : List ℕ} (fuel n next : ℕ) (v : Bool)
      → IsRest input i (a ∷ rest)
      → round input i ≡ some (true, i + n)
      → i + n + 1 ≡ next
      → scan input (suc fuel) v i ≡ scan input fuel v next
  accepted_scan {i} fuel n next v p e at_next =
      scan-round input fuel v i (true, i + n) (omega (arith, p.size)) e
      ∙ rw (and_true v, at_next) refl

  pub WellFormed-scan :
      {rest : List ℕ} (fuel : ℕ) (v : Bool) (i : ℕ)
      → WellFormed rest
      → IsRest input i rest
      → AreBytes rest
      → length rest < fuel
      → scan input fuel v i ≡ some (v, length input)
  WellFormed-scan zero v i w p bs h = absurd (omega arith)
  WellFormed-scan (suc fuel) v i empty p bs h =
      let e : i ≡ length input = omega (arith, p.size) in scan_end input fuel v i e ∙ rw e refl
  WellFormed-scan (suc fuel) v i (one {a} small w) p bs h = elim (Branch-IsRest p) [
    | ascii _ e ↦
        scan-round input fuel v i (true, i) (omega (arith, p.size)) e
        ∙ rw (and_true v) (WellFormed-scan fuel v (i + 1) w (IsRest-next p) bs.1 (omega arith))
    | leave high _ _ ↦ absurd (omega arith)
    | follow high _ _ _ ↦ absurd (omega arith)
  ]
  WellFormed-scan (suc fuel) v i (two {a} {b} ha hb w) p (_, (small, bs)) h =
      let e = count_of_two a ha in
      let q = IsRest-next (IsRest-next p) in
      accepted_scan fuel 1 (i + 1 + 1) v p
        (accept 0 p (omega arith) e (omega arith) ((two-round p small e).1 (ha, hb))) (omega arith)
      ∙ WellFormed-scan fuel v (i + 1 + 1) w q bs (omega arith)
  WellFormed-scan (suc fuel) v i (three {a} {b} hab hc w) p (_, (sb, (sc, bs))) h =
      let (high, e, hb) = count_of_three a b hab in
      let q = IsRest-next (IsRest-next (IsRest-next p)) in
      accepted_scan fuel 2 (i + 1 + 1 + 1) v p
        (accept 1 p high e (omega arith) ((three-round p sb sc e).1 (hb, hab, hc))) (omega arith)
      ∙ WellFormed-scan fuel v (i + 1 + 1 + 1) w q bs (omega arith)
  WellFormed-scan (suc fuel) v i (four {a} {b} hab hc hd w) p (_, (sb, (sc, (sd, bs)))) h =
      let (high, e, hb) = count_of_four a b hab in
      let q = IsRest-next (IsRest-next (IsRest-next (IsRest-next p))) in
      accepted_scan fuel 3 (i + 1 + 1 + 1 + 1) v p
        (accept 2 p high e (omega arith) ((four-round p sb sc sd e).1 (hb, hab, hc, hd)))
        (omega arith)
      ∙ WellFormed-scan fuel v (i + 1 + 1 + 1 + 1) w q bs (omega arith)

  -- A sequence that the inner loop accepts is one of the table's, if what follows it is well-formed.
  follow-WellFormed :
      {i a : ℕ} (rest : List ℕ) (n : ℕ)
      → (n ≡ 1) ⊎ (n ≡ 2) ⊎ (n ≡ 3)
      → IsRest input i (a ∷ rest)
      → AreBytes rest
      → count_of a ≡ n
      → n ≤ length rest
      → (continuations input n 0 i).0 ≡ true
      → ((left : List ℕ) → IsRest input (i + n + 1) left → AreBytes left → WellFormed left)
      → WellFormed (a ∷ rest)
  follow-WellFormed {i} (b ∷ rest) n (inl one_more) p (sb, bs) e long h k =
      let q =
        (two-round p sb (e ∙ one_more)).0
          (subst (λ m. (continuations input m 0 i).0 ≡ true) one_more h) in
      two q.0 q.1
        (k rest (subst (λ m. IsRest input m rest) (omega arith) (IsRest-next (IsRest-next p))) bs)
  follow-WellFormed {i} (b ∷ c ∷ rest) n (inr (inl two_more)) p (sb, (sc, bs)) e long h k =
      let q =
        (three-round p sb sc (e ∙ two_more)).0
          (subst (λ m. (continuations input m 0 i).0 ≡ true) two_more h) in
      three q.1 q.2 (
        k rest
          (subst (λ m. IsRest input m rest) (omega arith)
            (IsRest-next (IsRest-next (IsRest-next p))))
          bs)
  follow-WellFormed {i} (b ∷ c ∷ d ∷ rest) n (inr (inr three_more)) p (sb, (sc, (sd, bs))) e long h
        k =
      let q =
        (four-round p sb sc sd (e ∙ three_more)).0
          (subst (λ m. (continuations input m 0 i).0 ≡ true) three_more h) in
      four q.1 q.2 q.3 (
        k rest
          (subst (λ m. IsRest input m rest) (omega arith)
            (IsRest-next (IsRest-next (IsRest-next (IsRest-next p)))))
          bs)
  follow-WellFormed [] n m p bs e long h k = absurd (ground arith)
  follow-WellFormed (b ∷ []) n (inr m) p bs e long h k = absurd (ground arith)
  follow-WellFormed (b ∷ c ∷ []) n (inr (inr m)) p bs e long h k = absurd (ground arith)

-- `valid` after the loop
abbrev verdict : Option (Bool × ℕ) → Bool
verdict none = false
verdict (some q) = q.0

-- What has been refused stays refused.
refused_scan : (input : List ℕ) (fuel i : ℕ) → verdict (scan input fuel false i) ≡ false
unfolding scan
refused_scan input zero i = refl
refused_scan input (suc fuel) i = elim (Bool-cases (ltb i (length input))) [
  | inr e ↦ rw e refl
  | inl e ↦ elim (Option-cases (round input i)) [
    | inl r ↦ rw (e, r) refl
    | inr (q, r) ↦ rw (e, r) (refused_scan input fuel (q.1 + 1))
  ]
]

some_round : (n : ℕ) → 0 < n → n ≤ 3 → (n ≡ 1) ⊎ (n ≡ 2) ⊎ (n ≡ 3)
some_round n h l = ground arith

count_of-le : (a : ℕ) → count_of a ≤ 3
unfolding count_of
count_of-le a = ground arith

no_verdict : (input : List ℕ) (i : ℕ) → verdict (scan input zero true i) ≡ false
unfolding scan
no_verdict input i = refl

module _ {input : List ℕ} where
  pub scan-WellFormed :
      (fuel : ℕ) (rest : List ℕ) (i : ℕ)
      → IsRest input i rest
      → AreBytes rest
      → verdict (scan input fuel true i) ≡ true
      → WellFormed rest
  scan-WellFormed zero rest i p bs h = absurd (true≢false (sym h ∙ no_verdict input i))
  scan-WellFormed (suc fuel) [] i p bs h = empty
  scan-WellFormed (suc fuel) (a ∷ rest) i p (_, bs) h =
      let inside : i < length input = omega (arith, p.size) in
      elim (Branch-IsRest p) [
        | ascii low e ↦ one low (
            scan-WellFormed fuel rest (i + 1) (IsRest-next p) bs
              (ap verdict (sym (scan-round input fuel true i (true, i) inside e)) ∙ h))
        | leave _ _ e ↦
            absurd (true≢false (sym h ∙ ap verdict (scan_leave input fuel true i inside e)))
        | follow _ some_more long e ↦
            let q = continuations input (count_of a) 0 i in
            let next : verdict (scan input fuel q.0 (q.1 + 1)) ≡ true =
              ap verdict (sym (scan-round input fuel true i q inside e)) ∙ h in
            elim (Bool-cases q.0) [
              | inl kept ↦
                  follow-WellFormed rest (count_of a)
                    (some_round (count_of a) some_more (count_of-le a)) p bs refl
                    (omega (arith, p.size)) kept
                    λ left at_left bytes_left.
                      scan-WellFormed fuel left (i + count_of a + 1) at_left bytes_left (
                        ap verdict
                          (go_on fuel kept (continuations_last input (count_of a) 0 i kept))
                        ∙ next)
              | inr lost ↦ absurd (
                  true≢false (
                    sym next
                    ∙ ap (λ v. verdict (scan input fuel v (q.1 + 1))) lost
                    ∙ refused_scan input fuel (q.1 + 1)))
            ]
      ]
    where
      go_on :
          (fuel : ℕ) {l n : ℕ} {v : Bool}
          → v ≡ true
          → l ≡ n
          → scan input fuel true (n + 1) ≡ scan input fuel v (l + 1)
      go_on fuel e k = rw (e, k) refl

report-verdict : (o : Option (Bool × ℕ)) → report o ≡ some (true, none) → verdict o ≡ true
unfolding report
report-verdict none h = absurd (ground arith)
report-verdict (some (true, i)) h = refl
report-verdict (some (false, i)) h = absurd (ground arith)

-- The code answers that an input of bytes is valid just if it is a sequence of the well-formed
-- sequences of the Unicode standard's Table 3-7.
pub validate_utf8_iff :
    (input : List ℕ) → AreBytes input → (validate_utf8 input ≡ some (true, none)) ↔ WellFormed input
unfolding validate_utf8 report
validate_utf8_iff input bs = (
  (λ h.
      scan-WellFormed (length input + 1) input 0 IsRest-start bs
        (report-verdict (scan input (length input + 1) true 0) h)),
  (λ w. ap report (WellFormed-scan (length input + 1) true 0 w IsRest-start bs (omega arith))),
)
