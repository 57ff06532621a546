-- ===== src/Devcore/Utf8/Steps.antt =====
-- libdevcore/UTF8.cpp: one round of the outer loop, by the byte that it starts with.
use lity.Prelude.{
  ℕ, suc, ◌+◌, ◌≤◌, ◌<◌, ◌≡◌, ◌⊎◌, inl, inr, refl, ap, subst, ◌∙◌, Bool, true, false, ◌&&◌, none,
  some, List, ◌∷◌, length, ltb, leb, ◌==◌, if◌then◌else◌, arith, lt→ltb,
}
use lity.Devcore.Utf8.{count_of, at, continuations, round, scan}
use lity.Devcore.Utf8.Reading.{IsRest, IsRest-at, continuations_last}

pub count_cases :
    (a : ℕ) → (count_of a ≡ 0) ⊎ (count_of a ≡ 1) ⊎ (count_of a ≡ 2) ⊎ (count_of a ≡ 3)
unfolding count_of
count_cases a = ground arith

count_lead : (a : ℕ) → a < 0x80 → count_of a ≡ 0
unfolding count_of
count_lead a h = ground arith

-- What a round does, by the byte that it starts with.
pub data Branch (input : List ℕ) (i a : ℕ) : Type 0 where
  ascii : a < 0x80 → round input i ≡ some (true, i) → Branch input i a
  leave :
      0x80 ≤ a
      → (count_of a ≡ 0) ⊎ (length input ≤ i + count_of a)
      → round input i ≡ none
      → Branch input i a
  follow :
      0x80 ≤ a
      → 0 < count_of a
      → i + count_of a < length input
      → round input i ≡ some (continuations input (count_of a) 0 i)
      → Branch input i a

branch :
    (b count end stop : ℕ) (next : Bool × ℕ) (i : ℕ)
    → let r =
        if ltb b 0x80
        then some (true, i)
        else if count == 0
        then none
        else if leb stop end
        then none
        else some next in
      ((b < 0x80) × (r ≡ some (true, i)))
      ⊎ ((0x80 ≤ b) × ((count ≡ 0) ⊎ (stop ≤ end)) × (r ≡ none))
      ⊎ ((0x80 ≤ b) × (0 < count) × (end < stop) × (r ≡ some next))
branch b count end stop next i = ground arith

pub Branch-at : (input : List ℕ) (i : ℕ) → Branch input i (at input i)
unfolding round
Branch-at input i =
    let count = count_of (at input i) in
    elim (branch (at input i) count (i + count) (length input) (continuations input count 0 i) i) [
      | inl (h, e) ↦ ascii h e
      | inr (inl (h, k, e)) ↦ leave h k e
      | inr (inr (h, k, l, e)) ↦ follow h k l e
    ]

module _ {input : List ℕ} where
  pub Branch-IsRest : {i a : ℕ} {rest : List ℕ} → IsRest input i (a ∷ rest) → Branch input i a
  Branch-IsRest {i} p = subst (Branch input i) (IsRest-at p) (Branch-at input i)

  -- The sequence is as long as the first byte says, and the inner loop accepts it.
  pub accept :
      {i a : ℕ} {rest : List ℕ} (n : ℕ)
      → IsRest input i (a ∷ rest)
      → 0x80 ≤ a
      → count_of a ≡ suc n
      → suc n ≤ length rest
      → (continuations input (suc n) 0 i).0 ≡ true
      → round input i ≡ some (true, i + suc n)
  accept {i} {a} n p high e long h = elim (Branch-IsRest p) [
    | ascii low _ ↦ absurd (omega arith)
    | leave _ (inl z) _ ↦ absurd (omega arith)
    | leave _ (inr l) _ ↦ absurd (omega (arith, p.size))
    | follow _ _ _ r ↦
        r
        ∙ ap (λ k. some (continuations input k 0 i)) e
        ∙ ap some (pair_eq h (continuations_last input (suc n) 0 i h))
  ]
    where
      pair_eq : {q : Bool × ℕ} {b : Bool} {k : ℕ} → q.0 ≡ b → q.1 ≡ k → q ≡ (b, k)
      pair_eq u v = rw (u, v) refl

-- One step of the outer loop.
module _ (input : List ℕ) where
  pub scan_end :
      (fuel : ℕ) (v : Bool) (i : ℕ) → i ≡ length input → scan input (suc fuel) v i ≡ some (v, i)
  unfolding scan
  scan_end fuel v i e = ground arith

  pub scan_leave :
      (fuel : ℕ) (v : Bool) (i : ℕ)
      → i < length input
      → round input i ≡ none
      → scan input (suc fuel) v i ≡ some (false, i)
  unfolding scan
  scan_leave fuel v i h e = rw (lt→ltb i (length input) h, e) refl

  pub scan-round :
      (fuel : ℕ) (v : Bool) (i : ℕ) (q : Bool × ℕ)
      → i < length input
      → round input i ≡ some q
      → scan input (suc fuel) v i ≡ scan input fuel (v && q.0) (q.1 + 1)
  unfolding scan
  scan-round fuel v i q h e = rw (lt→ltb i (length input) h, e) refl
