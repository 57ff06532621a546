-- ===== src/Devcore/StringUtils/Edits.antt =====
-- libdevcore/StringUtils.cpp: the edits that turn one string into another, and the least number.
use lity.Prelude.{
  ℕ, zero, suc, ◌+◌, ◌≤◌, min, ◌≡◌, refl, true, ◌&&◌, List, get_or, ◌==◌, if◌then◌else◌, arith,
  Bool-cases, inl, inr, ◌⊎◌, sym, subst,
}

min_cases : (y n : ℕ) → (min y (n + 1) ≡ y) ⊎ (min y (n + 1) ≡ suc n)
min_cases y n = ground arith

module _ (str1 str2 : List ℕ) where
  -- `Edit i j n`: n edits turn the first i characters of `str1` into the first j of `str2`. A pair
  -- of neighbours may change places once, and is not edited after that.
  pub data Edit : ℕ → ℕ → ℕ → Type 0 where
    done : Edit 0 0 0
    delete : {i j n : ℕ} → Edit i j n → Edit (suc i) j (suc n)
    insert : {i j n : ℕ} → Edit i j n → Edit i (suc j) (suc n)
    keep :
        {i j n : ℕ}
        → (get_or str1 i 0 == get_or str2 j 0) ≡ true
        → Edit i j n
        → Edit (suc i) (suc j) n
    replace : {i j n : ℕ} → Edit i j n → Edit (suc i) (suc j) (suc n)
    transpose :
        {i j n : ℕ}
        → ((get_or str1 (suc i) 0 == get_or str2 j 0) && (get_or str1 i 0 == get_or str2 (suc j) 0))
          ≡ true
        → Edit i j n
        → Edit (suc (suc i)) (suc (suc j)) (suc n)

  -- The least of the edits that end with a deletion, an insertion, or one character for another.
  unfoldable pub near : ℕ → ℕ → ℕ → ℕ → ℕ → ℕ
  near i j left up upleft =
      let x = min (left + 1) (up + 1) in
      if get_or str1 i 0 == get_or str2 j 0 then min x upleft else min x (upleft + 1)

  unfoldable pub least : ℕ → ℕ → ℕ
  unfolding near
  least zero j = j
  least (suc i) zero = suc i
  least (suc zero) (suc j) = near 0 j (suc j) (least (suc zero) j) j
  least (suc (suc i)) (suc zero) = near (suc i) 0 (least (suc i) (suc zero)) (suc (suc i)) (suc i)
  least (suc (suc i)) (suc (suc j)) =
      let y =
        near (suc i) (suc j) (least (suc i) (suc (suc j))) (least (suc (suc i)) (suc j))
          (least (suc i) (suc j)) in
      let corner = least i j in
      if (get_or str1 (suc i) 0 == get_or str2 j 0) && (get_or str1 i 0 == get_or str2 (suc j) 0)
      then min y (corner + 1)
      else y

  near-left : (i j l u d : ℕ) → near i j l u d ≤ l + 1
  unfolding near
  near-left i j l u d = ground arith

  near-up : (i j l u d : ℕ) → near i j l u d ≤ u + 1
  unfolding near
  near-up i j l u d = ground arith

  near-upleft : (i j l u d : ℕ) → near i j l u d ≤ d + 1
  unfolding near
  near-upleft i j l u d = ground arith

  near_keep : (i j l u d : ℕ) → (get_or str1 i 0 == get_or str2 j 0) ≡ true → near i j l u d ≤ d
  unfolding near
  near_keep i j l u d e = rw e (omega arith)

  near_cases :
      (i j l u d : ℕ)
      → (near i j l u d ≡ suc l)
        ⊎ (near i j l u d ≡ suc u)
        ⊎ (near i j l u d ≡ suc d)
        ⊎ (((get_or str1 i 0 == get_or str2 j 0) ≡ true) × (near i j l u d ≡ d))
  unfolding near
  near_cases i j l u d = ground arith

  pub least-zero : (i : ℕ) → least i 0 ≡ i
  unfolding least
  least-zero zero = refl
  least-zero (suc i) = refl

  -- With two characters on both sides, the pair may change places.
  least-near :
      (i j : ℕ)
      → least (suc (suc i)) (suc (suc j))
        ≤ near
            (suc i)
            (suc j)
            (least (suc i) (suc (suc j)))
            (least (suc (suc i)) (suc j))
            (least (suc i) (suc j))
  unfolding least
  least-near i j = ground arith

  least_delete : (i j : ℕ) → least (suc i) j ≤ least i j + 1
  unfolding least
  least_delete i zero = omega (arith, least-zero i)
  least_delete zero (suc j) = near-left 0 j (suc j) _ j
  least_delete (suc i) (suc zero) = near-left (suc i) 0 _ _ _
  least_delete (suc i) (suc (suc j)) = omega (
    arith,
    least-near i j,
    near-left (suc i) (suc j) (least (suc i) (suc (suc j))) (least (suc (suc i)) (suc j))
        (least (suc i) (suc j)),
  )

  least_insert : (i j : ℕ) → least i (suc j) ≤ least i j + 1
  unfolding least
  least_insert zero j = omega arith
  least_insert (suc zero) j = near-up 0 j (suc j) _ j
  least_insert (suc (suc i)) zero = near-up (suc i) 0 _ _ _
  least_insert (suc (suc i)) (suc j) = omega (
    arith,
    least-near i j,
    near-up (suc i) (suc j) (least (suc i) (suc (suc j))) (least (suc (suc i)) (suc j))
        (least (suc i) (suc j)),
  )

  least_replace : (i j : ℕ) → least (suc i) (suc j) ≤ least i j + 1
  unfolding least
  least_replace zero j = near-upleft 0 j (suc j) _ j
  least_replace (suc i) zero = near-upleft (suc i) 0 _ _ _
  least_replace (suc i) (suc j) = omega (
    arith,
    least-near i j,
    near-upleft (suc i) (suc j) (least (suc i) (suc (suc j))) (least (suc (suc i)) (suc j))
        (least (suc i) (suc j)),
  )

  least_keep :
      (i j : ℕ) → (get_or str1 i 0 == get_or str2 j 0) ≡ true → least (suc i) (suc j) ≤ least i j
  unfolding least
  least_keep zero j e = near_keep 0 j (suc j) _ j e
  least_keep (suc i) zero e = near_keep (suc i) 0 _ _ _ e
  least_keep (suc i) (suc j) e = omega (
    arith,
    least-near i j,
    near_keep (suc i) (suc j) (least (suc i) (suc (suc j))) (least (suc (suc i)) (suc j))
        (least (suc i) (suc j)) e,
  )

  least_transpose :
      (i j : ℕ)
      → ((get_or str1 (suc i) 0 == get_or str2 j 0) && (get_or str1 i 0 == get_or str2 (suc j) 0))
        ≡ true
      → least (suc (suc i)) (suc (suc j)) ≤ least i j + 1
  unfolding least
  least_transpose i j e = rw e (omega arith)

  -- No sequence of edits is shorter.
  pub least-Edit : {i j n : ℕ} → Edit i j n → least i j ≤ n
  least-Edit done = omega (arith, least-zero 0)
  least-Edit (delete {i} {j} e) = omega (arith, least_delete i j, least-Edit e)
  least-Edit (insert {i} {j} e) = omega (arith, least_insert i j, least-Edit e)
  least-Edit (keep {i} {j} h e) = omega (arith, least_keep i j h, least-Edit e)
  least-Edit (replace {i} {j} e) = omega (arith, least_replace i j, least-Edit e)
  least-Edit (transpose {i} {j} h e) = omega (arith, least_transpose i j h, least-Edit e)

  -- One of the edits that `near` compares, after the edits before it.
  near-Edit :
      {i j l u d : ℕ}
      → Edit i (suc j) l
      → Edit (suc i) j u
      → Edit i j d
      → Edit (suc i) (suc j) (near i j l u d)
  near-Edit {i} {j} {l} {u} {d} el eu ed = elim (near_cases i j l u d) [
    | inl e ↦ subst (Edit (suc i) (suc j)) (sym e) (delete el)
    | inr (inl e) ↦ subst (Edit (suc i) (suc j)) (sym e) (insert eu)
    | inr (inr (inl e)) ↦ subst (Edit (suc i) (suc j)) (sym e) (replace ed)
    | inr (inr (inr (same, e))) ↦ subst (Edit (suc i) (suc j)) (sym e) (keep same ed)
  ]

  swap-Edit :
      {i j y n : ℕ}
      → Edit (suc (suc i)) (suc (suc j)) y
      → Edit i j n
      → Edit (suc (suc i)) (suc (suc j)) (
          if (get_or str1 (suc i) 0 == get_or str2 j 0)
            && (get_or str1 i 0 == get_or str2 (suc j) 0)
          then min y (n + 1)
          else y)
  swap-Edit {i} {j} {y} {n} ey en =
      elim (Bool-cases (
        (get_or str1 (suc i) 0 == get_or str2 j 0) && (get_or str1 i 0 == get_or str2 (suc j) 0))) [
          | inl e ↦ rw e (elim (min_cases y n) [
            | inl a ↦ subst (Edit (suc (suc i)) (suc (suc j))) (sym a) ey
            | inr b ↦ subst (Edit (suc (suc i)) (suc (suc j))) (sym b) (transpose e en)
          ])
          | inr e ↦ rw e ey
        ]

  -- There is a sequence of that many edits.
  pub Edit-least : (i j : ℕ) → Edit i j (least i j)
  unfolding least
  Edit-least zero zero = done
  Edit-least zero (suc j) = insert (Edit-least zero j)
  Edit-least (suc zero) zero = delete done
  Edit-least (suc (suc i)) zero = delete (Edit-least (suc i) zero)
  Edit-least (suc zero) (suc j) =
      near-Edit (Edit-least zero (suc j)) (Edit-least (suc zero) j) (Edit-least zero j)
  Edit-least (suc (suc i)) (suc zero) =
      near-Edit (Edit-least (suc i) (suc zero)) (Edit-least (suc (suc i)) zero)
        (Edit-least (suc i) zero)
  Edit-least (suc (suc i)) (suc (suc j)) =
      swap-Edit
        (near-Edit (Edit-least (suc i) (suc (suc j))) (Edit-least (suc (suc i)) (suc j))
          (Edit-least (suc i) (suc j)))
        (Edit-least i j)

swap-test : (a b c d : ℕ) → ((a == b) && (c == d)) ≡ true → ((d == c) && (b == a)) ≡ true
swap-test a b c d h = ground arith

eq-swap : (a b : ℕ) → (a == b) ≡ true → (b == a) ≡ true
eq-swap a b h = ground arith

-- The same edits, seen from the other string.
Edit-swap : (str1 str2 : List ℕ) {i j n : ℕ} → Edit str1 str2 i j n → Edit str2 str1 j i n
Edit-swap str1 str2 done = done
Edit-swap str1 str2 (delete e) = insert (Edit-swap str1 str2 e)
Edit-swap str1 str2 (insert e) = delete (Edit-swap str1 str2 e)
Edit-swap str1 str2 (keep h e) = keep (eq-swap _ _ h) (Edit-swap str1 str2 e)
Edit-swap str1 str2 (replace e) = replace (Edit-swap str1 str2 e)
Edit-swap str1 str2 (transpose {i} {j} h e) =
    transpose
      (swap-test (get_or str1 (suc i) 0) (get_or str2 j 0) (get_or str1 i 0) (get_or str2 (suc j) 0)
        h)
      (Edit-swap str1 str2 e)

pub least-swap : (str1 str2 : List ℕ) (i j : ℕ) → least str1 str2 i j ≡ least str2 str1 j i
least-swap str1 str2 i j = omega (
  arith,
  least-Edit str1 str2 (Edit-swap str2 str1 (Edit-least str2 str1 j i)),
  least-Edit str2 str1 (Edit-swap str1 str2 (Edit-least str1 str2 i j)),
)
