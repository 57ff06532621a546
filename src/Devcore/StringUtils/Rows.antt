-- ===== src/Devcore/StringUtils/Rows.antt =====
-- libdevcore/StringUtils.cpp: `dp` holds the least numbers of edits of the last three rows.
use native.Mathlib.Numerals.{sub-one}
use lity.Prelude.{
  ℕ, zero, suc, ◌+◌, ◌-◌, ◌*◌, ◌≤◌, ◌<◌, min, max, ◌≡◌, ◌≢◌, ◌⊎◌, inl, inr, sym, refl, ap, ◌∙◌,
  Bool, true, false, ◌&&◌, Option, some, List, length, get_elem?, get_or, replicate, set, lt→ltb,
  ◌==◌, if◌then◌else◌, arith, length-set, get_elem?-set_self, get_elem?-set_ne, length-replicate,
}
use lity.Prelude.Options.{write, write_inside, get_elem?-get_or}
use lity.Devcore.StringUtils.{
  at, is_transposing, inner_case, fill_cell, fill_row, fill_rows, string_distance,
}
use lity.Devcore.StringUtils.Edits.{near, least, least-swap}

sub_two : (n : ℕ) → suc (suc n) - 2 ≡ n
sub_two n = omega arith

base_if : (m x y : ℕ) (o : Option ℕ) → m ≡ 0 → x ≡ y → (if m == 0 then some x else o) ≡ some y
base_if m x y o hm hx = ground arith

inner_if : (m x y : ℕ) (o : Option ℕ) → 0 < m → o ≡ some y → (if m == 0 then some x else o) ≡ some y
inner_if m x y o hm ho = ground arith

some_if : (b : Bool) (x y : ℕ) → (if b then some x else some y) ≡ some (if b then x else y)
some_if true x y = refl
some_if false x y = refl

module _ (str1 str2 : List ℕ) where
  abbrev width : ℕ
  width = length str2 + 1

  -- Of the rows i1, i1 - 1 and i1 - 2, all but what lies right of column i2 in row i1 is filled.
  record IsFilled (i1 i2 : ℕ) (dp : List ℕ) : Type 0 where
    size : length dp ≡ 3 * width
    cells :
        (i j : ℕ)
        → j < width
        → i ≤ i1
        → i1 ≤ i + 2
        → (i < i1) ⊎ (j < i2)
        → get_elem? dp (at i j) ≡ some (least str1 str2 i j)

  place_apart : (i j i1 i2 : ℕ) → i ≤ i1 → i1 ≤ i + 2 → (i < i1) ⊎ (j < i2) → at i1 i2 ≢ at i j
  place_apart i j i1 i2 lo hi (inl h) e = omega arith
  place_apart i j i1 i2 lo hi (inr h) e = omega arith

  new_or_old :
      (i j i1 i2 : ℕ)
      → i ≤ i1
      → (i < i1) ⊎ (j < suc i2)
      → ((i ≡ i1) × (j ≡ i2)) ⊎ ((i < i1) ⊎ (j < i2))
  new_or_old i j i1 i2 lo h = ground arith

  set-IsFilled :
      {i1 i2 : ℕ} {dp : List ℕ}
      → i2 < width
      → IsFilled i1 i2 dp
      → IsFilled i1 (suc i2) (set dp (at i1 i2) (least str1 str2 i1 i2))
  set-IsFilled {i1} {i2} {dp} inside p = record {
    size = length-set dp _ _ ∙ p.size;
    cells = λ i j hj lo hi h. elim (new_or_old i j i1 i2 lo h) [
      | inl (ei, ej) ↦
          rw (ei, ej)
            (get_elem?-set_self dp (at i1 i2) (least str1 str2 i1 i2) (rw p.size (omega arith)))
      | inr before ↦
          get_elem?-set_ne dp (least str1 str2 i1 i2) (place_apart i j i1 i2 lo hi before)
          ∙ p.cells i j hj lo hi before
    ];
  }

  is_transposing_row : (j : ℕ) → is_transposing str1 str2 1 (suc j) ≡ some false
  unfolding is_transposing
  is_transposing_row j = refl

  is_transposing_column : (i : ℕ) → is_transposing str1 str2 (suc (suc i)) 1 ≡ some false
  unfolding is_transposing
  is_transposing_column i = ground arith

  abbrev swapped : ℕ → ℕ → Bool
  swapped i j =
      (get_or str1 (suc i) 0 == get_or str2 j 0) && (get_or str1 i 0 == get_or str2 (suc j) 0)

  is_transposing_pair :
      (i j : ℕ)
      → suc i < length str1
      → suc j < length str2
      → is_transposing str1 str2 (suc (suc i)) (suc (suc j)) ≡ some (swapped i j)
  unfolding is_transposing
  is_transposing_pair i j hi hj =
      rw (lt→ltb 1 (suc (suc i)) (omega arith), lt→ltb 1 (suc (suc j)) (omega arith))
        (simp (
          sub-one,
          sub_two,
          get_elem?-get_or str1 (suc i) 0 hi,
          get_elem?-get_or str2 (suc j) 0 hj,
          get_elem?-get_or str1 i 0 (omega arith),
          get_elem?-get_or str2 j 0 (omega arith),
        ))

  inner_case-read :
      (i j : ℕ) (dp : List ℕ)
      → i < length str1
      → j < length str2
      → IsFilled (suc i) (suc j) dp
      → inner_case str1 str2 dp (suc i) (suc j) ≡ some (least str1 str2 (suc i) (suc j))
  unfolding inner_case least near
  inner_case-read zero j dp hi hj p =
      simp
        (
          sub-one,
          p.cells 0 (suc j) (omega arith) (omega arith) (omega arith) (inl (omega arith)),
          p.cells 1 j (omega arith) (omega arith) (omega arith) (inr (omega arith)),
          p.cells 0 j (omega arith) (omega arith) (omega arith) (inl (omega arith)),
          get_elem?-get_or str1 0 0 hi,
          get_elem?-get_or str2 j 0 hj,
          is_transposing_row j,
        )
        refl
  inner_case-read (suc i) zero dp hi hj p =
      simp
        (
          sub-one,
          sub_two,
          p.cells (suc i) 1 (omega arith) (omega arith) (omega arith) (inl (omega arith)),
          p.cells (suc (suc i)) 0 (omega arith) (omega arith) (omega arith) (inr (omega arith)),
          p.cells (suc i) 0 (omega arith) (omega arith) (omega arith) (inl (omega arith)),
          get_elem?-get_or str1 (suc i) 0 hi,
          get_elem?-get_or str2 0 0 hj,
          is_transposing_column i,
        )
        refl
  inner_case-read (suc i) (suc j) dp hi hj p =
      simp
        (
          sub-one,
          sub_two,
          p.cells (suc i) (suc (suc j)) (omega arith) (omega arith) (omega arith)
              (inl (omega arith)),
          p.cells (suc (suc i)) (suc j) (omega arith) (omega arith) (omega arith)
              (inr (omega arith)),
          p.cells (suc i) (suc j) (omega arith) (omega arith) (omega arith) (inl (omega arith)),
          p.cells i j (omega arith) (omega arith) (omega arith) (inl (omega arith)),
          get_elem?-get_or str1 (suc i) 0 hi,
          get_elem?-get_or str2 (suc j) 0 hj,
          is_transposing_pair i j hi hj,
        )
        (some_if (swapped i j) _ _)

  write_cell :
      (i1 i2 : ℕ) (dp : List ℕ)
      → i2 < width
      → IsFilled i1 i2 dp
      → write dp (at i1 i2) (least str1 str2 i1 i2)
        ≡ some (set dp (at i1 i2) (least str1 str2 i1 i2))
  write_cell i1 i2 dp h p =
      write_inside dp (at i1 i2) (least str1 str2 i1 i2) (rw p.size (omega arith))

  fill_cell-IsFilled :
      (i1 i2 : ℕ) (dp : List ℕ)
      → i1 < suc (length str1)
      → i2 < width
      → IsFilled i1 i2 dp
      → fill_cell str1 str2 i1 i2 dp ≡ some (set dp (at i1 i2) (least str1 str2 i1 i2))
  unfolding fill_cell least
  fill_cell-IsFilled zero i2 dp h1 h2 p =
      rw
        (base_if (min 0 i2) (max 0 i2) i2 (inner_case str1 str2 dp 0 i2) (omega arith)
          (omega arith))
        (write_cell 0 i2 dp h2 p)
  fill_cell-IsFilled (suc i) zero dp h1 h2 p =
      rw
        (base_if (min (suc i) 0) (max (suc i) 0) (suc i) (inner_case str1 str2 dp (suc i) 0)
          (omega arith) (omega arith))
        (write_cell (suc i) 0 dp h2 p)
  fill_cell-IsFilled (suc i) (suc j) dp h1 h2 p =
      rw
        (inner_if (min (suc i) (suc j)) (max (suc i) (suc j)) (least str1 str2 (suc i) (suc j))
          (inner_case str1 str2 dp (suc i) (suc j)) (omega arith)
          (inner_case-read i j dp (omega arith) (omega arith) p))
        (write_cell (suc i) (suc j) dp h2 p)

  -- The table after so many rounds, and that there is one.
  fill_row-IsFilled :
      (i1 rounds : ℕ) (dp : List ℕ)
      → i1 < suc (length str1)
      → rounds ≤ width
      → IsFilled i1 0 dp
      → (filled : List ℕ) × (fill_row str1 str2 i1 rounds dp ≡ some filled)
        × IsFilled i1 rounds filled
  unfolding fill_row
  fill_row-IsFilled i1 zero dp h1 h2 p = (dp, refl, p)
  fill_row-IsFilled i1 (suc rounds) dp h1 h2 p =
      let (filled, e, q) = fill_row-IsFilled i1 rounds dp h1 (omega arith) p in
      (
        set filled (at i1 rounds) (least str1 str2 i1 rounds),
        rw (e, fill_cell-IsFilled i1 rounds filled h1 h2 q),
        set-IsFilled h2 q,
      )

  next_row : (i1 : ℕ) (dp : List ℕ) → IsFilled i1 width dp → IsFilled (suc i1) 0 dp
  next_row i1 dp p = record {
    size = p.size;
    cells = λ i j hj lo hi h. p.cells i j hj (ground arith) (omega arith) (inr hj);
  }

  fill_rows-IsFilled :
      (rounds : ℕ)
      → rounds ≤ suc (length str1)
      → (filled : List ℕ) × (fill_rows str1 str2 rounds (replicate (3 * width) 0) ≡ some filled)
        × IsFilled rounds 0 filled
  unfolding fill_rows
  fill_rows-IsFilled zero h = (
    replicate (3 * width) 0,
    refl,
    record {
      size = length-replicate (3 * width) 0;
      cells = λ i j hj lo hi h. elim h [ inl a ↦ elim a [ ] | inr a ↦ elim a [ ] ];
    },
  )
  fill_rows-IsFilled (suc rounds) h =
      let (dp, e, p) = fill_rows-IsFilled rounds (omega arith) in
      let (filled, e', q) = fill_row-IsFilled rounds width dp h (omega arith) p in
      (filled, rw (e, e'), next_row rounds filled q)

  pub string_distance-least :
      string_distance str1 str2 ≡ some (least str1 str2 (length str1) (length str2))
  unfolding string_distance
  string_distance-least =
      let (filled, e, p) = fill_rows-IsFilled (length str1 + 1) (omega arith) in
      rw e (
        p.cells (length str1) (length str2) (omega arith) (omega arith) (omega arith)
          (inl (omega arith)))

-- The distance does not depend on the order of the two strings.
pub string_distance-swap :
    (str1 str2 : List ℕ) → string_distance str1 str2 ≡ string_distance str2 str1
string_distance-swap str1 str2 =
    string_distance-least str1 str2
    ∙ ap some (least-swap str1 str2 (length str1) (length str2))
    ∙ sym (string_distance-least str2 str1)
