-- ===== src/Devcore/StringUtils.antt =====
-- libdevcore/StringUtils.h and .cpp: how far two names are apart, and lists of names for a reader.
-- A string is the list of its bytes.
pub mod Edits
pub mod Rows
pub mod Within
pub mod Join
use lity.Prelude.{
  ℕ, zero, suc, ◌+◌, ◌-◌, ◌*◌, ◌%◌, min, max, Bool, true, false, ◌&&◌, ◌||◌, not, Option, none,
  some, List, [], ◌∷◌, ◌++◌, map, length, get_elem?, replicate, ltb, leb, ◌==◌, if◌then◌else◌,
}
use lity.Prelude.Options.{◌>>=◌, write}

-- The place in `dp` of row i1, of which the last three are kept, and column i2.
abbrev pub at : ℕ → ℕ → ℕ
at i1 i2 = i1 % 3 + i2 * 3

module _ (str1 str2 : List ℕ) where
  -- `i1 > 1 && i2 > 1 && …`: the last two characters are each other's.
  unfoldable pub is_transposing : ℕ → ℕ → Option Bool
  is_transposing i1 i2 =
      if ltb 1 i1 && ltb 1 i2
      then (do
        last1 ← get_elem? str1 (i1 - 1)
        before2 ← get_elem? str2 (i2 - 2)
        before1 ← get_elem? str1 (i1 - 2)
        last2 ← get_elem? str2 (i2 - 1)
        some ((last1 == before2) && (before1 == last2)))
      else some false

  -- The branch of the loop's body that is not the base case.
  unfoldable pub inner_case : List ℕ → ℕ → ℕ → Option ℕ
  inner_case dp i1 i2 = do
    left ← get_elem? dp (at (i1 - 1) i2)
    up ← get_elem? dp (at i1 (i2 - 1))
    upleft ← get_elem? dp (at (i1 - 1) (i2 - 1))
    c1 ← get_elem? str1 (i1 - 1)
    c2 ← get_elem? str2 (i2 - 1)
    let x = min (left + 1) (up + 1)
    let y = if c1 == c2 then min x upleft else min x (upleft + 1)
    transposing ← is_transposing i1 i2
    if transposing
        then (do corner ← get_elem? dp (at (i1 - 2) (i2 - 2)); some (min y (corner + 1)))
        else some y

  -- One round of the inner loop.
  unfoldable pub fill_cell : ℕ → ℕ → List ℕ → Option (List ℕ)
  fill_cell i1 i2 dp = do
    x ← if min i1 i2 == 0 then some (max i1 i2) else inner_case dp i1 i2
    write dp (at i1 i2) x

  -- The first `rounds` rounds of the inner loop, and of the outer one.
  unfoldable pub fill_row : ℕ → ℕ → List ℕ → Option (List ℕ)
  fill_row i1 zero dp = some dp
  fill_row i1 (suc rounds) dp = fill_row i1 rounds dp >>= fill_cell i1 rounds

  unfoldable pub fill_rows : ℕ → List ℕ → Option (List ℕ)
  fill_rows zero dp = some dp
  fill_rows (suc rounds) dp = fill_rows rounds dp >>= fill_row rounds (length str2 + 1)

  -- `stringDistance`
  unfoldable pub string_distance : Option ℕ
  string_distance = do
    dp ← fill_rows (length str1 + 1) (replicate (3 * (length str2 + 1)) 0)
    get_elem? dp (at (length str1) (length str2))

-- `==` on strings
unfoldable pub string_eq : List ℕ → List ℕ → Bool
string_eq [] [] = true
string_eq [] (d ∷ ds) = false
string_eq (c ∷ cs) [] = false
string_eq (c ∷ cs) (d ∷ ds) = (c == d) && string_eq cs ds

-- `stringWithinDistance`. The product wraps around, as that of two `size_t` does.
unfoldable pub string_within_distance : List ℕ → List ℕ → ℕ → ℕ → Option Bool
string_within_distance str1 str2 max_distance len_threshold =
    if string_eq str1 str2
    then some true
    else if ltb 0 len_threshold
        && ltb len_threshold (length str1 * length str2 % 0x1_0000_0000_0000_0000)
    then some false
    else (do
      distance ← string_distance str1 str2
      some
          (leb distance max_distance && (ltb distance (length str1) && ltb distance (length str2))))

-- `joinHumanReadable`: the loop, whose first round puts no separator before the element.
unfoldable pub join_loop : List ℕ → List ℕ → Bool → List ℕ → List (List ℕ) → List ℕ
join_loop separator last_separator first result [] = result
join_loop separator last_separator first result (element ∷ rest) =
    let between =
      if first
      then []
      else if (elim rest [ [] ↦ true | _ ↦ false ])
          && (elim last_separator [ [] ↦ false | _ ↦ true ])
      then last_separator
      else separator in
    join_loop separator last_separator false (result ++ between ++ element) rest

unfoldable pub join_human_readable : List (List ℕ) → List ℕ → List ℕ → List ℕ
unfolding join_loop
join_human_readable list separator last_separator = join_loop separator last_separator true [] list

-- `quotedAlternativesList`, with the quotes '"', the separator ", " and the last one " or "
unfoldable pub quoted_alternatives_list : List (List ℕ) → List ℕ
unfolding join_human_readable
quoted_alternatives_list suggestions =
    join_human_readable (map (λ s. (34 ∷ []) ++ (s ++ (34 ∷ []))) suggestions) (44 ∷ 32 ∷ [])
      (32 ∷ 111 ∷ 114 ∷ 32 ∷ [])
