-- ===== src/Evmasm/PeepholeOptimiser/Positions.antt =====
-- libevmasm/PeepholeOptimiser.cpp: positions in a program, and the tags that jumps go to.
use lity.Prelude.{
  ℕ, ◌≡◌, refl, ap, sym, subst, ◌∙◌, Bool, true, false, ◌&&◌, Option, none, some, List, [], ◌∷◌,
  ◌++◌, ◌==◌, if◌then◌else◌, Bool-cases, inl, inr, arith,
}
use mathlib.Core.List.{append_assoc}
use lity.Evmasm.AssemblyItem.{AssemblyItem, tag, type_eq}
use lity.Evmasm.Machine.{Machine, find_dest}
use lity.Evmasm.Machine.Words.Step.{FitItems}

-- The items are what is left of the program at some position.
abbrev pub IsAt : List AssemblyItem → List AssemblyItem → Type 0
IsAt program items = (before : List AssemblyItem) × (before ++ items ≡ program)

pub IsAt-append :
    (program win rest : List AssemblyItem) → IsAt program (win ++ rest) → IsAt program rest
IsAt-append program win rest (before, e) = (before ++ win, append_assoc before win rest ∙ e)

FitItems-append : (xs ys : List AssemblyItem) → FitItems (xs ++ ys) → FitItems xs × FitItems ys
FitItems-append [] ys h = (tt, h)
FitItems-append (x ∷ xs) ys h = let p = FitItems-append xs ys h.1 in ((h.0, p.0), p.1)

-- The data of the items at a position are words if those of the program are.
pub FitItems-at :
    (program items : List AssemblyItem) → FitItems program → IsAt program items → FitItems items
FitItems-at program items h (before, e) =
    (FitItems-append before items (subst FitItems (sym e) h)).1

pub FitItems-window : (win rest : List AssemblyItem) → FitItems (win ++ rest) → FitItems win
FitItems-window win rest h = (FitItems-append win rest h).0

abbrev is_none {ℓ} : {A : Type ℓ} → Option A → Bool
is_none none = true
is_none (some _) = false

module _ (m : Machine) where
  -- A destination is a position of the program.
  pub find_dest-IsAt :
      (a : ℕ) (program items : List AssemblyItem)
      → find_dest m a program ≡ some items
      → IsAt program items
  unfolding find_dest
  find_dest-IsAt a [] items h = absurd (cc)
  find_dest-IsAt a (it ∷ program) items h =
      elim (Bool-cases (type_eq it.type tag && m.address it.data_value == a)) [
        | inl e ↦ ([], ground arith)
        | inr e ↦
            let (before, k) = find_dest-IsAt a program items (ground arith) in
            (it ∷ before, ap (λ l. it ∷ l) k)
      ]

  -- No two tags have one address.
  unfoldable pub distinct_tags : List AssemblyItem → Bool
  unfolding find_dest
  distinct_tags [] = true
  distinct_tags (it ∷ items) =
      (if type_eq it.type tag then is_none (find_dest m (m.address it.data_value) items) else true)
      && distinct_tags items

  find_dest-present :
      (before items : List AssemblyItem) (t : AssemblyItem)
      → t.type ≡ tag
      → is_none (find_dest m (m.address t.data_value) (before ++ t ∷ items)) ≡ false
  unfolding find_dest
  find_dest-present [] items t h =
      let k : (m.address t.data_value == m.address t.data_value) ≡ true = ground arith in
      let g : type_eq t.type tag ≡ true = rw h refl in ground arith
  find_dest-present (x ∷ before) items t h =
      let ih = find_dest-present before items t h in ground arith

  -- A jump to a tag's address goes to that tag.
  pub find_dest-distinct :
      (before items : List AssemblyItem) (t : AssemblyItem)
      → t.type ≡ tag
      → distinct_tags (before ++ t ∷ items) ≡ true
      → find_dest m (m.address t.data_value) (before ++ t ∷ items) ≡ some (t ∷ items)
  unfolding find_dest distinct_tags
  find_dest-distinct [] items t h d =
      let k : (m.address t.data_value == m.address t.data_value) ≡ true = ground arith in
      let g : type_eq t.type tag ≡ true = rw h refl in ground arith
  find_dest-distinct (x ∷ before) items t h d =
      let ih = find_dest-distinct before items t h (ground arith) in
      let there = find_dest-present before items t h in
      elim (Bool-cases (type_eq x.type tag && m.address x.data_value == m.address t.data_value)) [
        | inl e ↦
            let same : m.address x.data_value ≡ m.address t.data_value = ground arith in
            let there' : is_none (find_dest m (m.address x.data_value) (before ++ t ∷ items))
                ≡ false =
              rw same there in
            absurd (ground arith)
        | inr e ↦ ground arith
      ]
