-- ===== src/Evmasm/JumpdestRemover/Kept.antt =====
-- libevmasm/JumpdestRemover.cpp: which items stay, and that a second run removes nothing.
use lity.Prelude.{
  ℕ, ◌/◌, ◌%◌, ◌^◌, ◌≡◌, refl, sym, ap, Bool, true, false, not, List, [], ◌∷◌, ◌++◌, length, ◌==◌,
  ◌||◌, ◌&&◌, ltb, if◌then◌else◌, ok, Bool-cases, inl, inr, arith,
}
use lity.Evmasm.AssemblyItem.{AssemblyItem, push_tag, tag, type_eq, no_sub, split_foreign_push_tag}
use lity.Evmasm.JumpdestRemover.{
  has, referenced_tags, is_unreferenced, remove_unreferenced, optimise,
}

-- The tags of the own assembly that the items push.
abbrev pub pushes_own_tag : AssemblyItem → Bool
pushes_own_tag it = type_eq it.type push_tag && it.data_value / 2 ^ 64 % 2 ^ 64 == 0

unfoldable pub own_references : List AssemblyItem → List ℕ
own_references [] = []
own_references (it ∷ items) =
    let rest = own_references items in
    if pushes_own_tag it then it.data_value % 2 ^ 64 ∷ rest else rest

-- The labels are tags of the own assembly, and data are words.
abbrev pub is_own : AssemblyItem → Bool
is_own it = ltb it.data_value (if type_eq it.type tag then 2 ^ 64 else 2 ^ 256)

unfoldable pub all_own : List AssemblyItem → Bool
all_own [] = true
all_own (it ∷ items) = is_own it && all_own items

-- An item stays unless it is a tag outside the set.
abbrev pub stays : List ℕ → AssemblyItem → Bool
stays references it = not (type_eq it.type tag) || has references it.data_value

unfoldable pub filter : (AssemblyItem → Bool) → List AssemblyItem → List AssemblyItem
filter p [] = []
filter p (it ∷ items) = let rest = filter p items in if p it then it ∷ rest else rest

referenced_tags-own :
    (items : List AssemblyItem)
    → all_own items ≡ true
    → referenced_tags items no_sub ≡ ok (own_references items)
unfolding referenced_tags own_references all_own split_foreign_push_tag
referenced_tags-own [] h = refl
referenced_tags-own (it ∷ items) h =
    let rest = referenced_tags-own items (ground arith) in ground arith

remove_unreferenced-filter :
    (references : List ℕ) (items : List AssemblyItem)
    → all_own items ≡ true
    → remove_unreferenced references items ≡ ok (filter (stays references) items)
unfolding remove_unreferenced is_unreferenced filter all_own split_foreign_push_tag
remove_unreferenced-filter references [] h = refl
remove_unreferenced-filter references (it ∷ items) h =
    let rest = remove_unreferenced-filter references items (ground arith) in ground arith

abbrev pub references_of : List ℕ → List AssemblyItem → List ℕ
references_of outside items = own_references items ++ outside

-- The remover never throws where every label is a tag of the own assembly and data are words, and then
-- it leaves the items, in their order, less the labels that neither the own assembly pushes nor the outside names;
-- it reports a change if the number of items is another.
pub optimise-filter :
    (outside : List ℕ) (items : List AssemblyItem)
    → all_own items ≡ true
    → optimise outside items
      ≡ ok (
        not (length (filter (stays (references_of outside items)) items) == length items),
        filter (stays (references_of outside items)) items,
      )
unfolding optimise
optimise-filter outside items h =
    rw
      (
        referenced_tags-own items h,
        remove_unreferenced-filter (references_of outside items) items h,
      )
      refl

own_references-filter :
    (references : List ℕ) (items : List AssemblyItem)
    → own_references (filter (stays references) items) ≡ own_references items
unfolding own_references filter
own_references-filter references [] = refl
own_references-filter references (it ∷ items) =
    let rest = own_references-filter references items in
    elim (Bool-cases (stays references it)) [
      | inl s ↦ elim (Bool-cases (pushes_own_tag it)) [
        | inl p ↦ rw (s, own_references, p) (ap (λ l. it.data_value % 2 ^ 64 ∷ l) rest)
        | inr p ↦ rw (s, own_references, p) rest
      ]
      | inr s ↦ let p : pushes_own_tag it ≡ false = ground arith in rw (s, p) rest
    ]

filter_again :
    (references : List ℕ) (items : List AssemblyItem)
    → filter (stays references) (filter (stays references) items) ≡ filter (stays references) items
unfolding filter
filter_again references [] = refl
filter_again references (it ∷ items) =
    let rest = filter_again references items in
    elim (Bool-cases (stays references it)) [
      | inl s ↦ rw (s, filter, s) (ap (λ l. it ∷ l) rest)
      | inr s ↦ rw s rest
    ]

all_own-filter :
    (references : List ℕ) (items : List AssemblyItem)
    → all_own items ≡ true
    → all_own (filter (stays references) items) ≡ true
unfolding all_own filter
all_own-filter references [] h = refl
all_own-filter references (it ∷ items) h =
    let rest = all_own-filter references items (ground arith) in
    elim (Bool-cases (stays references it)) [
      | inl s ↦ rw (s, all_own) (ground arith)
      | inr s ↦ rw s rest
    ]

-- Where every label is a tag of the own assembly and data are words, a second run on what a run left
-- removes nothing and reports no change.
pub optimise-optimise :
    (outside : List ℕ) (items kept : List AssemblyItem) (changed : Bool)
    → all_own items ≡ true
    → optimise outside items ≡ ok (changed, kept)
    → optimise outside kept ≡ ok (false, kept)
optimise-optimise outside items kept changed h o =
    let references = references_of outside items in
    let left : filter (stays references) items ≡ kept =
      let f = optimise-filter outside items h in cc in
    let own : all_own kept ≡ true = rw (sym left) (all_own-filter references items h) in
    let same : references_of outside kept ≡ references =
      rw (sym left) (ap (λ l. l ++ outside) (own_references-filter references items)) in
    let again : filter (stays references) kept ≡ kept =
      rw (sym left) (filter_again references items) in
    let f = optimise-filter outside kept own in
    let f' : optimise outside kept
        ≡ ok (
          not (length (filter (stays references) kept) == length kept),
          filter (stays references) kept,
        ) =
      rw same at f in
    let f'' : optimise outside kept ≡ ok (not (length kept == length kept), kept) =
      rw again at f' in
    let same_length : (length kept == length kept) ≡ true = ground arith in
    let f''' : optimise outside kept ≡ ok (not true, kept) = rw same_length at f'' in f'''
