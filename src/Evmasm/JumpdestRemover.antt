-- ===== src/Evmasm/JumpdestRemover.antt =====
-- libevmasm/JumpdestRemover.cpp: tags that nothing refers to are removed. A set of tags is a list of
-- which only the membership is asked.
pub mod Kept
use lity.Prelude.{
  ℕ, Bool, true, false, not, List, [], ◌∷◌, ◌++◌, length, ◌==◌, ◌||◌, if◌then◌else◌, Result, ok,
  err, ◌>>=◌, ◌>>◌, assert_throw, optimizer_exception,
}
use lity.Evmasm.AssemblyItem.{AssemblyItem, push_tag, tag, type_eq, no_sub, split_foreign_push_tag}

-- `count` of a set
abbrev pub has : List ℕ → ℕ → Bool
has [] t = false
has (x ∷ xs) t = x == t || has xs t

-- `referencedTags`
unfoldable pub referenced_tags : List AssemblyItem → ℕ → Result (List ℕ)
referenced_tags [] sub_id = ok []
referenced_tags (it ∷ items) sub_id =
    let rest = referenced_tags items sub_id in
    if type_eq it.type push_tag
    then (do
      (sub, t) ← split_foreign_push_tag it
      ts ← rest
      ok (if sub == sub_id then t ∷ ts else ts))
    else rest

-- The predicate of `remove_if`.
unfoldable pub is_unreferenced : List ℕ → AssemblyItem → Result Bool
is_unreferenced references it = if not (type_eq it.type tag) then ok false else (do
  (sub, t) ← split_foreign_push_tag it
  _ ← assert_throw (sub == no_sub) optimizer_exception
  ok (not (has references t)))

unfoldable pub remove_unreferenced : List ℕ → List AssemblyItem → Result (List AssemblyItem)
remove_unreferenced references [] = ok []
remove_unreferenced references (it ∷ items) =
    let rest = remove_unreferenced references items in
    do drop ← is_unreferenced references it; kept ← rest; ok (if drop then kept else it ∷ kept)

-- `optimise`
unfoldable pub optimise : List ℕ → List AssemblyItem → Result (Bool × List AssemblyItem)
optimise referenced_from_outside items = do
  references ← referenced_tags items no_sub
  kept ← remove_unreferenced (references ++ referenced_from_outside) items
  ok (not (length kept == length items), kept)
