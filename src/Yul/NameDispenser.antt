-- ===== src/Yul/NameDispenser.antt =====
-- libyul/optimiser/NameDispenser.h and .cpp: names that are not yet used.
pub mod Decimal
pub mod Fresh
use lity.Prelude.{
  ℕ, zero, suc, ◌+◌, ◌*◌, ◌/◌, ◌%◌, Bool, true, false, ◌||◌, Option, none, some, List, [], ◌∷◌,
  ◌++◌, length, take, ltb, if◌then◌else◌,
}
use lity.Devcore.StringUtils.{string_eq}
use lity.Yul.Expression.{Name}

-- `to_string`, with as many rounds as the number for fuel
unfoldable pub digits : ℕ → ℕ → Name
digits zero n = []
digits (suc fuel) n =
    let rest = digits fuel (n / 10) in
    if ltb n 10 then (48 + n) ∷ [] else rest ++ ((48 + n % 10) ∷ [])

unfoldable pub to_string : ℕ → Name
to_string n = digits (n + 1) n

-- `m_usedNames` and `m_counter`
pub record NameDispenser : Type 0 where
  pub used_names : List Name
  pub counter : ℕ

-- `m_usedNames.count(name)`
unfoldable pub contains : List Name → Name → Bool
contains [] name = false
contains (n ∷ names) name = string_eq n name || contains names name

abbrev pub is_empty : Name → Bool
is_empty [] = true
is_empty (c ∷ cs) = false

-- The name that is tried when the counter has a value, with "_" between.
unfoldable pub candidate : Name → ℕ → Name
candidate name_hint counter = name_hint ++ (95 ∷ to_string counter)

-- The loop, none if the fuel is not enough; a `size_t` counter wraps around.
unfoldable pub try_names : ℕ → List Name → Name → Name → ℕ → Option (Name × ℕ)
try_names zero used_names name_hint name counter = none
try_names (suc fuel) used_names name_hint name counter =
    let next = (counter + 1) % 0x1_0000_0000_0000_0000 in
    let rest = try_names fuel used_names name_hint (candidate name_hint next) next in
    if is_empty name || contains used_names name then rest else some (name, counter)

-- The name that is found is used from then on.
unfoldable pub found_name : List Name → Option (Name × ℕ) → Option (Name × NameDispenser)
found_name used_names none = none
found_name used_names (some (name, counter)) =
    some (name, record { used_names = name ∷ used_names; counter = counter })

-- `newNameInternal`
unfoldable pub new_name_internal : NameDispenser → Name → Option (Name × NameDispenser)
new_name_internal d name_hint =
    found_name d.used_names
      (try_names (length d.used_names + 2) d.used_names name_hint name_hint d.counter)

-- `newName`
unfoldable pub new_name : NameDispenser → Name → Name → Option (Name × NameDispenser)
new_name d name_hint context =
    if is_empty context
    then new_name_internal d name_hint
    else new_name_internal d (take 10 context ++ (95 ∷ name_hint))
