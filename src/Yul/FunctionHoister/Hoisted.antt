-- ===== src/Yul/FunctionHoister/Hoisted.antt =====
-- libyul/optimiser/FunctionHoister.cpp: functions stand at the end of the top level only, and no name
-- or reference is lost.
use lity.Prelude.{
  ◌+◌, ◌≡◌, refl, sym, ap, ◌∙◌, Bool, true, ◌&&◌, ◌==◌, not, Bool-cases, inl, inr, ok, arith,
  &&_iff,
}
use lity.Yul.Expression.{Name}
use lity.Yul.Statement.{
  Statement, instruction, label, stack_assignment, assignment, variable_declaration,
  expression_statement, function_definition, if_statement, switch, for_loop, block, Block,
  no_statement, statement, Cases, no_case, case, append, is_function, is_empty_block,
  is_strict_block,
}
use lity.Yul.Statement.Total.{
  Weights, total, total_block, total_cases, total-append, total-empty, loose_weights,
  strict_block-total,
}
use lity.Yul.NameCollector.{names_block, occurrences, references_block}
use lity.Yul.NameCollector.Totals.{
  reference_weights, name_weights, references_block-total, names_block-total,
}
use lity.Yul.FunctionHoister.{
  remove_empty_blocks, moved, hoist, hoist_each, hoist_cases, hoist_block, hoist_program,
}

-- Neither functions nor empty blocks stand in the block, at any depth.
unfoldable mutual
  unfolding is_function is_empty_block

  pub is_tidy_inside : Statement → Bool
  is_tidy_inside (function_definition f ps rs b) = is_tidy b
  is_tidy_inside (if_statement e b) = is_tidy b
  is_tidy_inside (switch e cs) = is_tidy_cases cs
  is_tidy_inside (for_loop pre e post b) = is_tidy pre && (is_tidy post && is_tidy b)
  is_tidy_inside (block b) = is_tidy b
  is_tidy_inside _ = true

  pub is_tidy : Block → Bool
  is_tidy no_statement = true
  is_tidy (statement s b) =
      not (is_function s) && (not (is_empty_block s) && (is_tidy_inside s && is_tidy b))

  pub is_tidy_cases : Cases → Bool
  is_tidy_cases no_case = true
  is_tidy_cases (case v b cs) = is_tidy b && is_tidy_cases cs

-- Functions only, in which neither functions nor empty blocks stand.
unfoldable pub are_functions : Block → Bool
are_functions no_statement = true
are_functions (statement s b) = is_function s && (is_tidy_inside s && are_functions b)

are_functions-append :
    (b c : Block)
    → are_functions b ≡ true
    → are_functions c ≡ true
    → are_functions (append b c) ≡ true
unfolding are_functions append
are_functions-append no_statement c h k = k
are_functions-append (statement s b) c h k =
    let (here, later) = (&&_iff (is_function s) (is_tidy_inside s && are_functions b)).0 h in
    let (inside, rest) = (&&_iff (is_tidy_inside s) (are_functions b)).0 later in
    rw (here, inside, are_functions-append b c rest k) refl

-- Tidy, but for empty blocks that are still to be removed.
unfoldable is_swept : Block → Bool
is_swept no_statement = true
is_swept (statement s b) = not (is_function s) && (is_tidy_inside s && is_swept b)

remove-is_tidy : (b : Block) → is_swept b ≡ true → is_tidy (remove_empty_blocks b) ≡ true
unfolding is_swept is_tidy remove_empty_blocks
remove-is_tidy no_statement h = refl
remove-is_tidy (statement s b) h =
    let (apart, later) = (&&_iff (not (is_function s)) (is_tidy_inside s && is_swept b)).0 h in
    let (inside, swept) = (&&_iff (is_tidy_inside s) (is_swept b)).0 later in
    let rest = remove-is_tidy b swept in
    elim (Bool-cases (is_empty_block s)) [
      | inl empty ↦ rw empty rest
      | inr full ↦ rw (full, apart, full, inside, rest) refl
    ]

-- After a move: what is left is no function, and the functions are tidy inside.
moved-is_swept :
    (s : Statement) (functions : Block)
    → is_tidy_inside s ≡ true
    → are_functions functions ≡ true
    → ((not (is_function (moved s functions).0) && is_tidy_inside (moved s functions).0) ≡ true)
      × (are_functions (moved s functions).1 ≡ true)
unfolding moved is_function is_tidy_inside is_tidy are_functions
moved-is_swept (function_definition f ps rs b) functions h k = (
  refl,
  are_functions-append functions (statement (function_definition f ps rs b) no_statement) k
      (rw h refl),
)
moved-is_swept (block b) functions h k = (h, k)
moved-is_swept (if_statement e b) functions h k = (h, k)
moved-is_swept (switch e cs) functions h k = (h, k)
moved-is_swept (for_loop pre e post b) functions h k = (h, k)
moved-is_swept (instruction i) functions h k = (h, k)
moved-is_swept (label n) functions h k = (h, k)
moved-is_swept (stack_assignment n) functions h k = (h, k)
moved-is_swept (assignment ns e) functions h k = (h, k)
moved-is_swept (variable_declaration vs e) functions h k = (h, k)
moved-is_swept (expression_statement e) functions h k = (h, k)

both : (x y z : Bool) → (not x && y) ≡ true → z ≡ true → (not x && (y && z)) ≡ true
both x y z h k = ground arith

-- What a walk leaves: tidy code, and tidy functions.
abbrev Leaves : Bool → Block → Type 0
Leaves tidy functions = (tidy ≡ true) × (are_functions functions ≡ true)

removed :
    (b functions : Block)
    → Leaves (is_swept b) functions
    → Leaves (is_tidy (remove_empty_blocks b)) functions
removed b functions (swept, k) = (remove-is_tidy b swept, k)

mutual
  unfolding hoist hoist_each hoist_cases is_tidy_inside is_tidy_cases is_swept

  hoist-Leaves :
      (s : Statement) (functions : Block)
      → are_functions functions ≡ true
      → Leaves (is_tidy_inside (hoist s functions).0) (hoist s functions).1
  hoist-Leaves (function_definition f ps rs b) functions k = removed _ _ (each-Leaves b functions k)
  hoist-Leaves (if_statement e b) functions k = removed _ _ (each-Leaves b functions k)
  hoist-Leaves (switch e cs) functions k = cases-Leaves cs functions k
  hoist-Leaves (for_loop pre e post b) functions k =
      let after_pre = (hoist_each pre functions).1 in
      let (tidy_pre, k_pre) = removed _ _ (each-Leaves pre functions k) in
      let (tidy_post, k_post) = removed _ _ (each-Leaves post after_pre k_pre) in
      let (tidy_b, k_b) = removed _ _ (each-Leaves b (hoist_each post after_pre).1 k_post) in
      ((&&_iff _ _).1 (tidy_pre, (&&_iff _ _).1 (tidy_post, tidy_b)), k_b)
  hoist-Leaves (block b) functions k = removed _ _ (each-Leaves b functions k)
  hoist-Leaves (instruction i) functions k = (refl, k)
  hoist-Leaves (label n) functions k = (refl, k)
  hoist-Leaves (stack_assignment n) functions k = (refl, k)
  hoist-Leaves (assignment ns e) functions k = (refl, k)
  hoist-Leaves (variable_declaration vs e) functions k = (refl, k)
  hoist-Leaves (expression_statement e) functions k = (refl, k)

  each-Leaves :
      (b functions : Block)
      → are_functions functions ≡ true
      → Leaves (is_swept (hoist_each b functions).0) (hoist_each b functions).1
  each-Leaves no_statement functions k = (refl, k)
  each-Leaves (statement s b) functions k =
      let first = hoist s functions in
      let (tidy, k_s) = hoist-Leaves s functions k in
      let (swept, k_moved) = moved-is_swept first.0 first.1 tidy k_s in
      let (rest, k_b) = each-Leaves b (moved first.0 first.1).1 k_moved in
      (both (is_function (moved first.0 first.1).0) _ _ swept rest, k_b)

  cases-Leaves :
      (cs : Cases) (functions : Block)
      → are_functions functions ≡ true
      → Leaves (is_tidy_cases (hoist_cases cs functions).0) (hoist_cases cs functions).1
  cases-Leaves no_case functions k = (refl, k)
  cases-Leaves (case v b cs) functions k =
      let (tidy_b, k_b) = removed _ _ (each-Leaves b functions k) in
      let (tidy_cs, k_cs) = cases-Leaves cs (hoist_each b functions).1 k_b in
      ((&&_iff _ _).1 (tidy_b, tidy_cs), k_cs)

module _ (w : Weights) where
  total-remove : (b : Block) → total_block w (remove_empty_blocks b) ≡ total_block w b
  unfolding total_block remove_empty_blocks
  total-remove no_statement = refl
  total-remove (statement s b) = elim (Bool-cases (is_empty_block s)) [
    | inl empty ↦ rw empty (omega (arith, total-remove b, total-empty w s empty))
    | inr full ↦ rw full (omega (arith, total-remove b))
  ]

  total-moved :
      (s : Statement) (functions : Block)
      → total w (moved s functions).0 + total_block w (moved s functions).1
        ≡ total w s + total_block w functions
  unfolding moved total total_block
  total-moved (function_definition f ps rs b) functions =
      omega
        (arith, total-append w functions (statement (function_definition f ps rs b) no_statement))
  total-moved (block b) functions = refl
  total-moved (if_statement e b) functions = refl
  total-moved (switch e cs) functions = refl
  total-moved (for_loop pre e post b) functions = refl
  total-moved (instruction i) functions = refl
  total-moved (label n) functions = refl
  total-moved (stack_assignment n) functions = refl
  total-moved (assignment ns e) functions = refl
  total-moved (variable_declaration vs e) functions = refl
  total-moved (expression_statement e) functions = refl

  mutual
    unfolding hoist hoist_each hoist_cases total total_block total_cases

    total-hoist :
        (s : Statement) (functions : Block)
        → total w (hoist s functions).0 + total_block w (hoist s functions).1
          ≡ total w s + total_block w functions
    total-hoist (function_definition f ps rs b) functions =
        omega (arith, total-hoist_each b functions, total-remove (hoist_each b functions).0)
    total-hoist (if_statement e b) functions =
        omega (arith, total-hoist_each b functions, total-remove (hoist_each b functions).0)
    total-hoist (switch e cs) functions = omega (arith, total-hoist_cases cs functions)
    total-hoist (for_loop pre e post b) functions =
        let after_pre = (hoist_each pre functions).1 in
        let after_post = (hoist_each post after_pre).1 in
        omega (
          arith,
          total-hoist_each pre functions,
          total-remove (hoist_each pre functions).0,
          total-hoist_each post after_pre,
          total-remove (hoist_each post after_pre).0,
          total-hoist_each b after_post,
          total-remove (hoist_each b after_post).0,
        )
    total-hoist (block b) functions =
        omega (arith, total-hoist_each b functions, total-remove (hoist_each b functions).0)
    total-hoist (instruction i) functions = refl
    total-hoist (label n) functions = refl
    total-hoist (stack_assignment n) functions = refl
    total-hoist (assignment ns e) functions = refl
    total-hoist (variable_declaration vs e) functions = refl
    total-hoist (expression_statement e) functions = refl

    total-hoist_each :
        (b functions : Block)
        → total_block w (hoist_each b functions).0 + total_block w (hoist_each b functions).1
          ≡ total_block w b + total_block w functions
    total-hoist_each no_statement functions = refl
    total-hoist_each (statement s b) functions =
        let first = hoist s functions in
        omega (
          arith,
          total-hoist s functions,
          total-moved first.0 first.1,
          total-hoist_each b (moved first.0 first.1).1,
        )

    total-hoist_cases :
        (cs : Cases) (functions : Block)
        → total_cases w (hoist_cases cs functions).0 + total_block w (hoist_cases cs functions).1
          ≡ total_cases w cs + total_block w functions
    total-hoist_cases no_case functions = refl
    total-hoist_cases (case v b cs) functions = omega (
      arith,
      total-hoist_each b functions,
      total-remove (hoist_each b functions).0,
      total-hoist_cases cs (hoist_each b functions).1,
    )

  total-hoist_block : (b : Block) → total_block w (hoist_block b) ≡ total_block w b
  unfolding hoist_block total_block
  total-hoist_block b =
      let result = hoist_each b no_statement in
      omega (
        arith,
        total-append w (remove_empty_blocks result.0) result.1,
        total-remove result.0,
        total-hoist_each b no_statement,
      )

-- The two parts of the result.
pub hoist_block-parts :
    (b : Block)
    → (main : Block) × (functions : Block) × (hoist_block b ≡ append main functions)
      × (is_tidy main ≡ true)
      × (are_functions functions ≡ true)
unfolding hoist_block are_functions
hoist_block-parts b =
    let result = hoist_each b no_statement in
    let (swept, k) = each-Leaves b no_statement refl in
    (remove_empty_blocks result.0, result.1, refl, remove-is_tidy result.0 swept, k)

pub occurrences-hoist_block :
    (m : Name) (b : Block)
    → occurrences m (names_block (hoist_block b)) ≡ occurrences m (names_block b)
occurrences-hoist_block m b =
    names_block-total m (hoist_block b)
    ∙ total-hoist_block (name_weights m) b
    ∙ sym (names_block-total m b)

pub hoist_block-is_strict : (b : Block) → is_strict_block (hoist_block b) ≡ is_strict_block b
hoist_block-is_strict b =
    strict_block-total (hoist_block b)
    ∙ ap (λ n. n == 0) (total-hoist_block loose_weights b)
    ∙ sym (strict_block-total b)

-- A program without statements of loose assembly is hoisted without an exception. It is then made of
-- statements without functions, without empty blocks at any depth, and after them of functions, inside
-- of which there are none either; every name is defined as often and referred to as often as before.
pub hoist_program-is_tidy :
    (b : Block) (m : Name)
    → is_strict_block b ≡ true
    → (main : Block) × (functions : Block) × (hoist_program b ≡ ok (append main functions))
      × (is_tidy main ≡ true)
      × (are_functions functions ≡ true)
      × (occurrences m (names_block (append main functions)) ≡ occurrences m (names_block b))
      × (references_block m (append main functions) ≡ references_block m b)
hoist_program-is_tidy b m h =
    let (main, functions, e, tidy, k) = hoist_block-parts b in
    (
      main,
      functions,
      rw h (ap ok e),
      tidy,
      k,
      ap (λ c. occurrences m (names_block c)) (sym e) ∙ occurrences-hoist_block m b,
      ap (references_block m) (sym e)
          ∙ references_block-total m (hoist_block b)
          ∙ total-hoist_block (reference_weights m) b
          ∙ sym (references_block-total m b),
    )
