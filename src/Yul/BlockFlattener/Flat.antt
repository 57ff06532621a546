-- ===== src/Yul/BlockFlattener/Flat.antt =====
-- libyul/optimiser/BlockFlattener.cpp: no block stands directly in a block, and nothing else changes.
use lity.Prelude.{◌+◌, ◌≡◌, refl, sym, ap, ◌∙◌, Bool, true, false, ◌&&◌, not, ok, arith, &&_iff}
use lity.Yul.Expression.{Name}
use lity.Yul.Statement.{
  Statement, instruction, label, stack_assignment, assignment, variable_declaration,
  expression_statement, function_definition, if_statement, switch, for_loop, block, Block,
  no_statement, statement, Cases, no_case, case, append, is_strict_block,
}
use lity.Yul.Statement.Total.{Weights, total, total_block, total_cases, total-append}
use lity.Yul.NameCollector.{names_block, occurrences, references_block}
use lity.Yul.NameCollector.Totals.{
  reference_weights, name_weights, references_block-total, names_block-total,
}
use lity.Yul.BlockFlattener.{
  spliced, splice, flatten, flatten_each, flatten_cases, flatten_program, flatten_block,
}

unfoldable pub is_block : Statement → Bool
is_block (block b) = true
is_block _ = false

-- No block stands directly in a block, at any depth.
unfoldable mutual
  pub is_flat_inside : Statement → Bool
  is_flat_inside (function_definition f ps rs b) = is_flat b
  is_flat_inside (if_statement e b) = is_flat b
  is_flat_inside (switch e cs) = is_flat_cases cs
  is_flat_inside (for_loop pre e post b) = is_flat pre && (is_flat post && is_flat b)
  is_flat_inside (block b) = is_flat b
  is_flat_inside _ = true

  pub is_flat : Block → Bool
  is_flat no_statement = true
  is_flat (statement s c) = not (is_block s) && (is_flat_inside s && is_flat c)

  pub is_flat_cases : Cases → Bool
  is_flat_cases no_case = true
  is_flat_cases (case v b cs) = is_flat b && is_flat_cases cs

is_flat-append : (b c : Block) → is_flat b ≡ true → is_flat c ≡ true → is_flat (append b c) ≡ true
unfolding is_flat append
is_flat-append no_statement c h k = k
is_flat-append (statement s b) c h k =
    let (apart, later) = (&&_iff (not (is_block s)) (is_flat_inside s && is_flat b)).0 h in
    let (inside, rest) = (&&_iff (is_flat_inside s) (is_flat b)).0 later in
    rw (apart, inside, is_flat-append b c rest k) refl

is_flat-spliced :
    (s : Statement) (c : Block)
    → is_flat_inside s ≡ true
    → is_flat c ≡ true
    → is_flat (spliced s c) ≡ true
unfolding is_flat is_flat_inside spliced is_block
is_flat-spliced (block b) c h k = is_flat-append b c h k
is_flat-spliced (instruction i) c h k = k
is_flat-spliced (label n) c h k = k
is_flat-spliced (stack_assignment n) c h k = k
is_flat-spliced (assignment ns e) c h k = k
is_flat-spliced (variable_declaration vs e) c h k = k
is_flat-spliced (expression_statement e) c h k = k
is_flat-spliced (function_definition f ps rs d) c h k = rw (h, k) refl
is_flat-spliced (if_statement e d) c h k = rw (h, k) refl
is_flat-spliced (switch e cs) c h k = rw (h, k) refl
is_flat-spliced (for_loop pre e post d) c h k = rw (h, k) refl

mutual
  unfolding flatten flatten_each flatten_cases is_flat_inside is_flat is_flat_cases splice

  flatten-is_flat : (s : Statement) → is_flat_inside (flatten s) ≡ true
  flatten-is_flat (function_definition f ps rs b) = flatten_each-is_flat b
  flatten-is_flat (if_statement e b) = flatten_each-is_flat b
  flatten-is_flat (switch e cs) = flatten_cases-is_flat cs
  flatten-is_flat (for_loop pre e post b) =
      rw (flatten_each-is_flat pre, flatten_each-is_flat post, flatten_each-is_flat b) refl
  flatten-is_flat (block b) = flatten_each-is_flat b
  flatten-is_flat (instruction i) = refl
  flatten-is_flat (label n) = refl
  flatten-is_flat (stack_assignment n) = refl
  flatten-is_flat (assignment ns e) = refl
  flatten-is_flat (variable_declaration vs e) = refl
  flatten-is_flat (expression_statement e) = refl

  flatten_each-is_flat : (b : Block) → is_flat (splice (flatten_each b)) ≡ true
  flatten_each-is_flat no_statement = refl
  flatten_each-is_flat (statement s b) =
      is_flat-spliced (flatten s) (splice (flatten_each b)) (flatten-is_flat s)
        (flatten_each-is_flat b)

  flatten_cases-is_flat : (cs : Cases) → is_flat_cases (flatten_cases cs) ≡ true
  flatten_cases-is_flat no_case = refl
  flatten_cases-is_flat (case v b cs) = rw (flatten_each-is_flat b, flatten_cases-is_flat cs) refl

opposite : (x : Bool) → not x ≡ true → x ≡ false
opposite x h = ground arith

-- What is flat stays as it is.
module _ where
  spliced_same : (s : Statement) (c : Block) → is_block s ≡ false → spliced s c ≡ statement s c
  unfolding spliced is_block
  spliced_same (block b) c h = absurd (ground arith)
  spliced_same (instruction i) c h = refl
  spliced_same (label n) c h = refl
  spliced_same (stack_assignment n) c h = refl
  spliced_same (assignment ns e) c h = refl
  spliced_same (variable_declaration vs e) c h = refl
  spliced_same (expression_statement e) c h = refl
  spliced_same (function_definition f ps rs d) c h = refl
  spliced_same (if_statement e d) c h = refl
  spliced_same (switch e cs) c h = refl
  spliced_same (for_loop pre e post d) c h = refl

  mutual
    unfolding flatten flatten_each flatten_cases is_flat_inside is_flat is_flat_cases splice

    flatten_same : (s : Statement) → is_flat_inside s ≡ true → flatten s ≡ s
    flatten_same (function_definition f ps rs b) h =
        ap (function_definition f ps rs) (flatten_each_same b h)
    flatten_same (if_statement e b) h = ap (if_statement e) (flatten_each_same b h)
    flatten_same (switch e cs) h = ap (switch e) (flatten_cases_same cs h)
    flatten_same (for_loop pre e post b) h =
        let (h_pre, h_rest) = (&&_iff (is_flat pre) (is_flat post && is_flat b)).0 h in
        let (h_post, h_b) = (&&_iff (is_flat post) (is_flat b)).0 h_rest in
        ap (λ x. for_loop x e (splice (flatten_each post)) (splice (flatten_each b)))
          (flatten_each_same pre h_pre)
        ∙ ap (λ x. for_loop pre e x (splice (flatten_each b))) (flatten_each_same post h_post)
        ∙ ap (for_loop pre e post) (flatten_each_same b h_b)
    flatten_same (block b) h = ap block (flatten_each_same b h)
    flatten_same (instruction i) h = refl
    flatten_same (label n) h = refl
    flatten_same (stack_assignment n) h = refl
    flatten_same (assignment ns e) h = refl
    flatten_same (variable_declaration vs e) h = refl
    flatten_same (expression_statement e) h = refl

    flatten_each_same : (b : Block) → is_flat b ≡ true → splice (flatten_each b) ≡ b
    flatten_each_same no_statement h = refl
    flatten_each_same (statement s b) h =
        let (apart, later) = (&&_iff (not (is_block s)) (is_flat_inside s && is_flat b)).0 h in
        let (inside, rest) = (&&_iff (is_flat_inside s) (is_flat b)).0 later in
        ap (λ x. spliced x (splice (flatten_each b))) (flatten_same s inside)
        ∙ ap (spliced s) (flatten_each_same b rest)
        ∙ spliced_same s b (opposite (is_block s) apart)

    flatten_cases_same : (cs : Cases) → is_flat_cases cs ≡ true → flatten_cases cs ≡ cs
    flatten_cases_same no_case h = refl
    flatten_cases_same (case v b cs) h =
        let (h_b, h_cs) = (&&_iff (is_flat b) (is_flat_cases cs)).0 h in
        ap (λ x. case v x (flatten_cases cs)) (flatten_each_same b h_b)
        ∙ ap (case v b) (flatten_cases_same cs h_cs)

module _ (w : Weights) where
  total-spliced :
      (s : Statement) (c : Block) → total_block w (spliced s c) ≡ total w s + total_block w c
  unfolding spliced total total_block
  total-spliced (block b) c = total-append w b c
  total-spliced (instruction i) c = refl
  total-spliced (label n) c = refl
  total-spliced (stack_assignment n) c = refl
  total-spliced (assignment ns e) c = refl
  total-spliced (variable_declaration vs e) c = refl
  total-spliced (expression_statement e) c = refl
  total-spliced (function_definition f ps rs d) c = refl
  total-spliced (if_statement e d) c = refl
  total-spliced (switch e cs) c = refl
  total-spliced (for_loop pre e post d) c = refl

  mutual
    unfolding flatten flatten_each flatten_cases splice total total_block total_cases

    total-flatten : (s : Statement) → total w (flatten s) ≡ total w s
    total-flatten (function_definition f ps rs b) = omega (arith, total-flatten_each b)
    total-flatten (if_statement e b) = omega (arith, total-flatten_each b)
    total-flatten (switch e cs) = omega (arith, total-flatten_cases cs)
    total-flatten (for_loop pre e post b) =
        omega (arith, total-flatten_each pre, total-flatten_each post, total-flatten_each b)
    total-flatten (block b) = total-flatten_each b
    total-flatten (instruction i) = refl
    total-flatten (label n) = refl
    total-flatten (stack_assignment n) = refl
    total-flatten (assignment ns e) = refl
    total-flatten (variable_declaration vs e) = refl
    total-flatten (expression_statement e) = refl

    total-flatten_each : (b : Block) → total_block w (splice (flatten_each b)) ≡ total_block w b
    total-flatten_each no_statement = refl
    total-flatten_each (statement s b) = omega (
      arith,
      total-spliced (flatten s) (splice (flatten_each b)),
      total-flatten s,
      total-flatten_each b,
    )

    total-flatten_cases : (cs : Cases) → total_cases w (flatten_cases cs) ≡ total_cases w cs
    total-flatten_cases no_case = refl
    total-flatten_cases (case v b cs) = omega (arith, total-flatten_each b, total-flatten_cases cs)

-- A program without statements of loose assembly is flattened without an exception. No block stands
-- directly in a block afterwards, and flattening again changes nothing; every name is defined as often
-- and referred to as often as before.
pub flatten_program-is_flat :
    (b : Block) (m : Name)
    → is_strict_block b ≡ true
    → (c : Block) × (flatten_program b ≡ ok c)
      × (is_flat c ≡ true)
      × (flatten_block c ≡ c)
      × (occurrences m (names_block c) ≡ occurrences m (names_block b))
      × (references_block m c ≡ references_block m b)
flatten_program-is_flat b m h =
    let flat = flatten_each-is_flat b in
    let w = name_weights m in
    let r = reference_weights m in
    (
      flatten_block b,
      rw h refl,
      flat,
      flatten_each_same (flatten_block b) flat,
      names_block-total m (flatten_block b) ∙ total-flatten_each w b ∙ sym (names_block-total m b),
      references_block-total m (flatten_block b)
          ∙ total-flatten_each r b
          ∙ sym (references_block-total m b),
    )
