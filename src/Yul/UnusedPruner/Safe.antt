-- ===== src/Yul/UnusedPruner/Safe.antt =====
-- libyul/optimiser/UnusedPruner.cpp: the references that are left are those that are counted, so that
-- no assertion fails.
use lity.Prelude.{
  ℕ, ◌+◌, ◌≤◌, ◌≡◌, refl, ap, ◌∙◌, Bool, true, false, ◌==◌, Option, none, some, List, [], ◌∷◌,
  length, Result, ok, ◌>>=◌, Bool-cases, inl, inr, arith,
}
use lity.Evmasm.Opcode
use lity.Yul.Expression.{Name, Expression, functional_instruction, no_argument, argument}
use lity.Yul.Movable.{check}
use lity.Yul.Statement.{
  TypedName, Statement, instruction, label, stack_assignment, assignment, variable_declaration,
  expression_statement, function_definition, if_statement, switch, for_loop, block, Block,
  no_statement, statement,
}
use lity.Yul.Statement.Total.{Weights, total, total_block, loose_weights}
use lity.Yul.NameCollector.{references_in, references_each}
use lity.Yul.NameCollector.Totals.{reference_weights, references_block-total}
use lity.Yul.ReferencesCounter.{References, count_of, count, count_block}
use lity.Yul.ReferencesCounter.Counts.{count_of-count, count_of-block}
use lity.Yul.ReferencesCounter.Keys.{is_proper, is_proper-count, is_proper-block}
use lity.Yul.UnusedPruner.{
  UnusedPruner, used, any_used, Fate, stays, becomes, gone, drop_counted, unused_declaration, fate,
  fates, first_fate, other_fates,
}
use lity.Yul.UnusedPruner.Subtract.{subtract_references-count, no_entry}

-- What an unused statement counts for the iteration: a declaration that becomes an expression counts
-- less than before.
unfoldable pub step_weights : Weights
step_weights = record {
  of_loose = 0;
  of_expression = λ e. 1;
  of_assigned = λ ns. 0;
  of_declared = λ vs e. 2;
  of_function = λ f ps rs. 1;
}

abbrev pub flag : Bool → ℕ
flag true = 1
flag false = 0

-- Sums over the code, by the weights.
abbrev pub Sums : Type 0
Sums = Weights → ℕ

-- The pruner has at least the references of the code.
pub record HasEnough (code : Sums) (p : UnusedPruner) : Type 0 where
  pub enough : (m : Name) → code (reference_weights m) ≤ count_of p.references m

-- As many references are subtracted as have gone from the code, and if the pruner is to run again,
-- there are fewer steps left, unless it was to run again before. No statement of loose assembly is added.
pub record Accounts (before after : Sums) (p q : UnusedPruner) : Type 0 where
  pub counts :
      (m : Name)
      → after (reference_weights m) + count_of p.references m
        ≡ before (reference_weights m) + count_of q.references m
  pub steps :
      flag q.should_run_again + after step_weights ≤ flag p.should_run_again + before step_weights
  pub loose : after loose_weights ≤ before loose_weights

pub Accounts-same : (code : Sums) (p : UnusedPruner) → Accounts code code p p
Accounts-same code p = record { counts = λ m. refl; steps = omega arith; loose = omega arith }

pub Accounts-then :
    {a b c : Sums} {p q r : UnusedPruner} → Accounts a b p q → Accounts b c q r → Accounts a c p r
Accounts-then x y = record {
  counts = λ m. omega (arith, x.counts m, y.counts m);
  steps = omega (arith, x.steps, y.steps);
  loose = omega (arith, x.loose, y.loose);
}

pub Accounts-beside :
    {a b c d : Sums} {p q r : UnusedPruner}
    → Accounts a b p q
    → Accounts c d q r
    → Accounts (λ w. a w + c w) (λ w. b w + d w) p r
Accounts-beside x y = record {
  counts = λ m. omega (arith, x.counts m, y.counts m);
  steps = omega (arith, x.steps, y.steps);
  loose = omega (arith, x.loose, y.loose);
}

pub HasEnough-then :
    {a b : Sums} {p q : UnusedPruner} → HasEnough a p → Accounts a b p q → HasEnough b q
HasEnough-then h x = record { enough = λ m. omega (arith, h.enough m, x.counts m) }

pub HasEnough-beside :
    {a b : Sums} (c : Sums) {p q : UnusedPruner}
    → HasEnough (λ w. a w + c w) p
    → Accounts a b p q
    → HasEnough c q
HasEnough-beside c h x = record { enough = λ m. omega (arith, h.enough m, x.counts m) }

pub HasEnough-left : (a c : Sums) {p : UnusedPruner} → HasEnough (λ w. a w + c w) p → HasEnough a p
HasEnough-left a c h = record { enough = λ m. omega (arith, h.enough m) }

-- A computation ends without an exception, and accounts for what it changes.
abbrev pub Prunes :
    {A : Type 0} → (A → Sums) → Sums → UnusedPruner → Result (A × UnusedPruner) → Type 0
Prunes {A} sums before p result =
    (a : A) × (q : UnusedPruner) × (result ≡ ok (a, q)) × Accounts before (sums a) p q

abbrev pub outcome : Fate → Statement → Statement
outcome stays s = s
outcome (becomes s') s = s'

unfoldable pub outcomes : List Fate → Block → Block
outcomes fs no_statement = no_statement
outcomes fs (statement s b) = statement (outcome (first_fate fs) s) (outcomes (other_fates fs) b)

abbrev fate_sums : Statement → Fate → Sums
fate_sums s f w = total w (outcome f s)

stays-Prunes :
    (s : Statement) (p : UnusedPruner) → Prunes (fate_sums s) (λ w. total w s) p (ok (stays, p))
stays-Prunes s p = (stays, p, refl, Accounts-same (λ w. total w s) p)

-- A statement goes that counts at least one step and has the references that are counted.
dropped-Prunes :
    (s : Statement) (entries : References) (p : UnusedPruner)
    → is_proper entries ≡ true
    → ((m : Name) → count_of entries m ≡ total (reference_weights m) s)
    → 1 ≤ total step_weights s
    → HasEnough (λ w. total w s) p
    → Prunes (fate_sums s) (λ w. total w s) p (drop_counted entries p)
unfolding drop_counted total total_block
dropped-Prunes s entries p proper counts large h =
    let (q, e, left) =
      subtract_references-count entries p proper (λ m. omega (arith, counts m, h.enough m)) in
    (
      gone,
      q,
      ap (λ r. r >>= λ after. ok (gone, after)) e,
      record {
        counts = λ m. omega (arith, left m, counts m);
        steps = at_most_one q.should_run_again p.should_run_again (total step_weights s) large;
        loose = omega arith;
      },
    )
  where
    at_most_one : (b c : Bool) (n : ℕ) → 1 ≤ n → flag b + 0 ≤ flag c + n
    at_most_one true c n h = omega arith
    at_most_one false c n h = omega arith

expression_counted : (e : Expression) (m : Name) → count_of (count e []) m ≡ references_in m e
expression_counted e m = omega (arith, count_of-count m e [], no_entry m)

block_counted :
    (b : Block) (m : Name) → count_of (count_block b []) m ≡ total_block (reference_weights m) b
block_counted b m = omega (arith, count_of-block m b [], no_entry m, references_block-total m b)

unused_declaration-Prunes :
    (vs : List TypedName) (e : Option Expression) (p : UnusedPruner)
    → HasEnough (λ w. total w (variable_declaration vs e)) p
    → Prunes
        (fate_sums (variable_declaration vs e))
        (λ w. total w (variable_declaration vs e))
        p
        (unused_declaration vs e p)
unfolding unused_declaration total total_block reference_weights step_weights loose_weights
    references_in references_each is_proper
unused_declaration-Prunes vs none p h =
    (gone, p, refl, record { counts = λ m. refl; steps = omega arith; loose = omega arith })
unused_declaration-Prunes vs (some e) p h = elim (Bool-cases (check e).is_movable) [
  | inl movable ↦ rw movable (
      dropped-Prunes (variable_declaration vs (some e)) (count e []) p (is_proper-count e [] refl)
        (expression_counted e) (omega arith) h)
  | inr not_movable ↦ elim (Bool-cases (length vs == 1)) [
    | inl single ↦
        rw (not_movable, single)
          (
            becomes
                (expression_statement (functional_instruction Opcode.pop (argument e no_argument))),
            p,
            refl,
            record { counts = λ m. omega arith; steps = omega arith; loose = omega arith },
          )
    | inr several ↦ rw (not_movable, several) (stays-Prunes (variable_declaration vs (some e)) p)
  ]
]

fate-Prunes :
    (s : Statement) (p : UnusedPruner)
    → HasEnough (λ w. total w s) p
    → Prunes (fate_sums s) (λ w. total w s) p (fate s p)
unfolding fate total reference_weights step_weights is_proper
fate-Prunes (function_definition f ps rs b) p h = elim (Bool-cases (used p f)) [
  | inl is_used ↦ rw is_used (stays-Prunes (function_definition f ps rs b) p)
  | inr unused ↦ rw unused (
      dropped-Prunes (function_definition f ps rs b) (count_block b []) p
        (is_proper-block b [] refl) (λ m. omega (arith, block_counted b m)) (omega arith) h)
]
fate-Prunes (variable_declaration vs e) p h = elim (Bool-cases (any_used p vs)) [
  | inl is_used ↦ rw is_used (stays-Prunes (variable_declaration vs e) p)
  | inr unused ↦ rw unused (unused_declaration-Prunes vs e p h)
]
fate-Prunes (expression_statement e) p h = elim (Bool-cases (check e).is_movable) [
  | inl movable ↦ rw movable (
      dropped-Prunes (expression_statement e) (count e []) p (is_proper-count e [] refl)
        (expression_counted e) (omega arith) h)
  | inr not_movable ↦ rw not_movable (stays-Prunes (expression_statement e) p)
]
fate-Prunes (instruction i) p h = stays-Prunes (instruction i) p
fate-Prunes (label n) p h = stays-Prunes (label n) p
fate-Prunes (stack_assignment n) p h = stays-Prunes (stack_assignment n) p
fate-Prunes (assignment ns e) p h = stays-Prunes (assignment ns e) p
fate-Prunes (if_statement e b) p h = stays-Prunes (if_statement e b) p
fate-Prunes (switch e cs) p h = stays-Prunes (switch e cs) p
fate-Prunes (for_loop pre e post b) p h = stays-Prunes (for_loop pre e post b) p
fate-Prunes (block b) p h = stays-Prunes (block b) p

-- One computation after another.
pub after_ok :
    {A B : Type 0} {r : Result A} {a : A} (next : A → Result B) {b : Result B}
    → r ≡ ok a
    → next a ≡ b
    → (r >>= next) ≡ b
after_ok next e h = ap (λ x. x >>= next) e ∙ h

abbrev pub outcome_sums : Block → List Fate → Sums
outcome_sums b fs w = total_block w (outcomes fs b)

pub fates-Prunes :
    (b : Block) (p : UnusedPruner)
    → HasEnough (λ w. total_block w b) p
    → Prunes (outcome_sums b) (λ w. total_block w b) p (fates b p)
unfolding fates outcomes total_block
fates-Prunes no_statement p h = ([], p, refl, Accounts-same (λ w. 0) p)
fates-Prunes (statement s b) p h =
    let (f, q, e, x) = fate-Prunes s p (HasEnough-left (λ w. total w s) (λ w. total_block w b) h) in
    let (fs, r, e', y) = fates-Prunes b q (HasEnough-beside (λ w. total_block w b) h x) in
    (f ∷ fs, r, after_ok _ e (after_ok _ e' refl), Accounts-beside x y)
