-- ===== src/Yul/UnusedPruner.antt =====
-- libyul/optimiser/UnusedPruner.h and UnusedPruner.cpp: functions and variables without references,
-- and expressions without effects, are removed.
pub mod Subtract
pub mod Safe
pub mod Walk
pub mod Ends
use lity.Prelude.{
  ℕ, zero, suc, ◌-◌, Bool, true, false, ◌&&◌, ◌||◌, ◌==◌, Option, none, some, List, [], ◌∷◌, length,
  Result, ok, err, ◌>>=◌, ◌>>◌, assert_throw, optimizer_exception, ltb, leb, if◌then◌else◌,
}
use lity.Evmasm.Opcode
use lity.Yul.Expression.{Name, Expression, functional_instruction, no_argument, argument}
use lity.Yul.Statement.{
  TypedName, Statement, instruction, label, stack_assignment, assignment, variable_declaration,
  expression_statement, function_definition, if_statement, switch, for_loop, block, Block,
  no_statement, statement, Cases, no_case, case, is_empty_block, is_strict_block,
}
use lity.Yul.Movable.{check}
use lity.Yul.ReferencesCounter.{
  References, count_of, has_key, set_count, increment_all, count, count_block,
}

-- `m_references` and `m_shouldRunAgain`
pub record UnusedPruner : Type 0 where
  pub references : References
  pub should_run_again : Bool

unfoldable pub used : UnusedPruner → Name → Bool
used p name = has_key p.references name && ltb 0 (count_of p.references name)

unfoldable pub any_used : UnusedPruner → List TypedName → Bool
any_used p [] = false
any_used p (v ∷ vs) = used p v.0 || any_used p vs

-- `subtractReferences`
unfoldable pub subtract_references : References → UnusedPruner → Result UnusedPruner
subtract_references [] p = ok p
subtract_references ((name, n) ∷ rest) p =
    assert_throw (has_key p.references name) optimizer_exception
    >> (assert_throw (leb n (count_of p.references name)) optimizer_exception
        >> subtract_references rest (record {
          references = set_count p.references name (count_of p.references name - n);
          should_run_again = true;
        }))

-- What the first loop makes of a statement: it stays, or it becomes another one.
pub data Fate : Type 0 where
  stays : Fate
  becomes : Statement → Fate

abbrev pub gone : Fate
gone = becomes (block no_statement)

-- A statement goes, and the references in it are subtracted.
unfoldable pub drop_counted : References → UnusedPruner → Result (Fate × UnusedPruner)
drop_counted counted p = subtract_references counted p >>= λ after. ok (gone, after)

-- A declaration of variables of which none is used.
unfoldable pub unused_declaration :
    List TypedName → Option Expression → UnusedPruner → Result (Fate × UnusedPruner)
unused_declaration vs none p = ok (gone, p)
unused_declaration vs (some e) p =
    if (check e).is_movable
    then drop_counted (count e []) p
    else if length vs == 1
    then ok (
      becomes (expression_statement (functional_instruction Opcode.pop (argument e no_argument))),
      p,
    )
    else ok (stays, p)

unfoldable pub fate : Statement → UnusedPruner → Result (Fate × UnusedPruner)
fate (function_definition f ps rs b) p =
    if used p f then ok (stays, p) else drop_counted (count_block b []) p
fate (variable_declaration vs e) p =
    if any_used p vs then ok (stays, p) else unused_declaration vs e p
fate (expression_statement e) p =
    if (check e).is_movable then drop_counted (count e []) p else ok (stays, p)
fate _ p = ok (stays, p)

unfoldable pub fates : Block → UnusedPruner → Result (List Fate × UnusedPruner)
fates no_statement p = ok ([], p)
fates (statement s b) p = fate s p >>= λ q. fates b q.1 >>= λ r. ok (q.0 ∷ r.0, r.1)

abbrev pub first_fate : List Fate → Fate
first_fate [] = stays
first_fate (f ∷ fs) = f

abbrev pub other_fates : List Fate → List Fate
other_fates [] = []
other_fates (f ∷ fs) = fs

-- `removeEmptyBlocks` on one statement, and what it becomes when the second loop comes to it.
unfoldable pub put_back : Bool → Statement → Block → Block
put_back true s rest = rest
put_back false s rest = statement s rest

-- A statement that became another one is an empty block or an expression, which the second loop leaves.
unfoldable pub settle :
    Fate
    → Statement
    → Result (Statement × UnusedPruner)
    → UnusedPruner
    → Result ((Block → Block) × UnusedPruner)
settle stays s walked p = walked >>= λ q. ok (put_back (is_empty_block s) q.0, q.1)
settle (becomes s') s walked p = ok (put_back (is_empty_block s') s', p)

-- `UnusedPruner::operator()` on what is inside a statement, and the second loop over the statements
-- that the first one has left.
unfoldable mutual
  pub prune : Statement → UnusedPruner → Result (Statement × UnusedPruner)
  prune (function_definition f ps rs b) p =
      fates b p >>= λ q. prune_each b q.0 q.1 >>= λ r. ok (function_definition f ps rs r.0, r.1)
  prune (if_statement e b) p =
      fates b p >>= λ q. prune_each b q.0 q.1 >>= λ r. ok (if_statement e r.0, r.1)
  prune (switch e cs) p = prune_cases cs p >>= λ r. ok (switch e r.0, r.1)
  prune (for_loop pre e post b) p = fates pre p >>= λ q. prune_each pre q.0 q.1 >>= λ r.
      fates post r.1 >>= λ q'. prune_each post q'.0 q'.1 >>= λ r'. fates b r'.1 >>= λ q''.
      prune_each b q''.0 q''.1 >>= λ r''. ok (for_loop r.0 e r'.0 r''.0, r''.1)
  prune (block b) p = fates b p >>= λ q. prune_each b q.0 q.1 >>= λ r. ok (block r.0, r.1)
  prune (instruction i) p = ok (instruction i, p)
  prune (label n) p = ok (label n, p)
  prune (stack_assignment n) p = ok (stack_assignment n, p)
  prune (assignment ns e) p = ok (assignment ns e, p)
  prune (variable_declaration vs e) p = ok (variable_declaration vs e, p)
  prune (expression_statement e) p = ok (expression_statement e, p)

  pub prune_each : Block → List Fate → UnusedPruner → Result (Block × UnusedPruner)
  prune_each no_statement fs p = ok (no_statement, p)
  prune_each (statement s b) fs p = settle (first_fate fs) s (prune s p) p >>= λ q.
      prune_each b (other_fates fs) q.1 >>= λ r. ok (q.0 r.0, r.1)

  pub prune_cases : Cases → UnusedPruner → Result (Cases × UnusedPruner)
  prune_cases no_case p = ok (no_case, p)
  prune_cases (case v b cs) p = fates b p >>= λ q.
      prune_each b q.0 q.1 >>= λ r. prune_cases cs r.1 >>= λ r'. ok (case v r.0 r'.0, r'.1)

unfoldable pub prune_block : Block → UnusedPruner → Result (Block × UnusedPruner)
prune_block b p = fates b p >>= λ q. prune_each b q.0 q.1

-- The constructor: the references, and one more for every function that is used from outside. The
-- walk of the counter throws on statements of loose assembly.
unfoldable pub unused_pruner : Block → List Name → Result UnusedPruner
unused_pruner ast externally_used =
    if is_strict_block ast
    then ok (record {
      references = increment_all (count_block ast []) externally_used;
      should_run_again = false;
    })
    else err optimizer_exception

-- `runUntilStabilised`, none if the fuel is not enough
unfoldable pub run_until_stabilised : ℕ → Block → List Name → Result (Option Block)
run_until_stabilised zero ast externally_used = ok none
run_until_stabilised (suc fuel) ast externally_used =
    unused_pruner ast externally_used >>= λ pruner. prune_block ast pruner >>= λ r.
    (if r.1.should_run_again then run_until_stabilised fuel r.0 externally_used else ok (some r.0))
