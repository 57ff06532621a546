-- ===== src/Yul/UnusedPruner/Ends.antt =====
-- libyul/optimiser/UnusedPruner.cpp: no exception is thrown, and the iteration ends.
use lity.Prelude.{
  ℕ, zero, suc, ◌+◌, ◌≤◌, ◌<◌, ◌≡◌, refl, sym, ◌∙◌, Bool, true, false, ◌==◌, some, List, [], ok,
  ◌>>=◌, if◌then◌else◌, Bool-cases, inl, inr, arith,
}
use lity.Yul.Expression.{Name}
use lity.Yul.Statement.{Block, is_strict_block}
use lity.Yul.Statement.Total.{total_block, loose_weights, strict_block-total}
use lity.Yul.NameCollector.{references_block, occurrences}
use lity.Yul.NameCollector.Totals.{references_block-total}
use lity.Yul.ReferencesCounter.{count_of, count_block, increment_all}
use lity.Yul.ReferencesCounter.Counts.{count_of-block, count_of-increment_all}
use lity.Yul.UnusedPruner.{UnusedPruner, prune_block, unused_pruner, run_until_stabilised}
use lity.Yul.UnusedPruner.Subtract.{no_entry}
use lity.Yul.UnusedPruner.Safe.{step_weights, flag, HasEnough, Accounts, after_ok}
use lity.Yul.UnusedPruner.Walk.{block_sums, prune_block-Prunes}

-- The pruner at the start has the references of the program and those from outside.
start : Block → List Name → UnusedPruner
start b externally_used = record {
  references = increment_all (count_block b []) externally_used;
  should_run_again = false;
}

start-count :
    (b : Block) (externally_used : List Name) (m : Name)
    → count_of (start b externally_used).references m
      ≡ references_block m b + occurrences m externally_used
unfolding start
start-count b externally_used m = omega (
  arith,
  count_of-increment_all m (count_block b []) externally_used,
  count_of-block m b [],
  no_entry m,
)

start-HasEnough :
    (b : Block) (externally_used : List Name) → HasEnough (block_sums b) (start b externally_used)
start-HasEnough b externally_used = record {
  enough = λ m. omega (arith, start-count b externally_used m, references_block-total m b);
}

unused_pruner-start :
    (b : Block) (externally_used : List Name)
    → is_strict_block b ≡ true
    → unused_pruner b externally_used ≡ ok (start b externally_used)
unfolding unused_pruner start
unused_pruner-start b externally_used h = rw h refl

-- On a program without statements of loose assembly, the pruner throws no exception: it never subtracts
-- references that it does not have. Afterwards it has for each name the references that are left in the
-- program, and those from outside.
pub prune_block-count :
    (b : Block) (externally_used : List Name) (m : Name)
    → is_strict_block b ≡ true
    → (c : Block) × (p : UnusedPruner) × ((unused_pruner b externally_used >>= prune_block b)
        ≡ ok (c, p))
      × (count_of p.references m ≡ references_block m c + occurrences m externally_used)
prune_block-count b externally_used m h =
    let p = start b externally_used in
    let (c, q, e, x) = prune_block-Prunes b p (start-HasEnough b externally_used) in
    (
      c,
      q,
      after_ok (prune_block b) (unused_pruner-start b externally_used h) e,
      omega (
        arith,
        x.counts m,
        start-count b externally_used m,
        references_block-total m b,
        references_block-total m c,
      ),
    )

still_strict :
    (b c : Block) {p q : UnusedPruner}
    → Accounts (block_sums b) (block_sums c) p q
    → is_strict_block b ≡ true
    → is_strict_block c ≡ true
still_strict b c x h =
    strict_block-total c
    ∙ zero_below (total_block loose_weights b) (total_block loose_weights c) x.loose
        (sym (strict_block-total b) ∙ h)
  where
    zero_below : (m n : ℕ) → n ≤ m → (m == 0) ≡ true → (n == 0) ≡ true
    zero_below m n le h = ground arith

-- A program without statements of loose assembly is pruned again and again without an exception, but at
-- most as often as it has steps, and once more: the result is that of a run after which the pruner
-- need not run again.
pub run_until_stabilised-ends :
    (fuel : ℕ) (b : Block) (externally_used : List Name)
    → is_strict_block b ≡ true
    → total_block step_weights b < fuel
    → (c : Block) × (d : Block) × (p : UnusedPruner) × (run_until_stabilised fuel b externally_used
        ≡ ok (some c))
      × ((unused_pruner d externally_used >>= prune_block d) ≡ ok (c, p))
      × (p.should_run_again ≡ false)
unfolding run_until_stabilised start
run_until_stabilised-ends zero b externally_used h below = absurd (omega arith)
run_until_stabilised-ends (suc fuel) b externally_used h below =
    let (c, q, e, x) =
      prune_block-Prunes b (start b externally_used) (start-HasEnough b externally_used) in
    let run = λ (r : Block × UnusedPruner).
      (if r.1.should_run_again
        then run_until_stabilised fuel r.0 externally_used
        else ok (some r.0)) in
    let started = unused_pruner-start b externally_used h in
    elim (Bool-cases q.should_run_again) [
      | inl again ↦
          let (c', d, p, e', e'', stop) =
            run_until_stabilised-ends fuel c externally_used (still_strict b c x h) (
              fewer q.should_run_again (total_block step_weights b) (total_block step_weights c)
                fuel again x.steps below) in
          (
            c',
            d,
            p,
            after_ok (λ pruner. prune_block b pruner >>= run) started
                (after_ok run e (rw again e')),
            e'',
            stop,
          )
      | inr stop ↦ (
        c,
        b,
        q,
        after_ok (λ pruner. prune_block b pruner >>= run) started (after_ok run e (rw stop refl)),
        after_ok (prune_block b) started e,
        stop,
      )
    ]
  where
    fewer :
        (again : Bool) (m n fuel : ℕ)
        → again ≡ true
        → flag again + n ≤ 0 + m
        → m < suc fuel
        → n < fuel
    fewer true m n fuel h le below = omega arith
    fewer false m n fuel h le below = absurd (ground arith)
