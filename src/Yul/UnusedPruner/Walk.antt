-- ===== src/Yul/UnusedPruner/Walk.antt =====
-- libyul/optimiser/UnusedPruner.cpp: the walk over the whole program accounts for what it removes.
use lity.Prelude.{
  ◌+◌, ◌≡◌, refl, ap, ◌∙◌, true, false, List, [], ◌∷◌, Result, ok, ◌>>=◌, Bool-cases, inl, inr,
  arith,
}
use lity.Yul.Expression.{Expression}
use lity.Yul.Statement.{
  Statement, instruction, label, stack_assignment, assignment, variable_declaration,
  expression_statement, function_definition, if_statement, switch, for_loop, block, Block,
  no_statement, statement, Cases, no_case, case, is_empty_block,
}
use lity.Yul.Statement.Total.{Weights, total, total_block, total_cases, total-empty, loose_weights}
use lity.Yul.NameCollector.Totals.{reference_weights}
use lity.Yul.UnusedPruner.{
  UnusedPruner, Fate, stays, becomes, fates, put_back, settle, prune, prune_each, prune_cases,
  prune_block,
}
use lity.Yul.UnusedPruner.Safe.{
  step_weights, Sums, HasEnough, Accounts, Accounts-same, Accounts-then, Accounts-beside,
  HasEnough-then, HasEnough-beside, HasEnough-left, Prunes, outcome, outcomes, outcome_sums,
  after_ok, fates-Prunes,
}

-- What a statement becomes in the second loop, and what is left of it.
abbrev Settles : Fate → Statement → Result (Statement × UnusedPruner) → UnusedPruner → Type 0
Settles f s walked p =
    (put : Block → Block) × (q : UnusedPruner) × (after : Sums) × (settle f s walked p
      ≡ ok (put, q))
    × ((w : Weights) (rest : Block) → total_block w (put rest) ≡ after w + total_block w rest)
    × Accounts (λ w. total w (outcome f s)) after p q

put_back-total :
    (w : Weights) (s : Statement) (b : Block)
    → total_block w (put_back false s b) ≡ total w s + total_block w b
unfolding put_back total_block
put_back-total w s b = refl

put_back-empty :
    (w : Weights) (s : Statement) (b : Block)
    → total w s ≡ 0
    → total_block w (put_back true s b) ≡ total w s + total_block w b
unfolding put_back
put_back-empty w s b h = omega (arith, h)

prune_empty : (s : Statement) (p : UnusedPruner) → is_empty_block s ≡ true → prune s p ≡ ok (s, p)
unfolding prune prune_each fates is_empty_block
prune_empty (block no_statement) p h = refl
prune_empty (block (statement s b)) p h = absurd (ground arith)
prune_empty (function_definition f ps rs b) p h = absurd (ground arith)
prune_empty (if_statement e b) p h = absurd (ground arith)
prune_empty (switch e cs) p h = absurd (ground arith)
prune_empty (for_loop pre e post b) p h = absurd (ground arith)
prune_empty (instruction i) p h = refl
prune_empty (label n) p h = refl
prune_empty (stack_assignment n) p h = refl
prune_empty (assignment ns e) p h = refl
prune_empty (variable_declaration vs e) p h = refl
prune_empty (expression_statement e) p h = refl

settle_becomes :
    (s s' : Statement) (walked : Result (Statement × UnusedPruner)) (p : UnusedPruner)
    → Settles (becomes s') s walked p
unfolding settle
settle_becomes s s' walked p = (
  put_back (is_empty_block s') s',
  p,
  (λ w. total w s'),
  refl,
  (λ w rest. left w rest),
  Accounts-same (λ w. total w s') p,
)
  where
    left :
        (w : Weights) (rest : Block)
        → total_block w (put_back (is_empty_block s') s' rest) ≡ total w s' + total_block w rest
    left w rest = elim (Bool-cases (is_empty_block s')) [
      | inl empty ↦ rw empty (put_back-empty w s' rest (total-empty w s' empty))
      | inr full ↦ rw full (put_back-total w s' rest)
    ]

settle_stays :
    (s : Statement) (p : UnusedPruner)
    → (s' : Statement) (q : UnusedPruner) → prune s p ≡ ok (s', q)
    → Accounts (λ w. total w s) (λ w. total w s') p q
    → Settles stays s (prune s p) p
unfolding settle
settle_stays s p s' q e x = elim (Bool-cases (is_empty_block s)) [
  | inl empty ↦ (
    put_back true s,
    p,
    (λ w. total w s),
    ap (λ r. r >>= λ q. ok (put_back (is_empty_block s) q.0, q.1)) (prune_empty s p empty)
        ∙ ap (λ b. ok (put_back b s, p)) empty,
    (λ w rest. put_back-empty w s rest (total-empty w s empty)),
    Accounts-same (λ w. total w s) p,
  )
  | inr full ↦ (
    put_back false s',
    q,
    (λ w. total w s'),
    ap (λ r. r >>= λ q. ok (put_back (is_empty_block s) q.0, q.1)) e
        ∙ ap (λ b. ok (put_back b s', q)) full,
    (λ w rest. put_back-total w s' rest),
    x,
  )
]

-- The code that a result stands for.
abbrev statement_sums : Statement → Sums
statement_sums s w = total w s

abbrev pub block_sums : Block → Sums
block_sums b w = total_block w b

abbrev cases_sums : Cases → Sums
cases_sums cs w = total_cases w cs

-- The first statement is settled, and then the others.
settled-Prunes :
    (f : Fate) (s : Statement) (walked : Result (Statement × UnusedPruner)) (b : Block)
    (fs : List Fate) (p : UnusedPruner)
    → (x : Settles f s walked p) → Prunes block_sums (outcome_sums b fs) x.1 (prune_each b fs x.1)
    → Prunes block_sums
        (λ w. total w (outcome f s) + outcome_sums b fs w)
        p
        (settle f s walked p >>= λ q. prune_each b fs q.1 >>= λ r. ok (q.0 r.0, r.1))
settled-Prunes f s walked b fs p (put, q, after, e, sums, x) (c, r, e', y) = (
  put c,
  r,
  after_ok (λ q. prune_each b fs q.1 >>= λ r. ok (q.0 r.0, r.1)) e
      (after_ok (λ r. ok (put r.0, r.1)) e' refl),
  record {
    counts = λ m. omega (arith, sums (reference_weights m) c, x.counts m, y.counts m);
    steps = omega (arith, sums step_weights c, x.steps, y.steps);
    loose = omega (arith, sums loose_weights c, x.loose, y.loose);
  },
)

-- The two loops over a block.
abbrev Loops : Block → UnusedPruner → Type 0
Loops b p =
    (fs : List Fate) × (q : UnusedPruner) × (c : Block) × (r : UnusedPruner) × (fates b p
      ≡ ok (fs, q))
    × (prune_each b fs q ≡ ok (c, r))
    × Accounts (block_sums b) (block_sums c) p r

both-Loops :
    (b : Block) (p : UnusedPruner)
    → HasEnough (block_sums b) p
    → ((fs : List Fate) (q : UnusedPruner)
        → HasEnough (outcome_sums b fs) q
        → Prunes block_sums (outcome_sums b fs) q (prune_each b fs q))
    → Loops b p
both-Loops b p h each =
    let (fs, q, e, x) = fates-Prunes b p h in
    let (c, r, e', y) = each fs q (HasEnough-then h x) in (fs, q, c, r, e, e', Accounts-then x y)

Loops-then :
    {A : Type 0} (b : Block) (p : UnusedPruner) (next : Block × UnusedPruner → Result A)
    → (x : Loops b p) → (fates b p >>= λ q. prune_each b q.0 q.1 >>= next) ≡ next (x.2, x.3)
Loops-then b p next (fs, q, c, r, e, e', account) =
    after_ok (λ q. prune_each b q.0 q.1 >>= next) e (after_ok next e' refl)

HasEnough-right : (a c : Sums) {p : UnusedPruner} → HasEnough (λ w. a w + c w) p → HasEnough c p
HasEnough-right a c h = record { enough = λ m. omega (arith, h.enough m) }

HasEnough-block :
    (b : Block) {p : UnusedPruner}
    → HasEnough (statement_sums (block b)) p
    → HasEnough (block_sums b) p
unfolding total
HasEnough-block b h = record { enough = h.enough }

Accounts-block :
    (b c : Block) {p q : UnusedPruner}
    → Accounts (block_sums b) (block_sums c) p q
    → Accounts (statement_sums (block b)) (statement_sums (block c)) p q
unfolding total
Accounts-block b c x = record { counts = x.counts; steps = x.steps; loose = x.loose }

-- The parts of a loop, in the order in which they are pruned.
module _ (pre : Block) (e : Expression) (b post : Block) where
  abbrev loop_sums : Sums
  loop_sums w = block_sums pre w + (w.of_expression e + (block_sums b w + block_sums post w))

  HasEnough-pre : {p : UnusedPruner} → HasEnough loop_sums p → HasEnough (block_sums pre) p
  HasEnough-pre h = record { enough = λ m. omega (arith, h.enough m) }

  HasEnough-post :
      {p q : UnusedPruner} {a : Sums}
      → HasEnough loop_sums p
      → Accounts (block_sums pre) a p q
      → HasEnough (block_sums post) q
  HasEnough-post h x = record { enough = λ m. omega (arith, h.enough m, x.counts m) }

  HasEnough-body :
      {p q r : UnusedPruner} {a c : Sums}
      → HasEnough loop_sums p
      → Accounts (block_sums pre) a p q
      → Accounts (block_sums post) c q r
      → HasEnough (block_sums b) r
  HasEnough-body h x y = record { enough = λ m. omega (arith, h.enough m, x.counts m, y.counts m) }

  Accounts-loop :
      {p q r s : UnusedPruner} {a c d : Sums}
      → Accounts (block_sums pre) a p q
      → Accounts (block_sums post) c q r
      → Accounts (block_sums b) d r s
      → Accounts loop_sums (λ w. a w + (w.of_expression e + (d w + c w))) p s
  Accounts-loop x y z = record {
    counts = λ m. omega (arith, x.counts m, y.counts m, z.counts m);
    steps = omega (arith, x.steps, y.steps, z.steps);
    loose = omega (arith, x.loose, y.loose, z.loose);
  }

mutual
  unfolding prune prune_each prune_cases outcomes total total_block total_cases

  prune-Prunes :
      (s : Statement) (p : UnusedPruner)
      → HasEnough (statement_sums s) p
      → Prunes statement_sums (statement_sums s) p (prune s p)
  prune-Prunes (function_definition f ps rs b) p h =
      let loops =
        both-Loops b p (HasEnough-right (λ w. w.of_function f ps rs) (block_sums b) h)
          (λ fs q h. each-Prunes b fs q h) in
      (
        function_definition f ps rs loops.2,
        loops.3,
        Loops-then b p (λ r. ok (function_definition f ps rs r.0, r.1)) loops,
        Accounts-beside (Accounts-same (λ w. w.of_function f ps rs) p) loops.6,
      )
  prune-Prunes (if_statement e b) p h =
      let loops =
        both-Loops b p (HasEnough-right (λ w. w.of_expression e) (block_sums b) h)
          (λ fs q h. each-Prunes b fs q h) in
      (
        if_statement e loops.2,
        loops.3,
        Loops-then b p (λ r. ok (if_statement e r.0, r.1)) loops,
        Accounts-beside (Accounts-same (λ w. w.of_expression e) p) loops.6,
      )
  prune-Prunes (switch e cs) p h =
      let (cs', q, e', x) =
        cases-Prunes cs p (HasEnough-right (λ w. w.of_expression e) (cases_sums cs) h) in
      (
        switch e cs',
        q,
        after_ok (λ r. ok (switch e r.0, r.1)) e' refl,
        Accounts-beside (Accounts-same (λ w. w.of_expression e) p) x,
      )
  prune-Prunes (for_loop pre e post b) p h =
      let x = both-Loops pre p (HasEnough-pre pre e b post h) (λ fs q h. each-Prunes pre fs q h) in
      let y =
        both-Loops post x.3 (HasEnough-post pre e b post h x.6)
          (λ fs q h. each-Prunes post fs q h) in
      let z =
        both-Loops b y.3 (HasEnough-body pre e b post h x.6 y.6) (λ fs q h. each-Prunes b fs q h) in
      (
        for_loop x.2 e y.2 z.2,
        z.3,
        Loops-then pre p
              (λ r. fates post r.1 >>= λ q'. prune_each post q'.0 q'.1 >>= λ r'.
                fates b r'.1 >>= λ q''.
                prune_each b q''.0 q''.1 >>= λ r''. ok (for_loop r.0 e r'.0 r''.0, r''.1))
              x
            ∙ Loops-then post x.3
                (λ r'. fates b r'.1 >>= λ q''.
                  prune_each b q''.0 q''.1 >>= λ r''. ok (for_loop x.2 e r'.0 r''.0, r''.1))
                y
            ∙ Loops-then b y.3 (λ r''. ok (for_loop x.2 e y.2 r''.0, r''.1)) z,
        Accounts-loop pre e b post x.6 y.6 z.6,
      )
  prune-Prunes (block b) p h =
      let loops = both-Loops b p (HasEnough-block b h) (λ fs q h. each-Prunes b fs q h) in
      (
        block loops.2,
        loops.3,
        Loops-then b p (λ r. ok (block r.0, r.1)) loops,
        Accounts-block b loops.2 loops.6,
      )
  prune-Prunes (instruction i) p h = (instruction i, p, refl, Accounts-same (λ w. w.of_loose) p)
  prune-Prunes (label n) p h = (label n, p, refl, Accounts-same (λ w. w.of_loose) p)
  prune-Prunes (stack_assignment n) p h =
      (stack_assignment n, p, refl, Accounts-same (λ w. w.of_loose) p)
  prune-Prunes (assignment ns e) p h =
      (assignment ns e, p, refl, Accounts-same (statement_sums (assignment ns e)) p)
  prune-Prunes (variable_declaration vs e) p h = (
    variable_declaration vs e,
    p,
    refl,
    Accounts-same (statement_sums (variable_declaration vs e)) p,
  )
  prune-Prunes (expression_statement e) p h =
      (expression_statement e, p, refl, Accounts-same (statement_sums (expression_statement e)) p)

  each-Prunes :
      (b : Block) (fs : List Fate) (p : UnusedPruner)
      → HasEnough (outcome_sums b fs) p
      → Prunes block_sums (outcome_sums b fs) p (prune_each b fs p)
  each-Prunes no_statement fs p h = (no_statement, p, refl, Accounts-same (λ w. 0) p)
  each-Prunes (statement s b) [] p h =
      let (s', q, e, x) =
        prune-Prunes s p (HasEnough-left (statement_sums s) (outcome_sums b []) h) in
      let settled = settle_stays s p s' q e x in
      let rest = HasEnough-beside (outcome_sums b []) h settled.5 in
      settled-Prunes stays s (prune s p) b [] p settled (each-Prunes b [] settled.1 rest)
  each-Prunes (statement s b) (stays ∷ fs) p h =
      let (s', q, e, x) =
        prune-Prunes s p (HasEnough-left (statement_sums s) (outcome_sums b fs) h) in
      let settled = settle_stays s p s' q e x in
      let rest = HasEnough-beside (outcome_sums b fs) h settled.5 in
      settled-Prunes stays s (prune s p) b fs p settled (each-Prunes b fs settled.1 rest)
  each-Prunes (statement s b) (becomes s' ∷ fs) p h =
      let settled = settle_becomes s s' (prune s p) p in
      let rest = HasEnough-beside (outcome_sums b fs) h settled.5 in
      settled-Prunes (becomes s') s (prune s p) b fs p settled (each-Prunes b fs settled.1 rest)

  cases-Prunes :
      (cs : Cases) (p : UnusedPruner)
      → HasEnough (cases_sums cs) p
      → Prunes cases_sums (cases_sums cs) p (prune_cases cs p)
  cases-Prunes no_case p h = (no_case, p, refl, Accounts-same (λ w. 0) p)
  cases-Prunes (case v b cs) p h =
      let x =
        both-Loops b p (HasEnough-left (block_sums b) (cases_sums cs) h)
          (λ fs q h. each-Prunes b fs q h) in
      let (cs', q, e, y) = cases-Prunes cs x.3 (HasEnough-beside (cases_sums cs) h x.6) in
      (
        case v x.2 cs',
        q,
        Loops-then b p (λ r. prune_cases cs r.1 >>= λ r'. ok (case v r.0 r'.0, r'.1)) x
            ∙ after_ok (λ r'. ok (case v x.2 r'.0, r'.1)) e refl,
        Accounts-beside x.6 y,
      )

pub prune_block-Prunes :
    (b : Block) (p : UnusedPruner)
    → HasEnough (block_sums b) p
    → Prunes block_sums (block_sums b) p (prune_block b p)
unfolding prune_block
prune_block-Prunes b p h =
    let loops = both-Loops b p h (λ fs q h. each-Prunes b fs q h) in
    (loops.2, loops.3, after_ok (λ q. prune_each b q.0 q.1) loops.4 loops.5, loops.6)
