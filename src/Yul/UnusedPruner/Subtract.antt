-- ===== src/Yul/UnusedPruner/Subtract.antt =====
-- libyul/optimiser/UnusedPruner.cpp: when the assertions of `subtractReferences` hold.
use lity.Prelude.{
  ℕ, ◌+◌, ◌-◌, ◌≤◌, ◌<◌, ◌≡◌, refl, sym, ap, ◌∙◌, Bool, true, false, ◌&&◌, not, leb, ltb, [], ◌∷◌,
  ok, Bool-cases, inl, inr, &&_iff, arith,
}
use lity.Devcore.StringUtils.{string_eq}
use lity.Devcore.StringUtils.Within.{string_eq_sound, string_eq_self}
use lity.Yul.Expression.{Name}
use lity.Yul.ReferencesCounter.{References, count_of, has_key, set_count}
use lity.Yul.ReferencesCounter.Keys.{is_proper, count_of-absent, count_of-set_count}
use lity.Yul.UnusedPruner.{UnusedPruner, subtract_references}

has_key-count : (r : References) (m : Name) → 0 < count_of r m → has_key r m ≡ true
has_key-count r m h = elim (Bool-cases (has_key r m)) [
  | inl there ↦ there
  | inr absent ↦ let none_there = count_of-absent r m absent in absurd (omega arith)
]

pub no_entry : (m : Name) → count_of [] m ≡ 0
unfolding count_of
no_entry m = refl

head_count :
    (name m : Name) (n : ℕ) (rest : References)
    → string_eq name m ≡ true
    → count_of ((name, n) ∷ rest) m ≡ n
unfolding count_of
head_count name m n rest h = rw h refl

rest_count :
    (name m : Name) (n : ℕ) (rest : References)
    → string_eq name m ≡ false
    → count_of ((name, n) ∷ rest) m ≡ count_of rest m
unfolding count_of
rest_count name m n rest h = rw h refl

-- An entry that is subtracted leaves the others, of which it is none, in reach.
count_less :
    (r : References) (name : Name) (n : ℕ) (rest : References) (m : Name)
    → has_key rest name ≡ false
    → count_of ((name, n) ∷ rest) m ≤ count_of r m
    → (count_of rest m ≤ count_of (set_count r name (count_of r name - n)) m)
      × (count_of (set_count r name (count_of r name - n)) m + count_of ((name, n) ∷ rest) m
          ≡ count_of r m + count_of rest m)
count_less r name n rest m fresh there = elim (Bool-cases (string_eq name m)) [
  | inl same ↦
      let e = string_eq_sound name m same in
      let no_more : count_of rest m ≡ 0 =
        ap (count_of rest) (sym e) ∙ count_of-absent rest name fresh in
      let kept : count_of r name ≡ count_of r m = ap (count_of r) e in
      let head = head_count name m n rest same in
      rw (count_of-set_count r name m (count_of r name - n), same) (omega arith, omega arith)
  | inr other ↦
      let skip = rest_count name m n rest other in
      rw (count_of-set_count r name m (count_of r name - n), other) (omega arith, omega arith)
]

-- Entries of which the map has enough are subtracted without an exception, from each name as many as the
-- entries have.
pub subtract_references-count :
    (entries : References) (p : UnusedPruner)
    → is_proper entries ≡ true
    → ((m : Name) → count_of entries m ≤ count_of p.references m)
    → (q : UnusedPruner) × (subtract_references entries p ≡ ok q)
      × ((m : Name) → count_of q.references m + count_of entries m ≡ count_of p.references m)
unfolding subtract_references is_proper
subtract_references-count [] p h enough = (p, refl, (λ m. omega (arith, no_entry m)))
subtract_references-count ((name, n) ∷ rest) p h enough =
    let (fresh, later) = (&&_iff (not (has_key rest name)) (ltb 0 n && is_proper rest)).0 h in
    let (positive, proper) = (&&_iff (ltb 0 n) (is_proper rest)).0 later in
    let absent = opposite (has_key rest name) fresh in
    let head = head_count name name n rest (string_eq_self name) in
    let there = enough name in
    let positive' : 0 < n = ground arith in
    let less = λ (m : Name). count_less p.references name n rest m absent (enough m) in
    let (q, e, counts) =
      subtract_references-count rest
        (record {
          references = set_count p.references name (count_of p.references name - n);
          should_run_again = true;
        })
        proper (λ m. (less m).0) in
    (
      q,
      rw
          (
            has_key-count p.references name (omega arith),
            leb_true n (count_of p.references name) (omega arith),
          )
          e,
      (λ m. omega (arith, counts m, (less m).1)),
    )
  where
    leb_true : (a b : ℕ) → a ≤ b → leb a b ≡ true
    leb_true a b h = ground arith

    opposite : (x : Bool) → not x ≡ true → x ≡ false
    opposite x h = ground arith
