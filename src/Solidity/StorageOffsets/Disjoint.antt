-- ===== src/Solidity/StorageOffsets/Disjoint.antt =====
-- libsolidity/ast/Types.cpp, `StorageOffsets`: values do not overlap.
use mathlib.Core.Bool.{true≢false}
use native.Mathlib.Nat.{mod-eq_of_lt}
use mathlib.Core.Option.{some-injective}
use lity.Prelude.{
  ℕ, suc, ◌+◌, ◌*◌, ◌%◌, ◌≤◌, ◌<◌, ◌≡◌, ◌⊎◌, inl, inr, refl, sym, ap, subst, ◌≢◌, ◌∙◌, true, false,
  some, List, [], ◌∷◌, get_elem?, length, leb, ok, err, arith, Bool-cases, Result-cases, type_error,
}
use lity.Solidity.StorageOffsets.{
  StoredType, Offsets, offset, Cursor, slot_limit, place, place_all, slots_of, finish, first_cursor,
  compute_offsets,
}
use lity.Solidity.StorageOffsets.Layout.{
  IsPackable, width, start, frontier, skipped, placed, place-Round, ok-injective, err≢ok, not_leb,
}

-- The types' contract, for every type of a list.
abbrev pub ArePackable : List StoredType → Type 0
ArePackable types = (k : ℕ) (t : StoredType) → get_elem? types k ≡ some t → IsPackable t

-- Where a stored value lies, with the limit that it does not reach over.
pub record IsInside (types : List StoredType) (k : ℕ) (p : ℕ × ℕ) (limit : ℕ) : Type 0 where
  pub type : StoredType
  pub member : get_elem? types k ≡ some type
  pub stored : type.can_be_stored ≡ true
  pub slot : p.1 + type.storage_bytes ≤ 32
  pub room : start p + width type ≤ limit

-- The members before number i lie apart from each other, below `limit`, in their order, and are all
-- the members that are stored.
pub record AreApart (types : List StoredType) (i : ℕ) (o : Offsets) (limit : ℕ) : Type 0 where
  pub inside : (k : ℕ) (p : ℕ × ℕ) → offset o k ≡ some p → IsInside types k p limit × (k < i)
  pub apart :
      (j k : ℕ) (p q : ℕ × ℕ) (t : StoredType)
      → j < k
      → offset o j ≡ some p
      → offset o k ≡ some q
      → get_elem? types j ≡ some t
      → start p + width t ≤ start q
  pub found :
      (k : ℕ) (t : StoredType)
      → k < i
      → get_elem? types k ≡ some t
      → t.can_be_stored ≡ true
      → (p : ℕ × ℕ) × (offset o k ≡ some p)

IsInside-le :
    {types : List StoredType} {k : ℕ} {p : ℕ × ℕ} {low high : ℕ}
    → low ≤ high
    → IsInside types k p low
    → IsInside types k p high
IsInside-le h q = record {
  type = q.type;
  member = q.member;
  stored = q.stored;
  slot = q.slot;
  room = omega (arith, q.room);
}

-- Looking up the newest entry, and an older one.
offset_new : (i : ℕ) (p : ℕ × ℕ) (o : Offsets) → offset ((i, p) ∷ o) i ≡ some p
unfolding offset
offset_new i p o = ground arith

offset_old : (i k : ℕ) (p : ℕ × ℕ) (o : Offsets) → i ≢ k → offset ((i, p) ∷ o) k ≡ offset o k
unfolding offset
offset_old i k p o h = ground arith

-- A number is the newest key or another.
key_cases : (i k : ℕ) → (i ≡ k) ⊎ (i ≢ k)
key_cases i k = ground arith

looked_up :
    (i k : ℕ) (p q : ℕ × ℕ) (o : Offsets)
    → offset ((i, p) ∷ o) k ≡ some q
    → ((i ≡ k) × (p ≡ q)) ⊎ ((i ≢ k) × (offset o k ≡ some q))
looked_up i k p q o e = elim (key_cases i k) [
  | inl same ↦
      inl (same, some-injective _ _ (sym (offset_new i p o) ∙ ap (offset ((i, p) ∷ o)) same ∙ e))
  | inr other ↦ inr (other, sym (offset_old i k p o other) ∙ e)
]

AreApart-placed :
    {types : List StoredType} {i low high : ℕ} {o : Offsets} {t : StoredType} {p : ℕ × ℕ}
    → AreApart types i o low
    → get_elem? types i ≡ some t
    → t.can_be_stored ≡ true
    → low ≤ start p
    → p.1 + t.storage_bytes ≤ 32
    → start p + width t ≤ high
    → AreApart types (i + 1) ((i, p) ∷ o) high
AreApart-placed {types} {i} {low} {high} {o} {t} {p} a member stored behind slot room = record {
  inside = inside;
  apart = apart;
  found = found;
}
  where
    inside :
        (k : ℕ) (q : ℕ × ℕ) → offset ((i, p) ∷ o) k ≡ some q → IsInside types k q high × (k < i + 1)
    inside k q e = elim (looked_up i k p q o e) [
      | inl (same, at) ↦ (
        subst (λ x. IsInside types x q high) same
            (subst (λ x. IsInside types i x high) at
              (record { type = t; member = member; stored = stored; slot = slot; room = room })),
        omega arith,
      )
      | inr (other, e') ↦
          let (old, before) = a.inside k q e' in (IsInside-le (omega arith) old, omega arith)
    ]

    apart :
        (j k : ℕ) (q r : ℕ × ℕ) (s : StoredType)
        → j < k
        → offset ((i, p) ∷ o) j ≡ some q
        → offset ((i, p) ∷ o) k ≡ some r
        → get_elem? types j ≡ some s
        → start q + width s ≤ start r
    apart j k q r s h ej ek es = elim (looked_up i k p r o ek) [
      | inl (same, at) ↦ elim (looked_up i j p q o ej) [
        | inl (same', _) ↦ absurd (omega arith)
        | inr (_, ej') ↦
            let (old, _) = a.inside j q ej' in
            let its_type : old.type ≡ s = some-injective _ _ (sym old.member ∙ es) in
            subst (λ x. start q + width s ≤ start x) at
              (subst (λ x. start q + width x ≤ start p) its_type (omega (arith, old.room)))
      ]
      | inr (_, ek') ↦ elim (looked_up i j p q o ej) [
        | inl (same', _) ↦ let (_, before) = a.inside k r ek' in absurd (omega arith)
        | inr (_, ej') ↦ a.apart j k q r s h ej' ek' es
      ]
    ]

    found :
        (k : ℕ) (s : StoredType)
        → k < i + 1
        → get_elem? types k ≡ some s
        → s.can_be_stored ≡ true
        → (q : ℕ × ℕ) × (offset ((i, p) ∷ o) k ≡ some q)
    found k s h es c = elim (key_cases i k) [
      | inl same ↦ (p, ap (offset ((i, p) ∷ o)) (sym same) ∙ offset_new i p o)
      | inr other ↦ let (q, e) = a.found k s (omega arith) es c in (q, offset_old i k p o other ∙ e)
    ]

AreApart-skipped :
    {types : List StoredType} {i limit : ℕ} {o : Offsets} {t : StoredType}
    → AreApart types i o limit
    → get_elem? types i ≡ some t
    → t.can_be_stored ≡ false
    → AreApart types (i + 1) o limit
AreApart-skipped {types} {i} {limit} {o} {t} a member out = record {
  inside = λ k p e. let (old, before) = a.inside k p e in (old, omega arith);
  apart = a.apart;
  found = λ k s h es c. elim (key_cases i k) [
    | inl same ↦
        let its_type : t ≡ s = some-injective _ _ (sym member ∙ ap (get_elem? types) same ∙ es) in
        absurd (true≢false (sym c ∙ sym (ap (λ x. x.can_be_stored) its_type) ∙ out))
    | inr other ↦ a.found k s (omega arith) es c
  ];
}

-- Number i of all the types is the first of the types that are left.
abbrev AreLeft : List StoredType → ℕ → List StoredType → Type 0
AreLeft all i left = (k : ℕ) → get_elem? left k ≡ get_elem? all (i + k)

place-AreApart :
    {all : List StoredType} {i : ℕ} {type : StoredType} (c next : Cursor)
    → IsPackable type
    → get_elem? all i ≡ some type
    → c.byte_offset ≤ 32
    → AreApart all i c.offsets (frontier c)
    → place i type c ≡ ok next
    → AreApart all (i + 1) next.offsets (frontier next) × (next.byte_offset ≤ 32)
place-AreApart {all} {i} {type} c next packable member h a e =
    elim (place-Round type i c next packable h e) [
      | skipped out same ↦
          subst (λ x. AreApart all (i + 1) x.offsets (frontier x) × (x.byte_offset ≤ 32)) (sym same)
            (AreApart-skipped a member out, h)
      | placed p stored q ↦ (
        subst (λ o. AreApart all (i + 1) o (frontier next)) (sym q.entry)
            (AreApart-placed a member stored q.behind q.inside q.room),
        q.bytes,
      )
    ]

place_all-AreApart :
    (all left : List StoredType) (i : ℕ) (c after : Cursor)
    → ArePackable all
    → AreLeft all i left
    → c.byte_offset ≤ 32
    → AreApart all i c.offsets (frontier c)
    → place_all i left c ≡ ok after
    → AreApart all (i + length left) after.offsets (frontier after) × (after.byte_offset ≤ 32)
unfolding place_all
place_all-AreApart all [] i c after packable at h a e =
    let same : c ≡ after = ok-injective e in
    subst (λ x. AreApart all (i + 0) x.offsets (frontier x) × (x.byte_offset ≤ 32)) same
      (subst (λ n. AreApart all n c.offsets (frontier c)) (omega arith) a, h)
place_all-AreApart all (type ∷ left) i c after packable at h a e =
    let member : get_elem? all i ≡ some type = ap (get_elem? all) (omega arith) ∙ sym (at 0) in
    elim (Result-cases (place i type c)) [
      | inr (thrown, r) ↦
          let failed : place_all i (type ∷ left) c ≡ err thrown = rw r refl in
          absurd (err≢ok (sym failed ∙ e))
      | inl (next, r) ↦
          let going_on : place_all i (type ∷ left) c ≡ place_all (i + 1) left next = rw r refl in
          let (a', h') = place-AreApart c next (packable i type member) member h a r in
          let (whole, below) =
            place_all-AreApart all left (i + 1) next after packable
              (λ k. at (suc k) ∙ ap (get_elem? all) (omega arith)) h' a' (sym going_on ∙ e) in
          (subst (λ n. AreApart all n after.offsets (frontier after)) (omega arith) whole, below)
    ]

AreApart-le :
    {types : List StoredType} {i low high : ℕ} {o : Offsets}
    → low ≤ high
    → AreApart types i o low
    → AreApart types i o high
AreApart-le h a = record {
  inside = λ k p e. let (old, before) = a.inside k p e in (IsInside-le h old, before);
  apart = a.apart;
  found = a.found;
}

nothing_placed : (types : List StoredType) → AreApart types 0 [] 0
unfolding offset
nothing_placed types = record {
  inside = λ k p e. absurd (ground arith);
  apart = λ j k p q t h e. absurd (ground arith);
  found = λ k t h. elim h [ ];
}

finish-AreApart :
    {types : List StoredType} {n slots : ℕ} {o : Offsets} (c : Cursor)
    → c.byte_offset ≤ 32
    → AreApart types n c.offsets (frontier c)
    → finish c ≡ ok (slots, o)
    → AreApart types n o (32 * slots)
unfolding finish
finish-AreApart {types} {n} {slots} {o} c h a e = elim (Bool-cases (leb slot_limit (slots_of c))) [
  | inl full ↦
      let failed : finish c ≡ err type_error = rw full refl in absurd (err≢ok (sym failed ∙ e))
  | inr free ↦
      let done : finish c ≡ ok (slots_of c % slot_limit, c.offsets) = rw free refl in
      let pair = ok-injective (sym done ∙ e) in
      let exact : slots_of c ≡ slots =
        sym (mod-eq_of_lt (not_leb slot_limit (slots_of c) free)) ∙ ap (λ x. x.0) pair in
      subst (λ x. AreApart types n x (32 * slots)) (ap (λ x. x.1) pair)
        (AreApart-le (subst (λ x. frontier c ≤ 32 * x) exact (within c h)) a)
]
  where
    within : (c : Cursor) → c.byte_offset ≤ 32 → frontier c ≤ 32 * slots_of c
    within c h = ground arith

-- If the code finds places for types that keep to the contract of `storageBytes()`, every type that
-- is stored has one, which lies within its slots, ends where the next one starts or before, and ends
-- within the number of slots that the code returns.
pub compute_offsets-AreApart :
    (types : List StoredType) (slots : ℕ) (o : Offsets)
    → ArePackable types
    → compute_offsets types ≡ ok (slots, o)
    → AreApart types (length types) o (32 * slots)
unfolding compute_offsets
compute_offsets-AreApart types slots o packable e =
    elim (Result-cases (place_all 0 types first_cursor)) [
      | inr (thrown, r) ↦
          let failed : compute_offsets types ≡ err thrown = rw r refl in
          absurd (err≢ok (sym failed ∙ e))
      | inl (c, r) ↦
          let ended : compute_offsets types ≡ finish c = rw r refl in
          let (a, h) =
            place_all-AreApart types types 0 first_cursor c packable
              (λ k. ap (get_elem? types) (omega arith)) (omega arith) (nothing_placed types) r in
          finish-AreApart c h (subst (λ n. AreApart types n c.offsets (frontier c)) (omega arith) a)
            (sym ended ∙ e)
    ]
