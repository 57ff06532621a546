-- ===== src/Solidity/StorageOffsets/Layout.antt =====
-- libsolidity/ast/Types.cpp, `StorageOffsets`: what one round of the loop does.
use native.Mathlib.Nat.{mod-eq_of_lt}
use lity.Prelude.{
  ℕ, ◌+◌, ◌*◌, ◌%◌, ◌≤◌, ◌<◌, ◌≡◌, ◌⊎◌, inl, inr, refl, sym, ap, subst, ◌≢◌, ◌∙◌, true, false, ◌∷◌,
  ltb, leb, ◌==◌, if◌then◌else◌, Result, ok, err, arith, Bool-cases, leb→le, Exception, type_error,
  internal_compiler_error,
}
use lity.Solidity.StorageOffsets.{StoredType, Cursor, slot_limit, next_slot, advance, place}

-- The contract of `storageBytes()`: a value that takes less than a slot takes one slot only.
pub record IsPackable (type : StoredType) : Type 0 where
  pub bytes : type.storage_bytes ≤ 32
  pub many : (type.storage_size ≡ 1) ⊎ (type.storage_bytes ≡ 32)

-- The number of bytes that a value takes, and the first byte of a place.
abbrev pub width : StoredType → ℕ
width type = if type.storage_size == 1 then type.storage_bytes else 32 * type.storage_size

abbrev pub start : ℕ × ℕ → ℕ
start p = 32 * p.0 + p.1

abbrev pub frontier : Cursor → ℕ
frontier c = 32 * c.slot_offset + c.byte_offset

pub not_leb : (a b : ℕ) → leb a b ≡ false → b < a
not_leb a b e = ground arith

small_sum : (a b : ℕ) → a ≤ 32 → b ≤ 32 → (a + b) % 0x1_0000_0000 ≡ a + b
small_sum a b ha hb = mod-eq_of_lt (omega arith)

next_slot-fits :
    (type : StoredType) (c : Cursor)
    → c.byte_offset ≤ 32
    → type.storage_bytes ≤ 32
    → (frontier c ≤ frontier (next_slot type c))
      × ((next_slot type c).byte_offset + type.storage_bytes ≤ 32)
      × ((next_slot type c).offsets ≡ c.offsets)
      × ((next_slot type c).slot_offset ≤ c.slot_offset + 1)
unfolding next_slot
next_slot-fits type c hc ht =
    rw (small_sum c.byte_offset type.storage_bytes hc ht)
      (elim (Bool-cases (ltb 32 (c.byte_offset + type.storage_bytes))) [
        | inl e ↦ rw e (omega arith, omega arith, refl, omega arith)
        | inr e ↦ rw e (omega arith, ground arith, refl, omega arith)
      ])

advance-width :
    (type : StoredType) (c : Cursor)
    → c.byte_offset + type.storage_bytes ≤ 32
    → 1 ≤ type.storage_size
    → IsPackable type
    → (frontier c + width type ≤ frontier (advance type c))
      × ((advance type c).byte_offset ≤ 32)
      × ((advance type c).offsets ≡ c.offsets)
unfolding advance
advance-width type c h one p =
    rw (small_sum c.byte_offset type.storage_bytes (omega arith) p.bytes)
      (elim (Bool-cases (type.storage_size == 1)) [
        | inl e ↦ rw (e, fits) (omega arith, h, refl)
        | inr e ↦ rw e (whole e, omega arith, refl)
      ])
  where
    fits : leb (c.byte_offset + type.storage_bytes) 32 ≡ true
    fits = ground arith

    whole :
        (type.storage_size == 1) ≡ false
        → frontier c + 32 * type.storage_size ≤ 32 * (c.slot_offset + type.storage_size) + 0
    whole e = elim p.many [ inl single ↦ absurd (ground arith) | inr full ↦ omega arith ]

-- What a round does for a value that can be stored.
pub record IsPlaced (type : StoredType) (i : ℕ) (before after : Cursor) (p : ℕ × ℕ) : Type 0 where
  pub entry : after.offsets ≡ (i, p) ∷ before.offsets
  pub behind : frontier before ≤ start p
  pub inside : p.1 + type.storage_bytes ≤ 32
  pub room : start p + width type ≤ frontier after
  pub bytes : after.byte_offset ≤ 32

-- What is known of a round that throws nothing.
pub data Round (type : StoredType) (i : ℕ) (before after : Cursor) : Type 0 where
  skipped : type.can_be_stored ≡ false → after ≡ before → Round type i before after
  placed :
      (p : ℕ × ℕ)
      → type.can_be_stored ≡ true
      → IsPlaced type i before after p
      → Round type i before after

pub ok-injective {ℓ} : {A : Type ℓ} {a b : A} → Path (Result A) (ok a) (ok b) → a ≡ b
ok-injective {A} {a} {b} e = ap (value a) e
  where
    value : {B : Type ℓ} → B → Result B → B
    value d (ok x) = x
    value d (err x) = d

pub err≢ok {ℓ} : {A : Type ℓ} {a : A} {x : Exception} → err x ≢ ok a
err≢ok e = absurd (ground arith)

abbrev entered : ℕ → Cursor → Cursor
entered i c = record c { offsets = (i, (c.slot_offset % slot_limit, c.byte_offset)) ∷ c.offsets }

entered-IsPlaced :
    (type : StoredType) (i : ℕ) (c : Cursor)
    → IsPackable type
    → c.byte_offset ≤ 32
    → leb slot_limit (next_slot type c).slot_offset ≡ false
    → 1 ≤ type.storage_size
    → IsPlaced type i c
        (advance type (entered i (next_slot type c)))
        ((next_slot type c).slot_offset % slot_limit, (next_slot type c).byte_offset)
entered-IsPlaced type i c p h free one =
    let moved = next_slot type c in
    let (behind, fits, same, _) = next_slot-fits type c h p.bytes in
    let (room, bytes, kept) = advance-width type (entered i moved) fits one p in
    let below : moved.slot_offset % slot_limit ≡ moved.slot_offset =
      mod-eq_of_lt (not_leb slot_limit moved.slot_offset free) in
    record {
      entry = kept ∙ ap (λ o. (i, (moved.slot_offset % slot_limit, moved.byte_offset)) ∷ o) same;
      behind = subst (λ s. frontier c ≤ 32 * s + moved.byte_offset) (sym below) behind;
      inside = fits;
      room =
          subst
            (λ s.
              32 * s + moved.byte_offset + width type ≤ frontier (advance type (entered i moved)))
            (sym below) room;
      bytes = bytes;
    }

pub place-Round :
    (type : StoredType) (i : ℕ) (c after : Cursor)
    → IsPackable type
    → c.byte_offset ≤ 32
    → place i type c ≡ ok after
    → Round type i c after
unfolding place next_slot
place-Round type i c after p h e =
    let moved = next_slot type c in
    elim (Bool-cases type.can_be_stored) [
      | inr not_stored ↦
          let same : place i type c ≡ ok c = rw not_stored refl in
          skipped not_stored (sym (ok-injective (sym same ∙ e)))
      | inl stored ↦ elim (Bool-cases (leb slot_limit moved.slot_offset)) [
        | inl full ↦
            let thrown : place i type c ≡ err type_error = rw (stored, full) refl in
            absurd (err≢ok (sym thrown ∙ e))
        | inr free ↦ elim (Bool-cases (leb 1 type.storage_size)) [
          | inr no_size ↦
              let thrown : place i type c ≡ err internal_compiler_error =
                rw (stored, free, no_size) refl in
              absurd (err≢ok (sym thrown ∙ e))
          | inl one ↦
              let next = entered i moved in
              let done : place i type c ≡ ok (advance type next) = rw (stored, free, one) refl in
              subst (Round type i c) (ok-injective (sym done ∙ e)) (
                placed (moved.slot_offset % slot_limit, moved.byte_offset) stored
                  (entered-IsPlaced type i c p h free (leb→le 1 type.storage_size one)))
        ]
      ]
    ]
