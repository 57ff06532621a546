-- ===== src/Solidity/StorageOffsets/Total.antt =====
-- libsolidity/ast/Types.cpp, `StorageOffsets`: places are found for all that is not too large.
use native.Mathlib.Nat.{mod-eq_of_lt}
use lity.Prelude.{
  ℕ, suc, ◌+◌, ◌%◌, ◌≤◌, ◌<◌, ◌≡◌, inl, inr, refl, true, false, ◌&&◌, some, List, [], ◌∷◌,
  get_elem?, ltb, leb, ◌==◌, if◌then◌else◌, ok, arith, Bool-cases,
}
use lity.Solidity.StorageOffsets.{
  StoredType, Offsets, Cursor, slot_limit, next_slot, advance, place, place_all, slots_of, finish,
  first_cursor, compute_offsets,
}

-- The slots that a list of values takes when each starts a new one.
unfoldable pub total_size : List StoredType → ℕ
total_size [] = 0
total_size (type ∷ types) = (if type.can_be_stored then type.storage_size else 0) + total_size types

-- What the code relies on for each type that can be stored.
abbrev pub AreSized : List StoredType → Type 0
AreSized types =
    (k : ℕ) (t : StoredType)
    → get_elem? types k ≡ some t
    → (t.storage_bytes ≤ 32) × (1 ≤ t.storage_size)

next_slot-slots :
    (type : StoredType) (c : Cursor)
    → c.byte_offset ≤ 32
    → type.storage_bytes ≤ 32
    → ((next_slot type c).slot_offset ≤ slots_of c)
      × ((next_slot type c).byte_offset + type.storage_bytes ≤ 32)
unfolding next_slot
next_slot-slots type c h small =
    rw (mod-eq_of_lt {n = c.byte_offset + type.storage_bytes} {m = 0x1_0000_0000} (omega arith))
      (elim (Bool-cases (ltb 32 (c.byte_offset + type.storage_bytes))) [
        | inl e ↦ rw e (ground arith, omega arith)
        | inr e ↦ rw e (ground arith, ground arith)
      ])

advance-slots :
    (type : StoredType) (c : Cursor)
    → c.byte_offset + type.storage_bytes ≤ 32
    → 1 ≤ type.storage_size
    → (slots_of (advance type c) ≤ c.slot_offset + type.storage_size)
      × ((advance type c).byte_offset ≤ 32)
unfolding advance
advance-slots type c h one =
    rw (mod-eq_of_lt {n = c.byte_offset + type.storage_bytes} {m = 0x1_0000_0000} (omega arith))
      (elim (Bool-cases ((type.storage_size == 1) && leb (c.byte_offset + type.storage_bytes) 32)) [
        | inl e ↦ rw e (ground arith, h)
        | inr e ↦ rw e (omega arith, omega arith)
      ])

lt-not_leb : (a b : ℕ) → b < a → leb a b ≡ false
lt-not_leb a b h = ground arith

le-leb : (a b : ℕ) → a ≤ b → leb a b ≡ true
le-leb a b h = ground arith

abbrev entered : ℕ → Cursor → Cursor
entered i c = record c { offsets = (i, (c.slot_offset % slot_limit, c.byte_offset)) ∷ c.offsets }

place-ok :
    (i : ℕ) (type : StoredType) (c : Cursor)
    → c.byte_offset ≤ 32
    → type.storage_bytes ≤ 32
    → 1 ≤ type.storage_size
    → slots_of c < slot_limit
    → (next : Cursor) × (place i type c ≡ ok next)
      × (slots_of next ≤ slots_of c + (if type.can_be_stored then type.storage_size else 0))
      × (next.byte_offset ≤ 32)
unfolding place next_slot advance
place-ok i type c h small one room =
    let moved = next_slot type c in
    let (slots, fits) = next_slot-slots type c h small in
    let (more, bytes) = advance-slots type (entered i moved) fits one in
    elim (Bool-cases type.can_be_stored) [
      | inr out ↦ (c, rw out refl, omega arith, h)
      | inl stored ↦ (
        advance type (entered i moved),
        rw
            (
              stored,
              lt-not_leb slot_limit moved.slot_offset (omega arith),
              le-leb 1 type.storage_size one,
            )
            refl,
        rw stored (omega arith),
        bytes,
      )
    ]

place_all-ok :
    (types : List StoredType) (i : ℕ) (c : Cursor)
    → AreSized types
    → c.byte_offset ≤ 32
    → slots_of c + total_size types < slot_limit
    → (after : Cursor) × (place_all i types c ≡ ok after)
      × (slots_of after ≤ slots_of c + total_size types)
unfolding place_all total_size
place_all-ok [] i c sized h room = (c, refl, omega arith)
place_all-ok (type ∷ types) i c sized h room =
    let (small, one) = sized 0 type refl in
    let (next, e, slots, h') = place-ok i type c h small one (omega arith) in
    let (after, e', slots') =
      place_all-ok types (i + 1) next (λ k t m. sized (suc k) t m) h' (omega arith) in
    (after, rw (e, e') refl, omega arith)

-- For types that keep to the contract of `storageBytes()` and `storageSize()`, and that would take
-- fewer than 2^256 slots if each that is stored started a new one, the code finds places, in no more
-- than that number of slots.
pub compute_offsets-total :
    (types : List StoredType)
    → AreSized types
    → total_size types < slot_limit
    → (slots : ℕ) × (o : Offsets) × (compute_offsets types ≡ ok (slots, o))
      × (slots ≤ total_size types)
unfolding compute_offsets finish
compute_offsets-total types sized room =
    let (c, e, slots) = place_all-ok types 0 first_cursor sized (omega arith) (omega arith) in
    (
      slots_of c,
      c.offsets,
      rw
          (
            e,
            lt-not_leb slot_limit (slots_of c) (omega arith),
            mod-eq_of_lt {n = slots_of c} {m = slot_limit} (omega arith),
          )
          refl,
      omega arith,
    )
