-- ===== src/Solidity/StorageOffsets.antt =====
-- libsolidity/ast/Types.cpp, `StorageOffsets`: the slots and bytes of the members of a structure or a
-- contract.
pub mod Layout
pub mod Disjoint
pub mod Total
use lity.Prelude.{
  ℕ, zero, suc, ◌+◌, ◌*◌, ◌%◌, ◌^◌, Bool, true, false, ◌&&◌, not, Option, none, some, List, [], ◌∷◌,
  ltb, leb, ◌==◌, if◌then◌else◌, Result, ok, err, ◌>>=◌, ◌>>◌, assert_throw, type_error,
  internal_compiler_error,
}

-- What is asked of a type: `canBeStored()`, `storageBytes()` and `storageSize()`.
pub record StoredType : Type 0 where
  pub can_be_stored : Bool
  pub storage_bytes : ℕ
  pub storage_size : ℕ

-- `map<size_t, pair<u256, unsigned>>`: the last entry for a key counts.
abbrev pub Offsets : Type 0
Offsets = List (ℕ × (ℕ × ℕ))

unfoldable pub offset : Offsets → ℕ → Option (ℕ × ℕ)
offset [] index = none
offset ((key, place) ∷ rest) index = if key == index then some place else offset rest index

pub record Cursor : Type 0 where
  pub slot_offset : ℕ
  pub byte_offset : ℕ
  pub offsets : Offsets

-- `bigint(1) << 256`
abbrev pub slot_limit : ℕ
slot_limit = 2 ^ 256

-- The first test of the loop's body: a value that does not fit goes to the next slot.
unfoldable pub next_slot : StoredType → Cursor → Cursor
next_slot type c =
    if ltb 32 ((c.byte_offset + type.storage_bytes) % 0x1_0000_0000)
    then record c { slot_offset = c.slot_offset + 1; byte_offset = 0 }
    else c

-- The last test: where the next value may start.
unfoldable pub advance : StoredType → Cursor → Cursor
advance type c =
    if (type.storage_size == 1) && leb ((c.byte_offset + type.storage_bytes) % 0x1_0000_0000) 32
    then record c { byte_offset = (c.byte_offset + type.storage_bytes) % 0x1_0000_0000 }
    else record c { slot_offset = c.slot_offset + type.storage_size; byte_offset = 0 }

-- The loop's body.
unfoldable pub place : ℕ → StoredType → Cursor → Result Cursor
place i type c =
    let moved = next_slot type c in
    if not type.can_be_stored then ok c else (do
      assert_throw (not (leb slot_limit moved.slot_offset)) type_error
      assert_throw (leb 1 type.storage_size) internal_compiler_error
      ok (
          advance type (record moved {
            offsets = (i, (moved.slot_offset % slot_limit, moved.byte_offset)) ∷ moved.offsets;
          })))

unfoldable pub place_all : ℕ → List StoredType → Cursor → Result Cursor
place_all i [] c = ok c
place_all i (type ∷ types) c = place i type c >>= place_all (i + 1) types

-- What follows the loop: a slot that is filled in part counts.
abbrev pub slots_of : Cursor → ℕ
slots_of c = if ltb 0 c.byte_offset then c.slot_offset + 1 else c.slot_offset

unfoldable pub finish : Cursor → Result (ℕ × Offsets)
finish c = do
  assert_throw (not (leb slot_limit (slots_of c))) type_error
  ok (slots_of c % slot_limit, c.offsets)

abbrev pub first_cursor : Cursor
first_cursor = record { slot_offset = 0; byte_offset = 0; offsets = [] }

-- `computeOffsets`: `m_storageSize` and `m_offsets`
unfoldable pub compute_offsets : List StoredType → Result (ℕ × Offsets)
compute_offsets types = place_all 0 types first_cursor >>= finish
