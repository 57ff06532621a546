-- ===== src/Solidity/ElementaryType/Layout.antt =====
-- libsolidity/ast/Types.cpp: members of elementary types in storage.

use mathlib.Core.Option.{some-injective}
use lity.Prelude.{
  ℕ, zero, suc, ◌*◌, ◌≤◌, ◌<◌, ◌≡◌, inl, refl, sym, subst, true, some, List, [], ◌∷◌, map, length,
  get_elem?, ok, arith,
}
use lity.Solidity.StorageOffsets.{StoredType, Offsets, slot_limit, compute_offsets}
use lity.Solidity.StorageOffsets.Disjoint.{AreApart, compute_offsets-AreApart}
use lity.Solidity.StorageOffsets.Total.{total_size, compute_offsets-total}
use lity.Solidity.ElementaryType.{
  ElementaryType, integer, fixed_point, address, boolean, fixed_bytes, is_constructible,
  storage_bytes, stored_type,
}

storage_bytes-le : (t : ElementaryType) → is_constructible t ≡ true → storage_bytes t ≤ 32
unfolding storage_bytes is_constructible
storage_bytes-le (integer bits m) h = ground arith
storage_bytes-le (fixed_point bits digits m) h = ground arith
storage_bytes-le (address m) h = omega arith
storage_bytes-le boolean h = omega arith
storage_bytes-le (fixed_bytes bytes) h = ground arith

abbrev pub AreConstructible : List ElementaryType → Type 0
AreConstructible [] = Unit
AreConstructible (t ∷ types) = (is_constructible t ≡ true) × AreConstructible types

abbrev StoredIs : StoredType → Type 0
StoredIs s = (s.storage_bytes ≤ 32) × (s.storage_size ≡ 1)

stored_is :
    (types : List ElementaryType) (k : ℕ) (s : StoredType)
    → AreConstructible types
    → get_elem? (map stored_type types) k ≡ some s
    → StoredIs s
unfolding stored_type
stored_is [] k s h e = absurd (ground arith)
stored_is (t ∷ types) zero s (h, hs) e =
    subst StoredIs (some-injective _ _ e) (storage_bytes-le t h, refl)
stored_is (t ∷ types) (suc k) s (h, hs) e = stored_is types k s hs e

total_size-map : (types : List ElementaryType) → total_size (map stored_type types) ≡ length types
unfolding total_size stored_type
total_size-map [] = refl
total_size-map (t ∷ types) = omega (arith, total_size-map types)

-- Members of elementary types, fewer than 2^256, all get places in no more slots than there are
-- members; no two of them overlap, and none crosses from one slot into the next.
pub compute_offsets-elementary :
    (types : List ElementaryType)
    → AreConstructible types
    → length types < slot_limit
    → (slots : ℕ) × (o : Offsets) × (compute_offsets (map stored_type types) ≡ ok (slots, o))
      × (slots ≤ length types)
      × AreApart (map stored_type types) (length (map stored_type types)) o (32 * slots)
compute_offsets-elementary types h room =
    let stored = map stored_type types in
    let (slots, o, e, few) =
      compute_offsets-total stored
        (λ k s m. let (small, one) = stored_is types k s h m in (small, omega arith))
        (subst (λ n. n < slot_limit) (sym (total_size-map types)) room) in
    (
      slots,
      o,
      e,
      subst (λ n. slots ≤ n) (total_size-map types) few,
      compute_offsets-AreApart stored slots o
          (λ k s m.
            let (small, one) = stored_is types k s h m in record { bytes = small; many = inl one })
          e,
    )
