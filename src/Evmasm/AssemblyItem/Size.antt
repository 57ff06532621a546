-- ===== src/Evmasm/AssemblyItem/Size.antt =====
-- libevmasm/AssemblyItem.cpp: the bytes that items take.
use lity.Prelude.{ℕ, ◌≤◌, ◌<◌, ◌^◌, ◌≡◌, ◌⊎◌, inl, inr, refl, arith, ok, err, invalid_opcode}
use lity.Devcore.CommonData.Size.{bytes_required-le}
use lity.Evmasm.AssemblyItem.{
  AssemblyItem, AssemblyItemType, bytes_by_type, item_bytes_required, undefined_item, push,
}

by_type_bounds :
    (t : AssemblyItemType) (v k : ℕ)
    → v < 2 ^ 256
    → k ≤ 32
    → ((n : ℕ) × (bytes_by_type t v k ≡ ok n) × (1 ≤ n) × (n ≤ 33))
      ⊎ ((t ≡ undefined_item) × (bytes_by_type t v k ≡ err invalid_opcode))
unfolding bytes_by_type
by_type_bounds undefined_item v k b p = inr (refl, refl)
by_type_bounds push v k b p = inl (_, refl, omega arith, omega (arith, bytes_required-le 32 v b))
by_type_bounds _ v k b p = inl (_, refl, omega arith, omega arith)

-- Every item but an undefined one, with data of 256 bits and addresses of at most 32 bytes, takes
-- between 1 and 33 bytes; an undefined item throws `InvalidOpcode`.
pub item_bytes_required_bounds :
    (it : AssemblyItem) (k : ℕ)
    → it.data_value < 2 ^ 256
    → k ≤ 32
    → ((n : ℕ) × (item_bytes_required k it ≡ ok n) × (1 ≤ n) × (n ≤ 33))
      ⊎ ((it.type ≡ undefined_item) × (item_bytes_required k it ≡ err invalid_opcode))
unfolding item_bytes_required
item_bytes_required_bounds it k b p = by_type_bounds it.type it.data_value k b p
