-- ===== src/Evmasm/AssemblyItem/Tags.antt =====
-- libevmasm/AssemblyItem.cpp: tags of other assemblies, packed into the 256 bits of an item's data.
use lity.Prelude.{
  ℕ, ◌+◌, ◌-◌, ◌*◌, ◌/◌, ◌%◌, ◌^◌, ◌<◌, ◌≤◌, ◌≡◌, ◌⊎◌, inl, inr, true, false, ◌||◌, ◌==◌,
  Bool-cases, bit_or, ltb, refl, arith, ok, err, exception, if◌then◌else◌,
}
use lity.Prelude.Bits.{bit_or-shift}
use lity.Evmasm.AssemblyItem.{
  AssemblyItem, type_eq, push_tag, tag, operation, no_sub, set_push_tag_sub_id_and_tag,
  split_foreign_push_tag, to_sub_assembly_tag,
}

-- The packed data of a sub-assembly id and a tag.
abbrev packed : ℕ → ℕ → ℕ
packed sub_id t = if sub_id == no_sub then t else bit_or t ((sub_id + 1) * 2 ^ 64 % 2 ^ 256)

packed_parts :
    (sub_id t : ℕ)
    → sub_id < 2 ^ 64
    → t < 2 ^ 64
    → (packed sub_id t % 2 ^ 64 ≡ t)
      × ((packed sub_id t / 2 ^ 64 + 2 ^ 256 - 1) % 2 ^ 256 % 2 ^ 64 ≡ sub_id)
packed_parts sub_id t s h = elim (Bool-cases (sub_id == no_sub)) [
  | inl e ↦ (ground arith, ground arith)
  | inr e ↦
      let small : (sub_id + 1) * 2 ^ 64 % 2 ^ 256 ≡ (sub_id + 1) * 2 ^ 64 = omega arith in
      rw (e, small, bit_or-shift 64 t (sub_id + 1) h) (ground arith, ground arith)
]

-- Setting a sub-assembly id and a tag on a tag or a push of a tag keeps the item's type, and splitting
-- the result gives both back; both are `size_t` values.
pub split-set_push_tag :
    (sub_id t : ℕ) (it : AssemblyItem)
    → sub_id < 2 ^ 64
    → t < 2 ^ 64
    → (type_eq it.type push_tag || type_eq it.type tag) ≡ true
    → (it' : AssemblyItem) × (set_push_tag_sub_id_and_tag sub_id t it ≡ ok it')
      × (it'.type ≡ it.type)
      × (split_foreign_push_tag it' ≡ ok (sub_id, t))
unfolding set_push_tag_sub_id_and_tag split_foreign_push_tag
split-set_push_tag sub_id t it s h e =
    let p = packed_parts sub_id t s h in
    let ne : type_eq it.type operation ≡ false = ground arith in
    (record it { data_value = packed sub_id t }, rw (e, ne) refl, refl, rw (e, p.0, p.1) refl)

-- Moving a tag into a sub-assembly makes it a push of the tag with that sub-assembly's id, and
-- throws if the tag has an id already.
pub split-to_sub_assembly_tag :
    (sub_id : ℕ) (it : AssemblyItem)
    → sub_id < 2 ^ 64
    → (type_eq it.type push_tag || type_eq it.type tag) ≡ true
    → ((it.data_value < 2 ^ 64)
        × ((it' : AssemblyItem) × (to_sub_assembly_tag sub_id it ≡ ok it')
            × (it'.type ≡ push_tag)
            × (split_foreign_push_tag it' ≡ ok (sub_id, it.data_value))))
      ⊎ ((2 ^ 64 ≤ it.data_value) × (to_sub_assembly_tag sub_id it ≡ err exception))
unfolding to_sub_assembly_tag
split-to_sub_assembly_tag sub_id it s e =
    let ne : type_eq it.type operation ≡ false = ground arith in
    elim (Bool-cases (ltb it.data_value (2 ^ 64))) [
      | inl h ↦
          let b : it.data_value < 2 ^ 64 = ground arith in
          let m : it.data_value % 2 ^ 64 ≡ it.data_value = omega arith in
          let r =
            split-set_push_tag sub_id it.data_value (record it { type = push_tag }) s b refl in
          inl (b, (r.0, rw (ne, h, e, m) r.1, r.2, r.3))
      | inr h ↦ inr (ground arith, rw (ne, h) refl)
    ]
