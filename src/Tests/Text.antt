-- ===== src/Tests/Text.antt =====
-- Distances of strings, joined lists and UTF-8 at concrete inputs.
use lity.Prelude.{
  ℕ, ◌≤◌, ◌≡◌, ◌↔◌, ◌⊎◌, refl, true, false, none, some, List, [], ◌∷◌, ◌++◌, length, arith,
}
use lity.Devcore.StringUtils.{join_human_readable, quoted_alternatives_list, join_loop}
use lity.Devcore.StringUtils.Join.{intercalate, join_human_readable-intercalate}
use lity.Devcore.Utf8.{validate_utf8, scan, round, continuations, count_of, is_well_formed, report}
use lity.Devcore.Utf8.Table.{WellFormed, empty, one}
use lity.Devcore.Utf8.Valid.{validate_utf8_iff}
use lity.Devcore.Utf8.Position.{validate_utf8-total, validate_utf8_late}

abbrev swapped : List ℕ
swapped = 98 ∷ 97 ∷ []

abbrev in_order : List ℕ
in_order = 97 ∷ 98 ∷ []

abbrev no_threshold : ℕ
no_threshold = 0

abbrev cut_off : List ℕ
cut_off = 0xc3 ∷ []

abbrev bad_second : List ℕ
bad_second = 0xc3 ∷ 0x28 ∷ 0x41 ∷ []

join_human_readable-intercalate_example :
    (join_human_readable (swapped ∷ (in_order ∷ [])) (44 ∷ []) []
      ≡ intercalate (44 ∷ []) (swapped ∷ (in_order ∷ [])))
    × (join_human_readable (swapped ∷ []) (44 ∷ []) (59 ∷ []) ≡ swapped)
    × (join_human_readable ((swapped ∷ (in_order ∷ [])) ++ (swapped ∷ [])) (44 ∷ []) (59 ∷ [])
        ≡ intercalate (44 ∷ []) (swapped ∷ (in_order ∷ [])) ++ ((59 ∷ []) ++ swapped))
join_human_readable-intercalate_example =
    join_human_readable-intercalate (44 ∷ []) 59 [] swapped swapped (in_order ∷ [])

-- "a", "b" or "c"
quoted_letters :
    quoted_alternatives_list ((97 ∷ []) ∷ ((98 ∷ []) ∷ ((99 ∷ []) ∷ [])))
    ≡ 34 ∷ 97 ∷ 34 ∷ 44 ∷ 32 ∷ 34 ∷ 98 ∷ 34 ∷ 32 ∷ 111 ∷ 114 ∷ 32 ∷ 34 ∷ 99 ∷ 34 ∷ []
unfolding quoted_alternatives_list join_human_readable join_loop
quoted_letters = refl

-- "Aé"
validate_utf8_iff_example :
    (validate_utf8 (0x41 ∷ 0xc3 ∷ 0xa9 ∷ []) ≡ some (true, none))
    ↔ WellFormed (0x41 ∷ 0xc3 ∷ 0xa9 ∷ [])
validate_utf8_iff_example =
    validate_utf8_iff (0x41 ∷ 0xc3 ∷ 0xa9 ∷ []) (omega arith, (omega arith, (omega arith, tt)))

good_bytes : validate_utf8 (0x41 ∷ 0xc3 ∷ 0xa9 ∷ []) ≡ some (true, none)
unfolding validate_utf8 report scan round continuations count_of is_well_formed
good_bytes = refl

validate_utf8-total_example :
    (validate_utf8 cut_off ≡ some (true, none))
    ⊎ ((p : ℕ) × (validate_utf8 cut_off ≡ some (false, some p)) × (p ≤ length cut_off))
validate_utf8-total_example = validate_utf8-total cut_off

-- The second byte is bad; the end of the three bytes is reported.
validate_utf8_late_example : validate_utf8 bad_second ≡ some (false, some (length bad_second))
validate_utf8_late_example =
    validate_utf8_late 0xc3 0x28 (0x41 ∷ []) (omega arith, omega arith) refl
      (one (omega arith) empty) (omega arith, tt)
