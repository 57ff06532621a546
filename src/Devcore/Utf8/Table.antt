-- ===== src/Devcore/Utf8/Table.antt =====
-- The well-formed byte sequences of UTF-8, as chapter 3 of the Unicode standard lists them.
use lity.Prelude.{ℕ, ◌≤◌, ◌<◌, ◌≡◌, ◌⊎◌, List, [], ◌∷◌}

abbrev pub InRange : ℕ → ℕ → ℕ → Type 0
InRange low high b = (low ≤ b) × (b ≤ high)

-- Table 3-7: the first two bytes of the sequences of three and of four bytes
abbrev pub StartOfThree : ℕ → ℕ → Type 0
StartOfThree a b =
    ((a ≡ 0xe0) × InRange 0xa0 0xbf b)
    ⊎ (InRange 0xe1 0xec a × InRange 0x80 0xbf b)
    ⊎ ((a ≡ 0xed) × InRange 0x80 0x9f b)
    ⊎ (InRange 0xee 0xef a × InRange 0x80 0xbf b)

abbrev pub StartOfFour : ℕ → ℕ → Type 0
StartOfFour a b =
    ((a ≡ 0xf0) × InRange 0x90 0xbf b)
    ⊎ (InRange 0xf1 0xf3 a × InRange 0x80 0xbf b)
    ⊎ ((a ≡ 0xf4) × InRange 0x80 0x8f b)

pub data WellFormed : List ℕ → Type 0 where
  empty : WellFormed []
  one : {a : ℕ} {rest : List ℕ} → a < 0x80 → WellFormed rest → WellFormed (a ∷ rest)
  two :
      {a b : ℕ} {rest : List ℕ}
      → InRange 0xc2 0xdf a
      → InRange 0x80 0xbf b
      → WellFormed rest
      → WellFormed (a ∷ b ∷ rest)
  three :
      {a b c : ℕ} {rest : List ℕ}
      → StartOfThree a b
      → InRange 0x80 0xbf c
      → WellFormed rest
      → WellFormed (a ∷ b ∷ c ∷ rest)
  four :
      {a b c d : ℕ} {rest : List ℕ}
      → StartOfFour a b
      → InRange 0x80 0xbf c
      → InRange 0x80 0xbf d
      → WellFormed rest
      → WellFormed (a ∷ b ∷ c ∷ d ∷ rest)
