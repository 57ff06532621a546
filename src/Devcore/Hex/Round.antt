-- ===== src/Devcore/Hex/Round.antt =====
-- libdevcore/CommonData.h and .cpp: what is written in hexadecimal is read back.
use lity.Prelude.{
  ℕ, suc, ◌+◌, ◌*◌, ◌/◌, ◌%◌, ◌≡◌, ◌<◌, refl, false, some, List, [], ◌∷◌, length, ltb, ◌==◌, ok,
  arith, Bool-cases, inl, inr,
}
use lity.Devcore.Hex.{
  WhenError, HexPrefix, dont_add, add, hex_digit, hex_number, to_hex_bytes, to_hex, from_hex_char,
  from_hex_pairs, skip_prefix, from_hex_digits, from_hex, char_x, pad,
}

abbrev pub AreBytes : List ℕ → Type 0
AreBytes [] = Unit
AreBytes (b ∷ bytes) = (b < 256) × AreBytes bytes

from_hex_char-hex_digit : (d : ℕ) → d < 16 → from_hex_char (hex_digit d) ≡ some d
unfolding from_hex_char hex_digit
from_hex_char-hex_digit d h = ground arith

-- Two digits are written for every byte.
two_digits : (b : ℕ) → b < 256 → pad 2 (hex_number b) ≡ hex_digit (b / 16) ∷ hex_digit (b % 16) ∷ []
unfolding hex_number hex_digit
two_digits b h = elim (Bool-cases (ltb b 16)) [
  | inl t ↦
      let z : b / 16 ≡ 0 = ground arith in let r : b % 16 ≡ b = ground arith in rw (t, z, r) refl
  | inr t ↦ rw t refl
]

from_hex_pairs-to_hex_bytes :
    (bytes : List ℕ) → AreBytes bytes → from_hex_pairs (to_hex_bytes 2 bytes) ≡ some bytes
unfolding to_hex_bytes from_hex_pairs
from_hex_pairs-to_hex_bytes [] h = refl
from_hex_pairs-to_hex_bytes (b ∷ bytes) (h, hs) =
    let rest = from_hex_pairs-to_hex_bytes bytes hs in
    let high = from_hex_char-hex_digit (b / 16) (omega arith) in
    let low = from_hex_char-hex_digit (b % 16) (omega arith) in
    let whole : (b / 16 * 16 + b % 16) % 256 ≡ b = omega arith in
    rw (two_digits b h, from_hex_pairs, high, low, rest, whole) refl

even_length : (bytes : List ℕ) → AreBytes bytes → length (to_hex_bytes 2 bytes) % 2 ≡ 0
unfolding to_hex_bytes
even_length [] h = refl
even_length (b ∷ bytes) (h, hs) =
    let rest = even_length bytes hs in rw (two_digits b h) (omega arith)

no_prefix : (d : ℕ) → d < 16 → (hex_digit d == char_x) ≡ false
unfolding hex_digit
no_prefix d h = ground arith

skip_prefix-to_hex_bytes :
    (bytes : List ℕ) → AreBytes bytes → skip_prefix (to_hex_bytes 2 bytes) ≡ to_hex_bytes 2 bytes
unfolding to_hex_bytes
skip_prefix-to_hex_bytes [] h = refl
skip_prefix-to_hex_bytes (b ∷ bytes) (h, hs) =
    let n = no_prefix (b % 16) (omega arith) in rw (two_digits b h, n) (ground arith)

-- Bytes that are written in hexadecimal, with the prefix or without, are read back, also by the reader
-- that throws.
pub from_hex-to_hex :
    (bytes : List ℕ) (prefix : HexPrefix) (when : WhenError)
    → AreBytes bytes
    → from_hex (to_hex bytes 2 prefix) when ≡ ok bytes
unfolding from_hex to_hex from_hex_digits
from_hex-to_hex bytes dont_add when h =
    let even : (length (to_hex_bytes 2 bytes) % 2 == 1) ≡ false =
      let e = even_length bytes h in ground arith in
    rw
      (skip_prefix-to_hex_bytes bytes h, even, from_hex_digits, from_hex_pairs-to_hex_bytes bytes h)
      refl
from_hex-to_hex bytes add when h =
    let even : (suc (suc (length (to_hex_bytes 2 bytes))) % 2 == 1) ≡ false =
      let e = even_length bytes h in ground arith in
    rw (even, from_hex_digits, from_hex_pairs-to_hex_bytes bytes h) refl
