-- ===== src/Devcore/Hex.antt =====
-- libdevcore/CommonData.h and .cpp: bytes as hexadecimal text. A character is its code.
pub mod Round
use lity.Prelude.{
  ℕ, zero, suc, ◌+◌, ◌-◌, ◌*◌, ◌/◌, ◌%◌, Bool, true, false, ◌&&◌, ◌||◌, not, Option, none, some,
  List, [], ◌∷◌, ◌++◌, length, replicate, ltb, leb, ◌==◌, if◌then◌else◌, Result, ok, err,
  bad_hex_character,
}

-- Whether a bad character throws.
pub data WhenError : Type 0 where
  dont_throw throw : WhenError

pub data HexPrefix : Type 0 where
  dont_add add : HexPrefix

abbrev pub char_0 : ℕ
char_0 = 48

abbrev pub char_x : ℕ
char_x = 120

-- A digit as a stream writes it in base 16.
unfoldable pub hex_digit : ℕ → ℕ
hex_digit d = if ltb d 10 then 48 + d else 87 + d

-- `std::hex` of a byte, padded with zeros to the width
unfoldable pub hex_number : ℕ → List ℕ
unfolding hex_digit
hex_number b = if ltb b 16 then hex_digit b ∷ [] else hex_digit (b / 16) ∷ hex_digit (b % 16) ∷ []

abbrev pub pad : ℕ → List ℕ → List ℕ
pad width digits = replicate (width - length digits) char_0 ++ digits

unfoldable pub to_hex_bytes : ℕ → List ℕ → List ℕ
unfolding hex_number
to_hex_bytes width [] = []
to_hex_bytes width (b ∷ bytes) = pad width (hex_number b) ++ to_hex_bytes 2 bytes

-- `toHex`: the width is that of the first byte.
unfoldable pub to_hex : List ℕ → ℕ → HexPrefix → List ℕ
unfolding to_hex_bytes
to_hex bytes width dont_add = to_hex_bytes width bytes
to_hex bytes width add = char_0 ∷ char_x ∷ to_hex_bytes width bytes

-- `fromHex` of a character that does not throw, none being -1
unfoldable pub from_hex_char : ℕ → Option ℕ
from_hex_char i =
    if leb 48 i && leb i 57
    then some (i - 48)
    else (if leb 97 i && leb i 102
        then some (i - 97 + 10)
        else (if leb 65 i && leb i 70 then some (i - 65 + 10) else none))

abbrev pub byte_of : Option ℕ → Option ℕ → Option ℕ
byte_of (some h) (some l) = some ((h * 16 + l) % 256)
byte_of _ _ = none

abbrev pub cons_byte : Option ℕ → Option (List ℕ) → Option (List ℕ)
cons_byte (some b) (some bytes) = some (b ∷ bytes)
cons_byte _ _ = none

-- The loop over pairs, none being a bad character.
unfoldable pub from_hex_pairs : List ℕ → Option (List ℕ)
unfolding from_hex_char
from_hex_pairs [] = some []
from_hex_pairs (c ∷ []) = none
from_hex_pairs (c ∷ c' ∷ s) =
    cons_byte (byte_of (from_hex_char c) (from_hex_char c')) (from_hex_pairs s)

abbrev pub skip_prefix : List ℕ → List ℕ
skip_prefix (c ∷ c' ∷ s) = if c == char_0 && c' == char_x then s else c ∷ c' ∷ s
skip_prefix s = s

-- With an odd number of characters the first is a byte of its own.
unfoldable pub from_hex_digits : Bool → List ℕ → Option (List ℕ)
unfolding from_hex_pairs
from_hex_digits true (c ∷ s) = cons_byte (from_hex_char c) (from_hex_pairs s)
from_hex_digits true [] = none
from_hex_digits false s = from_hex_pairs s

abbrev pub or_error : WhenError → Option (List ℕ) → Result (List ℕ)
or_error when (some bytes) = ok bytes
or_error throw none = err bad_hex_character
or_error dont_throw none = ok []

-- `fromHex` of a text
unfoldable pub from_hex : List ℕ → WhenError → Result (List ℕ)
unfolding from_hex_digits
from_hex s when = or_error when (from_hex_digits (length s % 2 == 1) (skip_prefix s))
