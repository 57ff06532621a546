-- ===== src/Devcore/Utf8.antt =====
-- libdevcore/UTF8.cpp: which bytes are UTF-8, and where they stop being it.
pub mod Table
pub mod Reading
pub mod Rounds
pub mod Steps
pub mod Valid
pub mod Position
use lity.Prelude.{
  ℕ, zero, suc, ◌+◌, ◌-◌, Bool, true, false, ◌&&◌, ◌||◌, not, Option, none, some, List, length,
  get_or, ltb, leb, ◌==◌, if◌then◌else◌, bit_and,
}

abbrev pub within : ℕ → ℕ → ℕ → Bool
within low high b = leb low b && leb b high

-- `isWellFormed`, on the first byte of a sequence and the second
unfoldable pub is_well_formed : ℕ → ℕ → Bool
is_well_formed byte1 byte2 =
    if (byte1 == 0xc0) || (byte1 == 0xc1)
    then false
    else if within 0xc2 0xdf byte1
    then true
    else if byte1 == 0xe0
    then (if ltb byte2 0xa0 then false else true)
    else if within 0xe1 0xec byte1
    then true
    else if byte1 == 0xed
    then (if ltb 0x9f byte2 then false else true)
    else if (byte1 == 0xee) || (byte1 == 0xef)
    then true
    else if byte1 == 0xf0
    then (if ltb byte2 0x90 then false else true)
    else if within 0xf1 0xf3 byte1
    then true
    else if byte1 == 0xf4
    then (if ltb 0x8f byte2 then false else true)
    else false

-- `count`: how many bytes follow the first one.
unfoldable pub count_of : ℕ → ℕ
count_of byte =
    if within 0xc0 0xdf byte
    then 1
    else if within 0xe0 0xef byte
    then 2
    else if within 0xf0 0xf7 byte
    then 3
    else 0

abbrev pub is_continuation : ℕ → Bool
is_continuation byte = bit_and byte 0xc0 == 0x80

module _ (input : List ℕ) where
  -- What the terminating 0 of `c_str()` lets one read just behind the input is never read.
  abbrev pub at : ℕ → ℕ
  at i = get_or input i 0

  -- The inner loop from its round `j` on: whether `valid` is kept, and `i` after it.
  unfoldable pub continuations : ℕ → ℕ → ℕ → Bool × ℕ
  continuations zero j i = (true, i)
  continuations (suc rounds) j i =
      let next = i + 1 in
      let rest = continuations rounds (suc j) next in
      if not (is_continuation (at next))
      then (false, next)
      else if (j == 0) && not (is_well_formed (at (next - 1)) (at next))
      then (false, next)
      else rest

  -- The outer loop's body: none if it leaves the loop, and else as the inner loop.
  unfoldable pub round : ℕ → Option (Bool × ℕ)
  round i =
      let count = count_of (at i) in
      if ltb (at i) 0x80
      then some (true, i)
      else if count == 0
      then none
      else if leb (length input) (i + count)
      then none
      else some (continuations count 0 i)

  -- The outer loop, none if the fuel is not enough.
  unfoldable pub scan : ℕ → Bool → ℕ → Option (Bool × ℕ)
  scan zero valid i = none
  scan (suc fuel) valid i =
      if ltb i (length input)
      then (elim (round i) [
        | none ↦ some (false, i)
        | some (kept, last) ↦ scan fuel (valid && kept) (last + 1)
      ])
      else some (valid, i)

-- What is done after the loop.
unfoldable pub report : Option (Bool × ℕ) → Option (Bool × Option ℕ)
report none = none
report (some (true, i)) = some (true, none)
report (some (false, i)) = some (false, some i)

-- `validateUTF8`: whether the input is valid, and if not, the position that is reported.
unfoldable pub validate_utf8 : List ℕ → Option (Bool × Option ℕ)
validate_utf8 input = report (scan input (length input + 1) true 0)
