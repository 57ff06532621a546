-- ===== src/Devcore/CommonData/BigEndian.antt =====
-- libdevcore/CommonData.h: numbers as big-endian bytes, and back.
use lity.Prelude.{
  ℕ, zero, suc, ◌+◌, ◌*◌, ◌/◌, ◌%◌, ◌^◌, ◌≤◌, ◌<◌, ◌≡◌, refl, ap, ◌∙◌, max, bit_or, List, [], ◌∷◌,
  ◌++◌, length, length-append, arith,
}
use native.Mathlib.Nat.{pow-suc, pow-le-pow_right, le_trans}
use lity.Prelude.Bits.{bit_or_comm, bit_or-shift}
use lity.Devcore.CommonData.{
  bytes_required, to_big_endian, from_big_endian_loop, from_big_endian, to_compact_big_endian,
}
use lity.Devcore.CommonData.Size.{lt-pow-bytes_required}

pub length-to_big_endian : (size v : ℕ) → length (to_big_endian size v) ≡ size
unfolding to_big_endian
length-to_big_endian zero v = refl
length-to_big_endian (suc size) v = omega (
  arith,
  length-append {0} (to_big_endian size (v / 256)) (v % 256 ∷ []),
  length-to_big_endian size (v / 256),
)

-- A byte fills the place that the shift makes.
shift_byte : (r b : ℕ) → b < 2 ^ 8 → bit_or (r * 2 ^ 8) b ≡ r * 256 + b
shift_byte r b h = omega (arith, bit_or_comm (r * 2 ^ 8) b, bit_or-shift 8 b r h)

from_loop-append :
    (r : ℕ) (xs ys : List ℕ)
    → from_big_endian_loop r (xs ++ ys) ≡ from_big_endian_loop (from_big_endian_loop r xs) ys
unfolding from_big_endian_loop
from_loop-append r [] ys = refl
from_loop-append r (x ∷ xs) ys = from_loop-append (bit_or (r * 2 ^ 8 % 2 ^ 256) x) xs ys

from_loop-byte : (r b : ℕ) → r < 2 ^ 248 → b < 2 ^ 8 → from_big_endian_loop r (b ∷ []) ≡ r * 256 + b
unfolding from_big_endian_loop
from_loop-byte r b h k =
    let small : r * 2 ^ 8 % 2 ^ 256 ≡ r * 2 ^ 8 = omega arith in rw small (shift_byte r b k)

from_loop-to :
    (size v : ℕ) → v < 256 ^ size → v < 2 ^ 256 → from_big_endian_loop 0 (to_big_endian size v) ≡ v
unfolding to_big_endian
from_loop-to zero v h w = unfold from_big_endian_loop in omega arith
from_loop-to (suc size) v h w =
    let ih = from_loop-to size (v / 256) (omega (arith, pow-suc 256 size)) (omega arith) in
    from_loop-append 0 (to_big_endian size (v / 256)) (v % 256 ∷ [])
    ∙ ap (λ (t : ℕ). from_big_endian_loop t (v % 256 ∷ [])) ih
    ∙ from_loop-byte (v / 256) (v % 256) (omega arith) (omega arith)
    ∙ omega arith

-- A word is read back from its big-endian bytes, wherever the container is large enough.
pub from-to_big_endian :
    (size v : ℕ) → v < 256 ^ size → v < 2 ^ 256 → from_big_endian (to_big_endian size v) ≡ v
unfolding from_big_endian
from-to_big_endian size v h w = from_loop-to size v h w

-- The compact bytes of a word are read back as the word, and are as many as it requires, or as many as
-- are asked for at least.
pub to_compact_big_endian-round :
    (v least : ℕ)
    → v < 2 ^ 256
    → (from_big_endian (to_compact_big_endian v least) ≡ v)
      × (length (to_compact_big_endian v least) ≡ max least (bytes_required v))
unfolding to_compact_big_endian
to_compact_big_endian-round v least w =
    let size = max least (bytes_required v) in
    let more : bytes_required v ≤ size = omega arith in
    let fits = le_trans (lt-pow-bytes_required v) (pow-le-pow_right (omega arith) more) in
    (from-to_big_endian size v fits w, length-to_big_endian size v)
