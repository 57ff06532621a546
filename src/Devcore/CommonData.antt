-- ===== src/Devcore/CommonData.antt =====
-- libdevcore/CommonData.h and .cpp: numbers as big-endian bytes, and bytes as hexadecimal text.
pub mod Size
pub mod BigEndian
use lity.Prelude.{
  ℕ, zero, suc, ◌+◌, ◌-◌, ◌*◌, ◌/◌, ◌%◌, ◌^◌, max, bit_or, Bool, true, false, List, [], ◌∷◌, ◌++◌,
  ◌==◌, if◌then◌else◌,
}

-- `for (; _i != 0; ++i, _i >>= 8) {}` with fuel; what a `let` binds waits for the test.
unfoldable pub bytes_required_loop : ℕ → ℕ → ℕ
bytes_required_loop zero v = 0
bytes_required_loop (suc fuel) v =
    let rest = bytes_required_loop fuel (v / 256) in if v == 0 then 0 else suc rest

-- `bytesRequired`. The number itself is fuel enough, since each round divides it by 256.
unfoldable pub bytes_required : ℕ → ℕ
unfolding bytes_required_loop
bytes_required v = bytes_required_loop v v

-- `toBigEndian(_val, o_out)` into a container of the given size, last byte first
unfoldable pub to_big_endian : ℕ → ℕ → List ℕ
to_big_endian zero v = []
to_big_endian (suc size) v = to_big_endian size (v / 256) ++ (v % 256 ∷ [])

-- `fromBigEndian<u256>`: the shift drops what leaves the 256 bits.
unfoldable pub from_big_endian_loop : ℕ → List ℕ → ℕ
from_big_endian_loop ret [] = ret
from_big_endian_loop ret (b ∷ bytes) = from_big_endian_loop (bit_or (ret * 2 ^ 8 % 2 ^ 256) b) bytes

unfoldable pub from_big_endian : List ℕ → ℕ
unfolding from_big_endian_loop
from_big_endian bytes = from_big_endian_loop 0 bytes

-- `toCompactBigEndian`
unfoldable pub to_compact_big_endian : ℕ → ℕ → List ℕ
unfolding bytes_required to_big_endian
to_compact_big_endian v least = to_big_endian (max least (bytes_required v)) v
