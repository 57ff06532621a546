-- ===== src/Devcore/CommonData/Size.antt =====
-- libdevcore/CommonData.h: `bytesRequired` is the least number of bytes that hold a number.
use native.Mathlib.Nat.{pow-suc, pow-le-pow_right, le_trans}
use lity.Prelude.{ℕ, zero, suc, ◌/◌, ◌≤◌, ◌<◌, ◌^◌, ◌↔◌, arith}
use lity.Devcore.CommonData.{bytes_required_loop, bytes_required}

-- As many bytes as hold a number are enough, whatever the fuel.
loop-le : (k fuel v : ℕ) → v < 256 ^ k → bytes_required_loop fuel v ≤ k
unfolding bytes_required_loop
loop-le k zero v h = omega arith
loop-le zero (suc fuel) zero h = omega arith
loop-le zero (suc fuel) (suc v) h = absurd (omega arith)
loop-le (suc k) (suc fuel) v h = ground (arith, loop-le k fuel (v / 256), pow-suc 256 k)

-- With fuel for the number the loop ends by its test, and the bytes counted hold the number.
lt-pow-loop : (fuel v : ℕ) → v ≤ fuel → v < 256 ^ bytes_required_loop fuel v
unfolding bytes_required_loop
lt-pow-loop zero v h = omega arith
lt-pow-loop (suc fuel) v h =
    ground (arith, lt-pow-loop fuel (v / 256), pow-suc 256 (bytes_required_loop fuel (v / 256)))

pub bytes_required-le : (k v : ℕ) → v < 256 ^ k → bytes_required v ≤ k
unfolding bytes_required
bytes_required-le k v h = loop-le k v v h

pub lt-pow-bytes_required : (v : ℕ) → v < 256 ^ bytes_required v
unfolding bytes_required
lt-pow-bytes_required v = lt-pow-loop v v (omega arith)

-- `bytesRequired` is at most a number of bytes exactly when that many bytes hold the value.
pub bytes_required_iff : (k v : ℕ) → (bytes_required v ≤ k) ↔ (v < 256 ^ k)
bytes_required_iff k v = (
  (λ h. le_trans (lt-pow-bytes_required v) (pow-le-pow_right (omega arith) h)),
  bytes_required-le k v,
)
