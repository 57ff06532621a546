-- ===== src/Prelude/Modulo.antt =====
-- Products modulo a number.
use Prim.Native.Nat.{ℕ, ◌+◌, ◌*◌, ◌/◌, ◌%◌}
use mathlib.Core.Path.{◌≡◌, ap, sym, ◌∙◌}
use native.Mathlib.Omega.{arith}
use native.Mathlib.Nat.{mod-add-div', add-mul-mod_self_right}

pub mod-mul-mod : (m a b : ℕ) → a % m * b % m ≡ a * b % m
mod-mul-mod m a b =
    let e : a * b ≡ a % m * b + a / m * b * m = grind (arith, mod-add-div' a m) in
    sym (add-mul-mod_self_right (a % m * b) (a / m * b) m) ∙ ap (λ (t : ℕ). t % m) (sym e)

pub mul-mod-mod : (m a b : ℕ) → a * (b % m) % m ≡ a * b % m
mul-mod-mod m a b =
    ap (λ (t : ℕ). t % m) (omega arith) ∙ mod-mul-mod m b a ∙ ap (λ (t : ℕ). t % m) (omega arith)

-- Products of words are associative and commutative.
pub mul-assoc_mod : (m x a b : ℕ) → x * a % m * b % m ≡ x * (a * b % m) % m
mul-assoc_mod m x a b =
    mod-mul-mod m (x * a) b ∙ ap (λ (t : ℕ). t % m) (grind arith) ∙ sym (mul-mod-mod m x (a * b))
