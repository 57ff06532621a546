-- ===== src/Evmasm/AssemblyItem/Order.antt =====
-- libevmasm/AssemblyItem.h: `operator==` and `operator<`.
use lity.Prelude.{◌≡◌, true, false, ◌&&◌, not, arith}
use lity.Evmasm.AssemblyItem.{AssemblyItem, item_eq, item_lt}

-- Two items are equal exactly when neither is less than the other.
pub item_eq-item_lt : (a b : AssemblyItem) → item_eq a b ≡ (not (item_lt a b) && not (item_lt b a))
unfolding item_eq item_lt
item_eq-item_lt a b = ground arith

-- No item is less than itself, and the order is transitive.
pub item_lt_strict :
    (a b c : AssemblyItem)
    → item_lt a b ≡ true
    → item_lt b c ≡ true
    → (item_lt a c ≡ true) × (item_lt a a ≡ false)
unfolding item_lt
item_lt_strict a b c h k = ground arith
