-- ===== src/Evmasm/SourceLocation.antt =====
-- libevmasm/SourceLocation.h: an interval of source positions, its start included and its end not.
use text.Mathlib.Text.{◌==◌ as str_eq}
use lity.Prelude.{
  String, Bool, true, false, Option, none, some, ◌&&◌, ◌||◌, ◌==◌, not, if◌then◌else◌,
}
use lity.Prelude.Int.{ℤ, negsuc, pos_part, neg_part, ltb_ℤ}

-- `struct SourceLocation`
pub record SourceLocation : Type 0 where
  pub start : ℤ
  pub end : ℤ
  pub source_name : Option String

-- `SourceLocation()`
abbrev pub no_location : SourceLocation
no_location = record { start = negsuc 0; end = negsuc 0; source_name = none }

abbrev eq_ℤ : ℤ → ℤ → Bool
eq_ℤ a b = (pos_part a == pos_part b) && (neg_part a == neg_part b)

-- both null, or both given and equal
abbrev same_name : Option String → Option String → Bool
same_name none none = true
same_name none (some _) = false
same_name (some _) none = false
same_name (some s) (some t) = str_eq s t

-- `operator==`
unfoldable pub location_eq : SourceLocation → SourceLocation → Bool
location_eq l other =
    eq_ℤ l.start other.start && eq_ℤ l.end other.end && same_name l.source_name other.source_name

-- `isEmpty`
unfoldable pub is_empty : SourceLocation → Bool
is_empty l = eq_ℤ l.start (negsuc 0) && eq_ℤ l.end (negsuc 0)

abbrev leb_ℤ : ℤ → ℤ → Bool
leb_ℤ a b = not (ltb_ℤ b a)

unfoldable pub contains : SourceLocation → SourceLocation → Bool
unfolding is_empty
contains l other =
    if is_empty l || is_empty other || not (same_name l.source_name other.source_name)
    then false
    else leb_ℤ l.start other.start && leb_ℤ other.end l.end

unfoldable pub intersects : SourceLocation → SourceLocation → Bool
unfolding is_empty
intersects l other =
    if is_empty l || is_empty other || not (same_name l.source_name other.source_name)
    then false
    else ltb_ℤ other.start l.end && ltb_ℤ l.start other.end
