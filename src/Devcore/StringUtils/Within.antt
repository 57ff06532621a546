-- ===== src/Devcore/StringUtils/Within.antt =====
-- libdevcore/StringUtils.cpp: which names are offered in place of another.
use lity.Prelude.{ℕ, ◌≡◌, refl, true, List, [], ◌∷◌, arith}
use lity.Devcore.StringUtils.{string_eq}

pub string_eq_sound : (s t : List ℕ) → string_eq s t ≡ true → s ≡ t
unfolding string_eq
string_eq_sound [] [] h = refl
string_eq_sound [] (d ∷ ds) h = absurd (ground arith)
string_eq_sound (c ∷ cs) [] h = absurd (ground arith)
string_eq_sound (c ∷ cs) (d ∷ ds) h = ground (arith, string_eq_sound cs ds)

pub string_eq_self : (s : List ℕ) → string_eq s s ≡ true
unfolding string_eq
string_eq_self [] = refl
string_eq_self (c ∷ cs) = ground (arith, string_eq_self cs)
