-- ===== src/Devcore/StringUtils/Join.antt =====
-- libdevcore/StringUtils.h: what joined lists look like.
use mathlib.Core.List.{append_assoc, append-nil}
use lity.Prelude.{ℕ, ◌≡◌, refl, sym, ◌∙◌, false, List, [], ◌∷◌, ◌++◌}
use lity.Devcore.StringUtils.{join_loop, join_human_readable}

-- The elements with a separator between each two.
unfoldable pub intercalate : List ℕ → List (List ℕ) → List ℕ
intercalate separator [] = []
intercalate separator (x ∷ []) = x
intercalate separator (x ∷ (y ∷ ys)) = x ++ (separator ++ intercalate separator (y ∷ ys))

-- What the loop adds when something stands before the elements.
after : List ℕ → List (List ℕ) → List ℕ
after separator [] = []
after separator (x ∷ xs) = separator ++ (x ++ after separator xs)

after-intercalate :
    (separator x : List ℕ) (xs : List (List ℕ))
    → intercalate separator (x ∷ xs) ≡ x ++ after separator xs
unfolding intercalate after
after-intercalate separator x [] = sym (append-nil x)
after-intercalate separator x (y ∷ ys) = rw (after-intercalate separator y ys) refl

join_loop-plain :
    (separator result : List ℕ) (xs : List (List ℕ))
    → join_loop separator [] false result xs ≡ result ++ after separator xs
unfolding join_loop after
join_loop-plain separator result [] = sym (append-nil result)
join_loop-plain separator result (x ∷ []) = simp (append_assoc, append-nil)
join_loop-plain separator result (x ∷ (y ∷ ys)) =
    join_loop-plain separator (result ++ separator ++ x) (y ∷ ys) ∙ simp append_assoc

join_loop-last :
    (separator result : List ℕ) (c : ℕ) (cs : List ℕ) (xs : List (List ℕ)) (z : List ℕ)
    → join_loop separator (c ∷ cs) false result (xs ++ (z ∷ []))
      ≡ result ++ (after separator xs ++ ((c ∷ cs) ++ z))
unfolding join_loop after
join_loop-last separator result c cs [] z = simp append_assoc
join_loop-last separator result c cs (x ∷ []) z = simp (append_assoc, append-nil)
join_loop-last separator result c cs (x ∷ (y ∷ ys)) z =
    join_loop-last separator (result ++ separator ++ x) c cs (y ∷ ys) z ∙ simp append_assoc

-- Without a last separator, or for one element, the separator stands between each two elements. A
-- last separator that is not empty stands before the last of two or more elements instead.
pub join_human_readable-intercalate :
    (separator : List ℕ) (c : ℕ) (cs x z : List ℕ) (xs : List (List ℕ))
    → (join_human_readable (x ∷ xs) separator [] ≡ intercalate separator (x ∷ xs))
      × (join_human_readable (x ∷ []) separator (c ∷ cs) ≡ x)
      × (join_human_readable ((x ∷ xs) ++ (z ∷ [])) separator (c ∷ cs)
          ≡ intercalate separator (x ∷ xs) ++ ((c ∷ cs) ++ z))
unfolding join_human_readable join_loop
join_human_readable-intercalate separator c cs x z xs = (
  join_loop-plain separator x xs ∙ sym (after-intercalate separator x xs),
  refl,
  join_loop-last separator x c cs xs z ∙ rw (after-intercalate separator x xs) (simp append_assoc),
)
