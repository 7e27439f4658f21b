-- ===== src/Case.antt =====
-- util/case.go: `ToPascalCase` on the code points that `range` reads from the title. `upper` is
-- `unicode.ToUpper` of the standard library.
pub mod Words
use magellan.Base.{ℕ, Bool, true, false, ◌||◌, List, [], ◌∷◌, ◌==◌, if◌then◌else◌}

abbrev pub is_separator : ℕ → Bool
is_separator r = r == 95 || r == 32

-- The loop from a rune on: whether it is the title's first, and `nextUpper`.
unfoldable pub pascal_from : (ℕ → ℕ) → Bool → Bool → List ℕ → List ℕ
pascal_from upper first next_upper [] = []
pascal_from upper first next_upper (r ∷ rs) =
    let after_separator = pascal_from upper false true rs in
    let after_letter = pascal_from upper false false rs in
    if is_separator r
    then after_separator
    else (if first || next_upper then upper r else r) ∷ after_letter

unfoldable pub to_pascal_case : (ℕ → ℕ) → List ℕ → List ℕ
unfolding pascal_from
to_pascal_case upper title = pascal_from upper true false title
