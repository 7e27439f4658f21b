-- ===== src/Case/Words.antt =====
-- What util/case.go does to the words of a title.
use magellan.Base.{
  ℕ, ◌≡◌, refl, ap, Bool, true, false, ◌||◌, List, [], ◌∷◌, ◌++◌, if◌then◌else◌, Bool-cases, inl,
  inr,
}
use magellan.Case.{is_separator, pascal_from, to_pascal_case}

-- The words between the separators: the first one and the others. A word may be empty.
abbrev pub split : List ℕ → List ℕ × List (List ℕ)
split [] = ([], [])
split (r ∷ rs) = let w = split rs in if is_separator r then ([], w.0 ∷ w.1) else (r ∷ w.0, w.1)

abbrev pub capitalize : (ℕ → ℕ) → List ℕ → List ℕ
capitalize upper [] = []
capitalize upper (r ∷ rs) = upper r ∷ rs

abbrev pub capitalized : (ℕ → ℕ) → List (List ℕ) → List ℕ
capitalized upper [] = []
capitalized upper (w ∷ ws) = capitalize upper w ++ capitalized upper ws

-- The loop in a word, and at the start of one, which the flags `first` and `next_upper` tell apart.
pascal_from-split :
    (upper : ℕ → ℕ) (rs : List ℕ)
    → (pascal_from upper false false rs ≡ (split rs).0 ++ capitalized upper (split rs).1)
      × ((first next_upper : Bool)
          → (first || next_upper) ≡ true
          → pascal_from upper first next_upper rs
            ≡ capitalize upper (split rs).0 ++ capitalized upper (split rs).1)
unfolding pascal_from
pascal_from-split upper [] = (refl, λ first next_upper h. refl)
pascal_from-split upper (r ∷ rs) = elim (Bool-cases (is_separator r)) [
  | inl e ↦ (
    rw (pascal_from, e) ((pascal_from-split upper rs).1 false true refl),
    λ first next_upper h. rw (pascal_from, e) ((pascal_from-split upper rs).1 false true refl),
  )
  | inr e ↦ (
    rw (pascal_from, e) (ap (λ xs. r ∷ xs) (pascal_from-split upper rs).0),
    λ first next_upper h.
        rw (pascal_from, e, h) (ap (λ xs. upper r ∷ xs) (pascal_from-split upper rs).0),
  )
]

-- `ToPascalCase` is the words between underscores and spaces, each with its first letter in upper
-- case, one after the other.
pub to_pascal_case_words :
    (upper : ℕ → ℕ) (title : List ℕ)
    → to_pascal_case upper title
      ≡ capitalize upper (split title).0 ++ capitalized upper (split title).1
unfolding to_pascal_case
to_pascal_case_words upper title = (pascal_from-split upper title).1 true false refl
