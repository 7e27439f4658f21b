-- ===== src/Base/Texts.antt =====
-- Go's package strings, on the code points of a text.
use Prim.Native.Char.{code}
use Prim.Native.Nat.{ℕ}
use Prim.Native.String.{String}
use mathlib.Core.Path.{◌≡◌, refl}
use mathlib.Core.Logic.{inl, inr}
use mathlib.Core.Bool.{Bool, true, false, ◌&&◌}
use mathlib.Core.List.{List, [], ◌∷◌, ◌++◌}
use native.Mathlib.Omega.{arith}
use magellan.Base.Tests.{◌==◌, Bool-cases, if◌then◌else◌}
use magellan.Base.Lists.{length, length-append}

-- The code points of a text.
abbrev pub codes : String → List ℕ
codes String.[] = []
codes (String.◌∷◌ c s) = code c ∷ codes s

unfoldable pub same_text : List ℕ → List ℕ → Bool
same_text [] [] = true
same_text (a ∷ s) (b ∷ t) = a == b && same_text s t
same_text _ _ = false

-- `strings.HasPrefix`
unfoldable pub has_prefix : List ℕ → List ℕ → Bool
has_prefix s [] = true
has_prefix (a ∷ s) (b ∷ t) = a == b && has_prefix s t
has_prefix [] (b ∷ t) = false

-- `strings.TrimSuffix`
unfoldable pub trim_suffix : List ℕ → List ℕ → List ℕ
unfolding same_text
trim_suffix [] suffix = []
trim_suffix (a ∷ s) suffix = if same_text (a ∷ s) suffix then [] else a ∷ trim_suffix s suffix

same_text-length : (s t : List ℕ) → same_text s t ≡ true → length s ≡ length t
unfolding same_text
same_text-length [] [] h = refl
same_text-length (a ∷ s) (b ∷ t) h = ground (arith, same_text-length s t)
same_text-length [] (b ∷ t) h = absurd (cc h)
same_text-length (a ∷ s) [] h = absurd (cc h)

same_text_self : (s : List ℕ) → same_text s s ≡ true
unfolding same_text
same_text_self [] = refl
same_text_self (a ∷ s) = ground (arith, same_text_self s)

-- The suffix is taken off.
pub trim_suffix-append : (s t : List ℕ) → trim_suffix (s ++ t) t ≡ s
unfolding trim_suffix
trim_suffix-append [] [] = refl
trim_suffix-append [] (b ∷ t) = ground (arith, same_text_self (b ∷ t))
trim_suffix-append (a ∷ s) t = elim (Bool-cases (same_text (a ∷ s ++ t) t)) [
  | inl e ↦ absurd (omega (arith, same_text-length (a ∷ s ++ t) t e, length-append s t))
  | inr e ↦ ground (arith, e, trim_suffix-append s t)
]
