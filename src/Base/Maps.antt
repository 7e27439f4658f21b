-- ===== src/Base/Maps.antt =====
-- Go's maps as association lists. A key is bound once: `insert` deletes the old binding.
use Prim.Native.Nat.{ℕ}
use Prim.Native.String.{String}
use mathlib.Core.Path.{◌≡◌, refl}
use mathlib.Core.Logic.{ite, inl, inr}
use mathlib.Core.Bool.{Bool}
use mathlib.Core.List.{List, [], ◌∷◌}
use mathlib.Core.Option.{Option, none, some}
use native.Mathlib.Omega.{arith}
use native.Mathlib.Decide.{ℕ_discrete}
use text.Mathlib.Text.{◌==◌ as str_eq}
use text.Mathlib.TextEquality.{eq_iff}
use magellan.Base.Tests.{Bool-cases, when, opt_map, if◌then◌else◌}

String-discrete : Discrete String
String-discrete a b = elim (Bool-cases (str_eq a b)) [
  | inl e ↦ yes ((eq_iff a b).0 e)
  | inr e ↦ no (λ p. cc (e, (eq_iff a b).1 p))
]

-- The keys of a map are compared by `==`.
pub record Key {ℓ} (K : Type ℓ) : Type ℓ where
  pub dec : Discrete K

instance unfoldable pub nat_key : Key ℕ
unfolding ℕ_discrete
nat_key = record { dec = ℕ_discrete }

instance unfoldable pub string_key : Key String
unfolding String-discrete Bool-cases
string_key = record { dec = String-discrete }

module _ {ℓ} {K V : Type ℓ} ⦃e : Key K⦄ where
  -- `v, ok := m[k]`
  unfoldable pub lookup : K → List (K × V) → Option V
  lookup k [] = none
  lookup k ((j, v) ∷ m) = ite (e.dec j k) (some v) (lookup k m)

  -- `delete(m, k)`
  unfoldable pub delete : K → List (K × V) → List (K × V)
  delete k [] = []
  delete k ((j, v) ∷ m) = ite (e.dec j k) (delete k m) ((j, v) ∷ delete k m)

  -- `m[k] = v`
  unfoldable pub insert : K → V → List (K × V) → List (K × V)
  insert k v m = (k, v) ∷ delete k m

  pub lookup-nil : (k : K) → lookup k [] ≡ none
  unfolding lookup
  lookup-nil k = refl

  pub lookup-delete :
      (j k : K) (m : List (K × V)) → lookup j (delete k m) ≡ ite (e.dec k j) none (lookup j m)
  unfolding lookup delete
  lookup-delete j k [] = ground arith
  lookup-delete j k ((i, w) ∷ m) = ground (arith, lookup-delete j k m)

  pub lookup-insert :
      (j k : K) (v : V) (m : List (K × V))
      → lookup j (insert k v m) ≡ ite (e.dec k j) (some v) (lookup j m)
  unfolding lookup insert
  lookup-insert j k v m = ground (arith, lookup-delete j k m)

  -- Every key is bound once.
  abbrev pub IsMap : List (K × V) → Type ℓ
  IsMap [] = Unit
  IsMap ((k, v) ∷ m) = (lookup k m ≡ none) × IsMap m

  delete-IsMap : (k : K) (m : List (K × V)) → IsMap m → IsMap (delete k m)
  unfolding delete
  delete-IsMap k [] h = tt
  delete-IsMap k ((j, v) ∷ m) h = ground (arith, delete-IsMap k m h.1, lookup-delete j k m)

  pub insert-IsMap : (k : K) (v : V) (m : List (K × V)) → IsMap m → IsMap (insert k v m)
  unfolding insert
  insert-IsMap k v m h = (ground (arith, lookup-delete k k m), delete-IsMap k m h)

  -- `for k, v := range m { if !keep(v) { delete(m, k) } }`
  unfoldable pub retain : (V → Bool) → List (K × V) → List (K × V)
  retain keep [] = []
  retain keep ((k, v) ∷ m) = if keep v then (k, v) ∷ retain keep m else retain keep m

  pub lookup-retain :
      (keep : V → Bool) (k : K) (m : List (K × V))
      → IsMap m
      → lookup k (retain keep m) ≡ when keep (lookup k m)
  unfolding lookup retain
  lookup-retain keep k [] h = refl
  lookup-retain keep k ((j, v) ∷ m) h = ground (arith, lookup-retain keep k m h.1)

  pub retain-IsMap : (keep : V → Bool) (m : List (K × V)) → IsMap m → IsMap (retain keep m)
  unfolding retain
  retain-IsMap keep [] h = tt
  retain-IsMap keep ((k, v) ∷ m) h =
      ground (arith, retain-IsMap keep m h.1, lookup-retain keep k m h.1)

  -- A write through a pointer.
  unfoldable pub modify : K → (V → V) → List (K × V) → List (K × V)
  modify k f m = elim (lookup k m) [ none ↦ m | some v ↦ insert k (f v) m ]

  pub lookup-modify :
      (j k : K) (f : V → V) (m : List (K × V))
      → lookup j (modify k f m) ≡ ite (e.dec k j) (opt_map f (lookup j m)) (lookup j m)
  unfolding modify
  lookup-modify j k f m = grind (arith, lookup-insert)
