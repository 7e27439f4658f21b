-- ===== src/Qtree/Tree/Erase.antt =====
-- The list of children without one of them.
use magellan.Base.{
  ℕ, ◌≡◌, ◌≢◌, refl, false, some, List, [], ◌∷◌, ◌++◌, All, length, get_elem?, arith, ◌==◌,
  Bool-cases, inl, inr, ==_iff,
}
use magellan.Qtree.Tree.{erase, contains}

abbrev pub Distinct : List ℕ → Type 0
Distinct [] = Unit
Distinct (x ∷ xs) = All (λ y. y ≢ x) xs × Distinct xs

pub erase_absent : (c : ℕ) (xs : List ℕ) → contains c xs ≡ false → erase c xs ≡ xs
unfolding erase contains
erase_absent c [] h = refl
erase_absent c (x ∷ xs) h = ground (arith, erase_absent c xs)

pub erase_ne : (c : ℕ) (xs : List ℕ) → All (λ y. y ≢ c) xs → erase c xs ≡ xs
unfolding erase
erase_ne c [] h = refl
erase_ne c (x ∷ xs) h = ground (arith, erase_ne c xs h.1, h.0)

pub All-map {κ} : {P Q : ℕ → Type κ} (xs : List ℕ) → ((x : ℕ) → P x → Q x) → All P xs → All Q xs
All-map [] f h = tt
All-map (x ∷ xs) f h = (f x h.0, All-map xs f h.1)

pub All-zip {κ} :
    {P Q R : ℕ → Type κ} (xs : List ℕ)
    → ((x : ℕ) → P x → Q x → R x)
    → All P xs
    → All Q xs
    → All R xs
All-zip [] f h k = tt
All-zip (x ∷ xs) f h k = (f x h.0 k.0, All-zip xs f h.1 k.1)

pub All-erase {κ} : (P : ℕ → Type κ) (c : ℕ) (xs : List ℕ) → All P xs → All P (erase c xs)
unfolding erase
All-erase P c [] h = tt
All-erase P c (x ∷ xs) h = elim (Bool-cases (x == c)) [
  | inl e ↦ rw e h.1
  | inr e ↦ rw e (h.0, All-erase P c xs h.1)
]

pub Distinct-erase : (c : ℕ) (xs : List ℕ) → Distinct xs → Distinct (erase c xs)
unfolding erase
Distinct-erase c [] h = tt
Distinct-erase c (x ∷ xs) h = elim (Bool-cases (x == c)) [
  | inl e ↦ rw e h.1
  | inr e ↦ rw e (All-erase (λ y. y ≢ x) c xs h.0, Distinct-erase c xs h.1)
]

pub ne-erase : (c : ℕ) (xs : List ℕ) → Distinct xs → All (λ y. y ≢ c) (erase c xs)
unfolding erase
ne-erase c [] h = tt
ne-erase c (x ∷ xs) h = elim (Bool-cases (x == c)) [
  | inl e ↦ rw e (All-map xs (λ y n p. n (ground (arith, ==_iff x c))) h.0)
  | inr e ↦ rw e (λ p. ground (arith, ==_iff x c), ne-erase c xs h.1)
]

pub All-append_left {κ} : (P : ℕ → Type κ) (xs ys : List ℕ) → All P (xs ++ ys) → All P xs
All-append_left P [] ys h = tt
All-append_left P (x ∷ xs) ys h = (h.0, All-append_left P xs ys h.1)

pub All-append_right {κ} : (P : ℕ → Type κ) (xs ys : List ℕ) → All P (xs ++ ys) → All P ys
All-append_right P [] ys h = h
All-append_right P (x ∷ xs) ys h = All-append_right P xs ys h.1

pub All-append {κ} : (P : ℕ → Type κ) (xs ys : List ℕ) → All P xs → All P ys → All P (xs ++ ys)
All-append P [] ys h k = k
All-append P (x ∷ xs) ys h k = (h.0, All-append P xs ys h.1 k)

-- A distinct list loses exactly the element at hand.
pub erase-append :
    (pre : List ℕ) (c : ℕ) (rest : List ℕ)
    → Distinct (pre ++ (c ∷ rest))
    → erase c (pre ++ (c ∷ rest)) ≡ pre ++ rest
unfolding erase
erase-append [] c rest h = ground arith
erase-append (x ∷ pre) c rest h =
    let ne : c ≢ x = (All-append_right (λ y. y ≢ x) pre (c ∷ rest) h.0).0 in
    ground (arith, erase-append pre c rest h.1)

pub get_elem?-append :
    (pre : List ℕ) (c : ℕ) (rest : List ℕ) → get_elem? (pre ++ (c ∷ rest)) (length pre) ≡ some c
get_elem?-append [] c rest = refl
get_elem?-append (x ∷ pre) c rest = get_elem?-append pre c rest

pub Distinct-snoc :
    (xs : List ℕ) (c : ℕ) → Distinct xs → All (λ y. c ≢ y) xs → Distinct (xs ++ (c ∷ []))
Distinct-snoc [] c h k = (tt, tt)
Distinct-snoc (x ∷ xs) c h k =
    (All-append (λ y. y ≢ x) xs (c ∷ []) h.0 (k.0, tt), Distinct-snoc xs c h.1 k.1)

pub Distinct-append_right : (xs ys : List ℕ) → Distinct (xs ++ ys) → Distinct ys
Distinct-append_right [] ys h = h
Distinct-append_right (x ∷ xs) ys h = Distinct-append_right xs ys h.1
