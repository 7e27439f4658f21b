-- ===== src/Qtree/Dispose/Loop.antt =====
-- The loop of `Dispose` over the children, which reaches every other child only.
use magellan.Base.{
  ℕ, zero, suc, ◌<◌, ◌≤◌, ◌≡◌, ◌≢◌, ◌∙◌, refl, sym, ap, subst, true, Option, none, some, List, [],
  ◌∷◌, ◌++◌, All, arith, nat_key, length, length-append, get_elem?, append-nil, append_assoc,
}
use magellan.Qtree.Tree.{Tree, erase}
use magellan.Qtree.Tree.Erase.{
  Distinct, All-zip, All-append_right, Distinct-append_right, erase-append, get_elem?-append,
}
use magellan.Qtree.Tree.Shape.{shape, view, parent_of, children_of, alive_of, IsChild}
use magellan.Qtree.Dispose.{dispose_children}
use magellan.Qtree.Dispose.Frame.{
  Core, core, Wf, Looped, Looped-refl, Looped-trans, Disposed, Disposed-Looped,
}

-- The elements at even and at odd places.
unfoldable pub evens : List ℕ → List ℕ
evens [] = []
evens (x ∷ []) = x ∷ []
evens (x ∷ y ∷ xs) = x ∷ evens xs

unfoldable pub odds : List ℕ → List ℕ
odds [] = []
odds (x ∷ []) = []
odds (x ∷ y ∷ xs) = y ∷ odds xs

abbrev pub dead : Option Core
dead = some (record { is_disposed = true; arguments = none })

-- What the recursive calls promise: they end on an alive child of `p`.
abbrev pub Calls : ℕ → ℕ → (Tree → ℕ → Option Tree) → Type 0
Calls p next call =
    (t : Tree) (c : ℕ)
    → Wf p t
    → t.next ≡ next
    → p < c
    → view alive_of t c ≡ true
    → (t' : Tree) × (call t c ≡ some t') × Disposed p c t t'

pub record Rounds (p : ℕ) (pre rest : List ℕ) (t t' : Tree) : Type 0 where
  pub looped : Looped p t t'
  pub kept : (q : ℕ) → All (λ d. d ≢ q) rest → view parent_of t q ≡ some p → core t' q ≡ core t q
  pub gone_evens : All (λ c. core t' c ≡ dead) (evens rest)
  pub kept_odds : All (λ c. core t' c ≡ core t c) (odds rest)
  pub remaining : view children_of t' p ≡ pre ++ odds rest

pub All-evens : (P : ℕ → Type 0) (xs : List ℕ) → All P xs → All P (evens xs)
unfolding evens
All-evens P [] h = tt
All-evens P (x ∷ []) h = (h.0, tt)
All-evens P (x ∷ y ∷ xs) h = (h.0, All-evens P xs h.1.1)

pub All-odds : (P : ℕ → Type 0) (xs : List ℕ) → All P xs → All P (odds xs)
unfolding odds
All-odds P [] h = tt
All-odds P (x ∷ []) h = tt
All-odds P (x ∷ y ∷ xs) h = (h.1.0, All-odds P xs h.1.1)

get_elem?_past : (xs : List ℕ) (i : ℕ) → length xs ≤ i → get_elem? xs i ≡ none
get_elem?_past [] i h = refl
get_elem?_past (x ∷ xs) zero h = absurd (omega arith)
get_elem?_past (x ∷ xs) (suc i) h = get_elem?_past xs i (omega arith)

module _ (p next : ℕ) (call : Tree → ℕ → Option Tree) (calls : Calls p next call) where
  past :
      (t : Tree) (i k : ℕ)
      → length (view children_of t p) ≤ i
      → dispose_children call t p i k ≡ some t
  unfolding dispose_children
  past t i zero h = refl
  past t i (suc k) h =
      rw (get_elem?_past (view children_of t p) i h, dispose_children)
        (past t (suc i) k (omega arith))

  reach :
      (t t' : Tree) (c i k : ℕ)
      → get_elem? (view children_of t p) i ≡ some c
      → call t c ≡ some t'
      → dispose_children call t p i (suc k) ≡ dispose_children call t' p (suc i) k
  unfolding dispose_children
  reach t t' c i k e f = rw (e, dispose_children, f)

  -- The round that disposes the child at hand.
  module _ (t : Tree) (x : ℕ) (pre rest : List ℕ) (h : Wf p t)
      (e : view children_of t p ≡ pre ++ (x ∷ rest)) where
    at_hand : IsChild (shape t) p x
    at_hand =
        (All-append_right (IsChild (shape t) p) pre (x ∷ rest)
          (subst (All (IsChild (shape t) p)) e (h.family p))).0

    is_alive : view alive_of t x ≡ true
    is_alive =
        (All-append_right (λ c. view alive_of t c ≡ true) pre (x ∷ rest)
          (subst (All (λ c. view alive_of t c ≡ true)) e (h.living p (omega arith)))).0

    is_Distinct : Distinct (pre ++ (x ∷ rest))
    is_Distinct = subst Distinct e (h.distinct p)

    after : {t' : Tree} → Disposed p x t t' → view children_of t' p ≡ pre ++ rest
    after d = d.left p at_hand.0 ∙ ap (erase x) e ∙ erase-append pre x rest is_Distinct

    others :
        {t' : Tree} (q : ℕ)
        → Disposed p x t t'
        → q ≢ x
        → view parent_of t q ≡ some p
        → core t' q ≡ core t q
    others q d n f = d.same_core q n (rw f at_hand.0)

    reads : get_elem? (view children_of t p) (length pre) ≡ some x
    reads = rw e (get_elem?-append pre x rest)

  round :
      (t : Tree) (x : ℕ) (pre rest : List ℕ)
      → Wf p t
      → t.next ≡ next
      → view children_of t p ≡ pre ++ (x ∷ rest)
      → (t' : Tree) × (call t x ≡ some t') × Disposed p x t t'
  round t x pre rest h n e = calls t x h n (at_hand t x pre rest h e).0 (is_alive t x pre rest h e)

  -- From the index `i`, with the children before it in `pre`.
  pub rounds :
      (rest pre : List ℕ) (k : ℕ) (t : Tree)
      → Wf p t
      → t.next ≡ next
      → view children_of t p ≡ pre ++ rest
      → length rest ≤ k
      → (t' : Tree) × (dispose_children call t p (length pre) k ≡ some t') × Rounds p pre rest t t'
  unfolding evens odds
  rounds [] pre k t h n e g = (
    t,
    past t (length pre) k (rw (e, append-nil) (omega arith)),
    record {
      looped = Looped-refl p t h;
      kept = λ q a f. refl;
      gone_evens = tt;
      kept_odds = tt;
      remaining = e;
    },
  )
  rounds (x ∷ rest) pre zero t h n e g = absurd (omega arith)
  rounds (x ∷ []) pre (suc k) t h n e g =
      let (t', called, d) = round t x pre [] h n e in
      let e' : view children_of t' p ≡ pre ++ [] = after t x pre [] h e d in
      let i = at_hand t x pre [] h e in
      (
        t',
        reach t t' x (length pre) k (reads t x pre [] h e) called
            ∙ past t' (suc (length pre)) k (rw (e', append-nil) (omega arith)),
        record {
          looped = Disposed-Looped h i.1 i.0 d;
          kept = λ q a f. others t x pre [] h e q d (λ s. a.0 (sym s)) f;
          gone_evens = (d.gone, tt);
          kept_odds = tt;
          remaining = e';
        },
      )
  rounds (x ∷ y ∷ rest) pre (suc k) t h n e g =
      let (t', called, d) = round t x pre (y ∷ rest) h n e in
      let e' : view children_of t' p ≡ pre ++ (y ∷ rest) = after t x pre (y ∷ rest) h e d in
      let i = at_hand t x pre (y ∷ rest) h e in
      let apart : Distinct (x ∷ y ∷ rest) =
        Distinct-append_right pre (x ∷ y ∷ rest) (is_Distinct t x pre (y ∷ rest) h e) in
      let kids : All (IsChild (shape t) p) (x ∷ y ∷ rest) =
        All-append_right (IsChild (shape t) p) pre (x ∷ y ∷ rest)
          (subst (All (IsChild (shape t) p)) e (h.family p)) in
      let still : (q : ℕ) → q ≢ x → view parent_of t q ≡ some p → core t' q ≡ core t q =
        λ q m f. others t x pre (y ∷ rest) h e q d m f in
      let (t'', looped, r) =
        rounds rest (pre ++ (y ∷ [])) k t' d.wf (d.same_next ∙ n)
          (e' ∙ sym (append_assoc pre (y ∷ []) rest)) (omega arith) in
      (
        t'',
        reach t t' x (length pre) k (reads t x pre (y ∷ rest) h e) called
            ∙ subst (λ j. dispose_children call t' p j k ≡ some t'')
                (length-append pre (y ∷ []) ∙ omega arith) looped,
        record {
          looped = Looped-trans (Disposed-Looped h i.1 i.0 d) r.looped;
          kept = λ q a f.
              r.kept q a.1.1 (d.same_parents q ∙ f)
              ∙ others t x pre (y ∷ rest) h e q d (λ s. a.0 (sym s)) f;
          gone_evens = (r.kept x apart.0.1 (d.same_parents x ∙ i.1) ∙ d.gone, r.gone_evens);
          kept_odds = (
            r.kept y apart.1.0 (d.same_parents y ∙ kids.1.0.1) ∙ still y apart.0.0 kids.1.0.1,
            All-zip (odds rest) (λ c a b. a ∙ b) r.kept_odds
                (All-odds _ rest (All-zip rest (λ c m j. still c m j.1) apart.0.1 kids.1.1)),
          );
          remaining = r.remaining ∙ append_assoc pre (y ∷ []) (odds rest);
        },
      )
