-- ===== src/Qtree/Tree/WellFormed.antt =====
-- Each change of the shape keeps it well formed.
use magellan.Base.{
  ℕ, suc, ◌≡◌, ◌≢◌, ◌<◌, ◌≤◌, refl, sym, subst, true, false, some, List, [], ◌∷◌, ◌++◌, All, arith,
  insert, delete, nat_key, lookup-delete, lookup-insert, if_pos, if_neg, Option-cases, inl, inr,
}
use magellan.Qtree.Tree.{erase}
use magellan.Qtree.Tree.Erase.{
  Distinct, All-map, All-zip, All-erase, Distinct-erase, Distinct-snoc, All-append,
}
use magellan.Qtree.Tree.Shape.{Shape, IsChild, WellFormed, put_at}

pub put_at_self : {B : Type 0} (p : ℕ) (b : B) (f : ℕ → B) → put_at p b f p ≡ b
put_at_self p b f = if_pos (nat_key.dec p p) refl _ _

put_at-All :
    (P : ℕ → List ℕ → Type 0) (p : ℕ) (b : List ℕ) (f : ℕ → List ℕ)
    → P p b
    → ((q : ℕ) → q ≢ p → P q (f q))
    → (q : ℕ) → P q (put_at p b f q)
put_at-All P p b f h k q = elim (nat_key.dec p q) [
  | yes e ↦ rw (if_pos _ e) (subst (λ x. P x b) e h)
  | no e ↦ rw (if_neg _ e) (k q (λ g. e (sym g)))
]

module _ {k : ℕ} {s : Shape} {m : List (ℕ × ℕ)} {next : ℕ} (h : WellFormed k s m next) where
  pub is_child-lt : (q c : ℕ) → s.parents c ≡ some q → c < next
  is_child-lt q c e = elim (Option-cases (s.ids c)) [
    | inl f ↦ absurd (ground (arith, h.housed c f))
    | inr (id, f) ↦ h.fresh c id f
  ]

  pub begin-WellFormed :
      (p : ℕ) → k ≤ p → WellFormed p (record s { alive = put_at p false s.alive }) m next
  begin-WellFormed p le = record {
    fresh = h.fresh;
    indexed = h.indexed;
    older = h.older;
    housed = h.housed;
    family = h.family;
    distinct = h.distinct;
    living = λ q g.
        All-zip (s.children q) (λ c i a. ground (arith, i.0)) (h.family q)
          (h.living q (omega arith));
  }

  pub clear-WellFormed :
      (p : ℕ) → WellFormed k (record s { children = put_at p [] s.children }) m next
  clear-WellFormed p = record {
    fresh = h.fresh;
    indexed = h.indexed;
    older = h.older;
    housed = λ q e. ((h.housed q e).0, ground (arith, (h.housed q e).1));
    family = put_at-All (λ q l. All (IsChild s q) l) p [] s.children tt (λ q n. h.family q);
    distinct = put_at-All (λ q l. Distinct l) p [] s.children tt (λ q n. h.distinct q);
    living =
        put_at-All (λ q l. k ≤ q → All (λ c. s.alive c ≡ true) l) p [] s.children (λ g. tt)
          (λ q n. h.living q);
  }

  erase_housed :
      (p c q : ℕ) → s.children q ≡ [] → put_at p (erase c (s.children p)) s.children q ≡ []
  unfolding erase
  erase_housed p c q e = elim (nat_key.dec p q) [
    | yes g ↦ rw (if_pos _ g, g, e)
    | no g ↦ rw (if_neg _ g) e
  ]

  pub erase-WellFormed :
      (p c : ℕ)
      → WellFormed k (record s { children = put_at p (erase c (s.children p)) s.children }) m next
  erase-WellFormed p c = record {
    fresh = h.fresh;
    indexed = h.indexed;
    older = h.older;
    housed = λ q e. ((h.housed q e).0, erase_housed p c q (h.housed q e).1);
    family =
        put_at-All (λ q l. All (IsChild s q) l) p _ s.children
          (All-erase (IsChild s p) c (s.children p) (h.family p)) (λ q n. h.family q);
    distinct =
        put_at-All (λ q l. Distinct l) p _ s.children
          (Distinct-erase c (s.children p) (h.distinct p)) (λ q n. h.distinct q);
    living =
        put_at-All (λ q l. k ≤ q → All (λ d. s.alive d ≡ true) l) p _ s.children
          (λ g. All-erase (λ d. s.alive d ≡ true) c (s.children p) (h.living p g))
          (λ q n. h.living q);
  }

  pub delete-WellFormed : (id : ℕ) → WellFormed k s (delete id m) next
  delete-WellFormed id = record {
    fresh = h.fresh;
    indexed = λ i q e. ground (arith, lookup-delete i id m, h.indexed i q);
    older = h.older;
    housed = h.housed;
    family = h.family;
    distinct = h.distinct;
    living = h.living;
  }

  abbrev pub minted : ℕ → ℕ → Shape
  minted p id = record {
    ids = put_at next (some id) s.ids;
    parents = put_at next (some p) s.parents;
    children = put_at p (s.children p ++ next ∷ []) (put_at next [] s.children);
    alive = put_at next true s.alive;
  }

  mint-IsChild : (p id q c : ℕ) → IsChild s q c → IsChild (minted p id) q c
  mint-IsChild p id q c i = (i.0, ground (arith, is_child-lt q c i.1))

  pub mint-WellFormed :
      (p id pid : ℕ) → s.ids p ≡ some pid → WellFormed k (minted p id) (insert id next m) (suc next)
  mint-WellFormed p id pid e = record {
    fresh = λ q i g. ground (arith, h.fresh q i);
    indexed = λ i q g. ground (arith, lookup-insert i id next m, h.indexed i q, h.fresh q i);
    older = λ q r g. ground (arith, h.older q r, h.fresh p pid);
    housed = λ q g. ground (arith, h.housed q, h.housed p);
    family =
        put_at-All (λ q l. All (IsChild (minted p id) q) l) p _ _
          (All-append (IsChild (minted p id) p) (s.children p) (next ∷ [])
            (All-map (s.children p) (λ c i. mint-IsChild p id p c i) (h.family p))
            ((h.fresh p pid e, put_at_self next (some p) s.parents), tt))
          (λ q n.
            put_at-All (λ r l. All (IsChild (minted p id) r) l) next [] s.children tt
              (λ r _. All-map (s.children r) (λ c i. mint-IsChild p id r c i) (h.family r)) q);
    distinct =
        put_at-All (λ q l. Distinct l) p _ _
          (Distinct-snoc (s.children p) next (h.distinct p)
            (All-map (s.children p) (λ c i f. ground (arith, is_child-lt p c i.1)) (h.family p)))
          (λ q n. put_at-All (λ r l. Distinct l) next [] s.children tt (λ r _. h.distinct r) q);
    living =
        put_at-All (λ q l. k ≤ q → All (λ c. (minted p id).alive c ≡ true) l) p _ _
          (λ g.
            All-append (λ c. (minted p id).alive c ≡ true) (s.children p) (next ∷ [])
              (All-map (s.children p) (λ c a. ground arith) (h.living p g))
              (put_at_self next true s.alive, tt))
          (λ q n.
            put_at-All (λ r l. k ≤ r → All (λ c. (minted p id).alive c ≡ true) l) next [] s.children
              (λ g. tt) (λ r _ g. All-map (s.children r) (λ c a. ground arith) (h.living r g)) q);
  }
