-- ===== src/Qtree/Dispose/Total.antt =====
-- `Dispose` ends, and reaches every other child.
use magellan.Base.{
  ℕ, zero, suc, ◌+◌, ◌<◌, ◌≤◌, ◌≡◌, ◌≢◌, ◌∙◌, refl, sym, ap, subst, true, false, Option, none, some,
  List, [], All, arith, lookup, nat_key, length, if_pos, if_neg, Option-cases, inl, inr,
}
use native.Mathlib.Decide.{dec_lt}
use magellan.Qtree.Tree.{QueryTreeNode, Tree, erase}
use magellan.Qtree.Tree.Erase.{erase_ne, ne-erase, All-map, All-zip, All-erase}
use magellan.Qtree.Tree.Shape.{shape, view, parent_of, children_of, alive_of, IsChild, put_at}
use magellan.Qtree.Dispose.{dispose, begin_dispose, end_dispose, dispose_children}
use magellan.Qtree.Dispose.Frame.{core, Wf, Outer, Looped, Disposed}
use magellan.Qtree.Dispose.Loop.{Calls, Rounds, rounds, All-evens, All-odds, evens, odds, dead}
use magellan.Qtree.Dispose.Stages.{
  leave, begin-Wf, core-begin, children-begin, parents-begin, ids-begin, alive-begin, next-begin,
  root-begin, ids-end, parents-end, children-end, core-end, next-end, root-end, end-Wf, gone-end,
}

alive-core : (t u : Tree) (q : ℕ) → core u q ≡ core t q → view alive_of u q ≡ view alive_of t q
alive-core t u q e = grind arith

Outer-older : (p : ℕ) (o : Option ℕ) → ((r : ℕ) → o ≡ some r → r < p) → Outer p o
Outer-older p none h = tt
Outer-older p (some r) h = h r refl

module _ (k p : ℕ) (t : Tree) (h : Wf k t) where
  absent :
      (q : ℕ) → view parent_of t p ≢ some q → erase p (view children_of t q) ≡ view children_of t q
  absent q n = erase_ne p (view children_of t q) (
      All-map (view children_of t q) (λ x i f. n (subst (λ y. view parent_of t y ≡ some q) f i.1))
        (h.family q))

  leave_lem :
      (o : Option ℕ) (ch : ℕ → List ℕ) (q : ℕ)
      → view parent_of t p ≡ o
      → ((r : ℕ) → r < p → ch r ≡ view children_of t r)
      → q < p
      → leave p o (put_at p [] ch) q ≡ erase p (view children_of t q)
  leave_lem none ch q e f l =
      if_neg (nat_key.dec p q) (λ g. omega arith) _ _ ∙ f q l ∙ sym (absent q (λ g. cc))
  leave_lem (some r) ch q e f l = elim (nat_key.dec r q) [
    | yes g ↦
        if_pos (nat_key.dec r q) g _ _
        ∙ ap (erase p) (
            if_neg (nat_key.dec p r) (λ g'. omega (arith, h.older p r e)) _ _
            ∙ f r (h.older p r e)
            ∙ ap (view children_of t) g)
    | no g ↦
        if_neg (nat_key.dec r q) g _ _
        ∙ if_neg (nat_key.dec p q) (λ g'. omega arith) _ _
        ∙ f q l
        ∙ sym (absent q (λ g'. g (ground arith)))
  ]

  module _ (n : QueryTreeNode) (found : lookup p t.nodes ≡ some n) (le : k ≤ p) (t' : Tree)
      (lo : Looped p (begin_dispose t p) t') where
    abbrev done : Tree
    done = end_dispose t' p n

    core-done : (q : ℕ) → q ≢ p → Outer p (view parent_of t q) → core done q ≡ core t q
    core-done q d o =
        core-end t' p n q d
        ∙ lo.same_core q (subst (λ (f : ℕ → Option ℕ). Outer p (f q)) (sym (parents-begin p t)) o)
        ∙ core-begin p q t d

    children-done : (q : ℕ) → q < p → view children_of done q ≡ erase p (view children_of t q)
    children-done q l =
        ap (λ (f : ℕ → List ℕ). f q) (children-end t' p n)
        ∙ leave_lem n.parent (view children_of t') q (rw found)
            (λ r g. lo.same_children r g ∙ ap (λ (f : ℕ → List ℕ). f r) (children-begin p t)) l

    living-done :
        (q : ℕ) → k ≤ q → q < p → All (λ c. view alive_of done c ≡ true) (view children_of done q)
    living-done q g l = rw (children-done q l) (
        All-zip (erase p (view children_of t q))
          (λ c a b. alive-core t done c (core-done c a (subst (Outer p) (sym b.0.1) l)) ∙ b.1)
          (ne-erase p (view children_of t q) (h.distinct q))
          (All-erase (λ c. IsChild (shape t) q c × (view alive_of t c ≡ true)) p
            (view children_of t q)
            (All-zip (view children_of t q) (λ c i a. (i, a)) (h.family q) (h.living q g))))

    done-Disposed : view alive_of t p ≡ true → Disposed k p t done
    done-Disposed al = record {
      same_next = next-end t' p n ∙ lo.same_next ∙ next-begin p t;
      same_root = root-end t' p n ∙ lo.same_root ∙ root-begin p t;
      same_ids = λ q.
          ap (λ (f : ℕ → Option ℕ). f q) (ids-end t' p n)
          ∙ lo.same_ids q
          ∙ ap (λ (f : ℕ → Option ℕ). f q) (ids-begin p t);
      same_parents = λ q.
          ap (λ (f : ℕ → Option ℕ). f q) (parents-end t' p n)
          ∙ lo.same_parents q
          ∙ ap (λ (f : ℕ → Option ℕ). f q) (parents-begin p t);
      same_core = core-done;
      left = children-done;
      gone =
          gone-end t' p n
            (alive-core (begin_dispose t p) t' p (lo.same_core p outer) ∙ alive-begin p t)
            (lo.same_ids p ∙ ap (λ (f : ℕ → Option ℕ). f p) (ids-begin p t) ∙ rw found);
      wf = lower (end-Wf t' p n p lo.wf);
    }
      where
        outer : Outer p (view parent_of (begin_dispose t p) p)
        outer =
            subst (λ (f : ℕ → Option ℕ). Outer p (f p)) (sym (parents-begin p t))
              (Outer-older p (view parent_of t p) (λ r e. h.older p r e))

        lower : Wf p done → Wf k done
        lower w = record {
          fresh = w.fresh;
          indexed = w.indexed;
          older = w.older;
          housed = w.housed;
          family = w.family;
          distinct = w.distinct;
          living = λ q g. elim (dec_lt q p) [
            | yes l ↦ living-done q g l
            | no m ↦ w.living q (omega arith)
          ];
        }

-- `Dispose` on the node `p` returns; of its children those at even places are disposed, and those at
-- odd places are as they were.
pub record Ends (k p : ℕ) (fuel : ℕ) (t : Tree) : Type 0 where
  pub result : Tree
  pub returns : dispose fuel t p ≡ some result
  pub disposed : Disposed k p t result
  pub gone_evens : All (λ c. core result c ≡ dead) (evens (view children_of t p))
  pub kept_odds : All (λ c. core result c ≡ core t c) (odds (view children_of t p))

dispose_step :
    (fuel p : ℕ) (t t' : Tree) (n : QueryTreeNode)
    → lookup p t.nodes ≡ some n
    → view alive_of t p ≡ true
    → dispose_children (dispose fuel) (begin_dispose t p) p 0 (length n.children) ≡ some t'
    → dispose (suc fuel) t p ≡ some (end_dispose t' p n)
unfolding dispose
dispose_step fuel p t t' n e al f =
    let d : n.is_disposed ≡ false = ground arith in rw (e, dispose, d, f)

-- The children, read from the node.
children_found :
    (t : Tree) (p : ℕ) (n : QueryTreeNode)
    → lookup p t.nodes ≡ some n
    → view children_of t p ≡ n.children
children_found t p n e = rw e

module _ (k p fuel : ℕ) (t : Tree) (h : Wf k t) (le : k ≤ p) (al : view alive_of t p ≡ true)
    (n : QueryTreeNode) (e : lookup p t.nodes ≡ some n) where
  Ends-after :
      (t' : Tree)
      → dispose_children (dispose fuel) (begin_dispose t p) p 0 (length n.children) ≡ some t'
      → Rounds p [] n.children (begin_dispose t p) t'
      → Ends k p (suc fuel) t
  Ends-after t' f r = record {
    result = end_dispose t' p n;
    returns = dispose_step fuel p t t' n e al f;
    disposed = done-Disposed k p t h n e le t' r.looped al;
    gone_evens = rw (children_found t p n e) (
        All-zip (evens n.children) (λ c l g. core-end t' p n c (λ x. omega arith) ∙ g)
          (All-evens (λ c. p < c) n.children above) r.gone_evens);
    kept_odds = rw (children_found t p n e) (
        All-zip (odds n.children)
          (λ c l g. core-end t' p n c (λ x. omega arith) ∙ g ∙ core-begin p c t (λ x. omega arith))
          (All-odds (λ c. p < c) n.children above) r.kept_odds);
  }
    where
      above : All (λ c. p < c) n.children
      above =
          All-map n.children (λ c i. i.0)
            (subst (All (IsChild (shape t) p)) (children_found t p n e) (h.family p))

-- In a tree that is well formed from the address `k` on, if the node `p` is not before `k` and is not
-- disposed, with fuel for the addresses from `p` on: `Dispose` on `p` returns and disposes it, as
-- `Disposed` says; of its children those at even places are disposed, and those at odd places are as
-- they were.
pub dispose-Ends :
    (fuel k p : ℕ) (t : Tree)
    → Wf k t
    → k ≤ p
    → view alive_of t p ≡ true
    → t.next ≤ p + fuel
    → Ends k p fuel t
dispose-Ends zero k p t h le al b = elim (Option-cases (lookup p t.nodes)) [
  | inl e ↦ absurd (ground arith)
  | inr (n, e) ↦ absurd (omega (arith, h.fresh p n.id (rw e)))
]
dispose-Ends (suc fuel) k p t h le al b = elim (Option-cases (lookup p t.nodes)) [
  | inl e ↦ absurd (ground arith)
  | inr (n, e) ↦
      let calls : Calls p t.next (dispose fuel) = λ u c w ne l a.
        let r = dispose-Ends fuel p c u w (omega arith) a (omega arith) in
        (r.result, r.returns, r.disposed) in
      let (t', f, r) =
        rounds p t.next (dispose fuel) calls n.children [] (length n.children) (begin_dispose t p)
          (begin-Wf k p t le h) (next-begin p t)
          (ap (λ (f : ℕ → List ℕ). f p) (children-begin p t) ∙ children_found t p n e)
          (omega arith) in
      Ends-after k p fuel t h le al n e t' f r
]
