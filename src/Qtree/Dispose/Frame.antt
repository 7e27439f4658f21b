-- ===== src/Qtree/Dispose/Frame.antt =====
-- What `Dispose` on a node, and its loop over the children, leave alone.
use magellan.Base.{
  ℕ, ◌<◌, ◌≡◌, ◌≢◌, ◌∙◌, refl, sym, subst, String, Bool, true, Option, none, some, List, arith,
  nat_key,
}
use magellan.Qtree.Tree.{QueryTreeNode, Tree, erase}
use magellan.Qtree.Tree.Erase.{erase_ne, All-map}
use magellan.Qtree.Tree.Shape.{shape, view, parent_of, children_of, id_of, WellFormed}

abbrev pub Core : Type 0
Core = record { is_disposed : Bool; arguments : Option (List (String × ℕ)) }

-- What a disposal changes of a node: whether it is disposed, and its arguments.
abbrev pub core_of : Option QueryTreeNode → Option Core
core_of none = none
core_of (some n) = some (record { is_disposed = n.is_disposed; arguments = n.arguments })

abbrev pub core : Tree → ℕ → Option Core
core t q = view core_of t q

abbrev pub Wf : ℕ → Tree → Type 0
Wf k t = WellFormed k (shape t) t.root_node_map t.next

-- The parent stands above `p`.
abbrev pub Outer : ℕ → Option ℕ → Type 0
Outer p none = Unit {0}
Outer p (some r) = r < p

-- `t'` is `t` after rounds of the loop over the children of `p`.
pub record Looped (p : ℕ) (t t' : Tree) : Type 0 where
  pub same_next : t'.next ≡ t.next
  pub same_root : t'.root ≡ t.root
  pub same_ids : (q : ℕ) → view id_of t' q ≡ view id_of t q
  pub same_parents : (q : ℕ) → view parent_of t' q ≡ view parent_of t q
  pub same_core : (q : ℕ) → Outer p (view parent_of t q) → core t' q ≡ core t q
  pub same_children : (q : ℕ) → q < p → view children_of t' q ≡ view children_of t q
  pub wf : Wf p t'

-- `t'` is `t` after `Dispose` on `p`.
pub record Disposed (k p : ℕ) (t t' : Tree) : Type 0 where
  pub same_next : t'.next ≡ t.next
  pub same_root : t'.root ≡ t.root
  pub same_ids : (q : ℕ) → view id_of t' q ≡ view id_of t q
  pub same_parents : (q : ℕ) → view parent_of t' q ≡ view parent_of t q
  pub same_core : (q : ℕ) → q ≢ p → Outer p (view parent_of t q) → core t' q ≡ core t q
  pub left : (q : ℕ) → q < p → view children_of t' q ≡ erase p (view children_of t q)
  pub gone : core t' p ≡ some (record { is_disposed = true; arguments = none })
  pub wf : Wf k t'

pub Looped-refl : (p : ℕ) (t : Tree) → Wf p t → Looped p t t
Looped-refl p t h = record {
  same_next = refl;
  same_root = refl;
  same_ids = λ q. refl;
  same_parents = λ q. refl;
  same_core = λ q o. refl;
  same_children = λ q l. refl;
  wf = h;
}

pub Looped-trans : {p : ℕ} {t u v : Tree} → Looped p t u → Looped p u v → Looped p t v
Looped-trans {p} {t} {u} {v} g h = record {
  same_next = h.same_next ∙ g.same_next;
  same_root = h.same_root ∙ g.same_root;
  same_ids = λ q. h.same_ids q ∙ g.same_ids q;
  same_parents = λ q. h.same_parents q ∙ g.same_parents q;
  same_core = λ q o. h.same_core q (subst (Outer p) (sym (g.same_parents q)) o) ∙ g.same_core q o;
  same_children = λ q l. h.same_children q l ∙ g.same_children q l;
  wf = h.wf;
}

pub Outer-mono : (p c : ℕ) (o : Option ℕ) → p < c → Outer p o → Outer c o
Outer-mono p c none l o = tt
Outer-mono p c (some r) l o = omega arith

not-Outer : (p : ℕ) (o : Option ℕ) → o ≡ some p → ¬ Outer p o
not-Outer p none e o = cc
not-Outer p (some r) e o = ground arith

-- The disposal of a child is a round of the loop.
pub Disposed-Looped :
    {p c : ℕ} {t t' : Tree}
    → Wf p t
    → view parent_of t c ≡ some p
    → p < c
    → Disposed p c t t'
    → Looped p t t'
Disposed-Looped {p} {c} {t} {t'} h e l d = record {
  same_next = d.same_next;
  same_root = d.same_root;
  same_ids = d.same_ids;
  same_parents = d.same_parents;
  same_core = λ q o.
      d.same_core q
        (λ g.
          not-Outer p (view parent_of t q) (subst (λ x. view parent_of t x ≡ some p) (sym g) e) o)
        (Outer-mono p c (view parent_of t q) l o);
  same_children = λ q g.
      d.left q (omega arith)
      ∙ erase_ne c (view children_of t q)
          (All-map (view children_of t q) (λ x i f. ground (arith, i.1)) (h.family q));
  wf = d.wf;
}
