-- ===== src/Qtree/Dispose/Ends.antt =====
-- What `Dispose` does to a node before and after the loop over its children.
use mathlib.Core.Path.{fun_ext}
use magellan.Base.{
  ℕ, ◌≡◌, ◌∙◌, refl, sym, ap, not, none, some, List, [], arith, lookup, nat_key, Option-cases,
  Bool-cases, inl, inr, ◌⊎◌,
}
use magellan.Qtree.Subs.{Update, op_del_child}
use magellan.Qtree.Tree.{QueryTreeNode, Tree, update, next_update, remove_child, erase, contains}
use magellan.Qtree.Tree.Erase.{erase_absent}
use magellan.Qtree.Tree.Shape.{
  view, view-update, view-update_same, id_of, parent_of, children_of, alive_of, put_at,
}
use magellan.Qtree.Dispose.Frame.{core_of}

-- A write that no view but that of the children sees.
pub record Quiet (t u : Tree) : Type 0 where
  pub ids : view id_of u ≡ view id_of t
  pub parents : view parent_of u ≡ view parent_of t
  pub alive : view alive_of u ≡ view alive_of t
  pub cores : view core_of u ≡ view core_of t
  pub next : u.next ≡ t.next
  pub root : u.root ≡ t.root

pub Quiet-refl : (t : Tree) → Quiet t t
Quiet-refl t = record {
  ids = refl;
  parents = refl;
  alive = refl;
  cores = refl;
  next = refl;
  root = refl;
}

pub Quiet-trans : {t u v : Tree} → Quiet t u → Quiet u v → Quiet t v
Quiet-trans g h = record {
  ids = h.ids ∙ g.ids;
  parents = h.parents ∙ g.parents;
  alive = h.alive ∙ g.alive;
  cores = h.cores ∙ g.cores;
  next = h.next ∙ g.next;
  root = h.root ∙ g.root;
}

pub update-Quiet :
    (t : Tree) (p : ℕ) (f : QueryTreeNode → QueryTreeNode)
    → ((n : QueryTreeNode) → (f n).id ≡ n.id)
    → ((n : QueryTreeNode) → (f n).parent ≡ n.parent)
    → ((n : QueryTreeNode) → (f n).is_disposed ≡ n.is_disposed)
    → ((n : QueryTreeNode) → (f n).arguments ≡ n.arguments)
    → Quiet t (update t p f)
update-Quiet t p f a b c d = record {
  ids = view-update_same id_of t p f (elim [ none ↦ refl | some n ↦ ap some (a n) ]);
  parents = view-update_same parent_of t p f (elim [ none ↦ refl | some n ↦ b n ]);
  alive = view-update_same alive_of t p f (elim [ none ↦ refl | some n ↦ ap not (c n) ]);
  cores = view-update_same core_of t p f (elim [
    | none ↦ refl
    | some n ↦ λ i. some (record { is_disposed = c n i; arguments = d n i })
  ]);
  next = refl;
  root = refl;
}

pub next_update-Quiet : (t : Tree) (p : ℕ) (u : Update) → Quiet t (next_update t p u)
unfolding next_update
next_update-Quiet t p u = update-Quiet t p _ (λ n. refl) (λ n. refl) (λ n. refl) (λ n. refl)

pub children-next_update :
    (t : Tree) (p : ℕ) (u : Update) → view children_of (next_update t p u) ≡ view children_of t
unfolding next_update
children-next_update t p u =
    view-update_same children_of t p _ (elim [ none ↦ refl | some n ↦ refl ])

abbrev pub with_children : (List ℕ → List ℕ) → QueryTreeNode → QueryTreeNode
with_children g n = record n { children = g n.children }

-- A write to the children.
pub children-update :
    (t : Tree) (p : ℕ) (g : List ℕ → List ℕ)
    → g [] ≡ []
    → view children_of (update t p (with_children g))
      ≡ put_at p (g (view children_of t p)) (view children_of t)
children-update t p g e = view-update children_of t p (with_children g) ∙ fun_ext λ q. grind arith

pub update_children-Quiet :
    (t : Tree) (p : ℕ) (g : List ℕ → List ℕ) → Quiet t (update t p (with_children g))
update_children-Quiet t p g =
    update-Quiet t p (with_children g) (λ n. refl) (λ n. refl) (λ n. refl) (λ n. refl)

put_at_same : {B : Type 0} (p : ℕ) (f : ℕ → B) → put_at p (f p) f ≡ f
put_at_same p f = fun_ext λ q. grind arith

abbrev erased : Tree → ℕ → ℕ → Tree
erased t p c = next_update (update t p (with_children (erase c))) p (op_del_child c)

-- Either the child is there and goes, or the tree stays.
remove_child-cases :
    (t : Tree) (p c : ℕ)
    → (remove_child t p c ≡ erased t p c)
      ⊎ ((remove_child t p c ≡ t) × (erase c (view children_of t p) ≡ view children_of t p))
unfolding remove_child erase
remove_child-cases t p c = elim (Option-cases (lookup p t.nodes)) [
  | inl e ↦ inr (rw (e, remove_child), rw e)
  | inr (n, e) ↦ elim (Bool-cases (contains c n.children)) [
    | inl f ↦ inl (rw (e, remove_child, f))
    | inr f ↦ inr (rw (e, remove_child, f), rw e (erase_absent c n.children f))
  ]
]

erased-Quiet : (t : Tree) (p c : ℕ) → Quiet t (erased t p c)
erased-Quiet t p c =
    Quiet-trans (update_children-Quiet t p (erase c)) (next_update-Quiet _ p (op_del_child c))

children-erased :
    (t : Tree) (p c : ℕ)
    → view children_of (erased t p c)
      ≡ put_at p (erase c (view children_of t p)) (view children_of t)
unfolding erase
children-erased t p c = children-next_update _ p _ ∙ children-update t p (erase c) refl

pub remove_child-Quiet : (t : Tree) (p c : ℕ) → Quiet t (remove_child t p c)
remove_child-Quiet t p c = elim (remove_child-cases t p c) [
  | inl e ↦ rw e (erased-Quiet t p c)
  | inr (e, f) ↦ rw e (Quiet-refl t)
]

pub children-remove_child :
    (t : Tree) (p c : ℕ)
    → view children_of (remove_child t p c)
      ≡ put_at p (erase c (view children_of t p)) (view children_of t)
children-remove_child t p c = elim (remove_child-cases t p c) [
  | inl e ↦ ap (view children_of) e ∙ children-erased t p c
  | inr (e, f) ↦
      ap (view children_of) e
      ∙ sym (ap (λ l. put_at p l (view children_of t)) f ∙ put_at_same p (view children_of t))
]
