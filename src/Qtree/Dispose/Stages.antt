-- ===== src/Qtree/Dispose/Stages.antt =====
-- The tree after each stage of `Dispose`.
use mathlib.Core.Path.{fun_ext}
use magellan.Base.{
  ℕ, ◌≤◌, ◌≡◌, ◌≢◌, ◌∙◌, refl, sym, ap, subst, Bool, true, false, Option, none, some, List, [],
  arith, nat_key, delete, lookup-modify,
}
use magellan.Qtree.Subs.{op_delete}
use magellan.Qtree.Tree.{QueryTreeNode, Tree, update, next_update, remove_child, erase}
use magellan.Qtree.Tree.Shape.{
  Shape, shape, Shape-ext, view, view-update, view-update_same, id_of, parent_of, children_of,
  alive_of, put_at, WellFormed,
}
use magellan.Qtree.Tree.WellFormed.{
  begin-WellFormed, clear-WellFormed, erase-WellFormed, delete-WellFormed,
}
use magellan.Qtree.Dispose.{begin_dispose, end_dispose, leave_parent}
use magellan.Qtree.Dispose.Frame.{Core, core, Wf}
use magellan.Qtree.Dispose.Ends.{
  Quiet, Quiet-refl, Quiet-trans, next_update-Quiet, children-next_update, with_children,
  children-update, update_children-Quiet, remove_child-Quiet, children-remove_child,
}

abbrev marked : Tree → ℕ → Tree
marked t p = update t p (λ n. record n { is_disposed = true })

pub begin-Wf : (k p : ℕ) (t : Tree) → k ≤ p → Wf k t → Wf p (begin_dispose t p)
unfolding begin_dispose next_update
begin-Wf k p t le h =
    subst (λ s. WellFormed p s t.root_node_map t.next)
      (sym (
        Shape-ext (q.ids ∙ view-update_same id_of t p _ (elim [ none ↦ refl | some n ↦ refl ]))
          (q.parents ∙ view-update_same parent_of t p _ (elim [ none ↦ refl | some n ↦ refl ]))
          (children-next_update (marked t p) p op_delete
            ∙ view-update_same children_of t p _ (elim [ none ↦ refl | some n ↦ refl ]))
          (q.alive ∙ view-update alive_of t p _ ∙ fun_ext λ x. grind arith)))
      (begin-WellFormed h p le)
  where
    q : Quiet (marked t p) (begin_dispose t p)
    q = next_update-Quiet (marked t p) p op_delete

-- Only the node itself changes.
pub core-begin : (p q : ℕ) (t : Tree) → q ≢ p → core (begin_dispose t p) q ≡ core t q
unfolding begin_dispose
core-begin p q t n =
    ap (λ (f : ℕ → Option Core). f q) (next_update-Quiet (marked t p) p op_delete).cores
    ∙ grind (arith, lookup-modify q p (λ n. record n { is_disposed = true }) t.nodes)

pub children-begin : (p : ℕ) (t : Tree) → view children_of (begin_dispose t p) ≡ view children_of t
unfolding begin_dispose
children-begin p t =
    children-next_update (marked t p) p op_delete
    ∙ view-update_same children_of t p _ (elim [ none ↦ refl | some n ↦ refl ])

pub parents-begin : (p : ℕ) (t : Tree) → view parent_of (begin_dispose t p) ≡ view parent_of t
unfolding begin_dispose
parents-begin p t =
    (next_update-Quiet (marked t p) p op_delete).parents
    ∙ view-update_same parent_of t p _ (elim [ none ↦ refl | some n ↦ refl ])

pub ids-begin : (p : ℕ) (t : Tree) → view id_of (begin_dispose t p) ≡ view id_of t
unfolding begin_dispose
ids-begin p t =
    (next_update-Quiet (marked t p) p op_delete).ids
    ∙ view-update_same id_of t p _ (elim [ none ↦ refl | some n ↦ refl ])

pub alive-begin : (p : ℕ) (t : Tree) → view alive_of (begin_dispose t p) p ≡ false
unfolding begin_dispose
alive-begin p t =
    ap (λ (f : ℕ → Bool). f p) (next_update-Quiet (marked t p) p op_delete).alive
    ∙ grind (arith, lookup-modify p p (λ n. record n { is_disposed = true }) t.nodes)

pub next-begin : (p : ℕ) (t : Tree) → (begin_dispose t p).next ≡ t.next
unfolding begin_dispose next_update
next-begin p t = refl

pub root-begin : (p : ℕ) (t : Tree) → (begin_dispose t p).root ≡ t.root
unfolding begin_dispose next_update
root-begin p t = refl

-- After the loop: the children are forgotten, the parent's list and the map lose the node, and the
-- arguments are let go.
abbrev cleared : Tree → ℕ → QueryTreeNode → Tree
cleared t p n = record (update t p (with_children (λ _. []))) {
  root_node_map = delete n.id t.root_node_map;
}

abbrev pub leave : ℕ → Option ℕ → (ℕ → List ℕ) → ℕ → List ℕ
leave p none ch = ch
leave p (some r) ch = put_at r (erase p (ch r)) ch

leave_parent-Quiet : (t : Tree) (p : ℕ) (o : Option ℕ) → Quiet t (leave_parent t p o)
unfolding leave_parent
leave_parent-Quiet t p none = Quiet-refl t
leave_parent-Quiet t p (some r) = remove_child-Quiet t r p

leave_parent-map :
    (t : Tree) (p : ℕ) (o : Option ℕ) → (leave_parent t p o).root_node_map ≡ t.root_node_map
unfolding leave_parent remove_child next_update
leave_parent-map t p none = refl
leave_parent-map t p (some r) = ground arith

children-leave_parent :
    (t : Tree) (p : ℕ) (o : Option ℕ)
    → view children_of (leave_parent t p o) ≡ leave p o (view children_of t)
unfolding leave_parent
children-leave_parent t p none = refl
children-leave_parent t p (some r) = children-remove_child t r p

leave-WellFormed :
    (k : ℕ) (s : Shape) (m : List (ℕ × ℕ)) (next p : ℕ) (o : Option ℕ)
    → WellFormed k s m next
    → WellFormed k (record s { children = leave p o s.children }) m next
leave-WellFormed k s m next p none h = h
leave-WellFormed k s m next p (some r) h = erase-WellFormed h r p

module _ (t : Tree) (p : ℕ) (n : QueryTreeNode) where
  left_tree : Tree
  left_tree = leave_parent (cleared t p n) p n.parent

  cleared-Quiet : Quiet t (cleared t p n)
  cleared-Quiet = record {
    ids = q.ids;
    parents = q.parents;
    alive = q.alive;
    cores = q.cores;
    next = q.next;
    root = q.root;
  }
    where
      q : Quiet t (update t p (with_children (λ _. [])))
      q = update_children-Quiet t p (λ _. [])

  left-Quiet : Quiet t left_tree
  unfolding left_tree
  left-Quiet = Quiet-trans cleared-Quiet (leave_parent-Quiet (cleared t p n) p n.parent)

  pub ids-end : view id_of (end_dispose t p n) ≡ view id_of t
  unfolding end_dispose left_tree
  ids-end =
      view-update_same id_of left_tree p _ (elim [ none ↦ refl | some n ↦ refl ]) ∙ left-Quiet.ids

  pub parents-end : view parent_of (end_dispose t p n) ≡ view parent_of t
  unfolding end_dispose left_tree
  parents-end =
      view-update_same parent_of left_tree p _ (elim [ none ↦ refl | some n ↦ refl ])
      ∙ left-Quiet.parents

  alive-end : view alive_of (end_dispose t p n) ≡ view alive_of t
  unfolding end_dispose left_tree
  alive-end =
      view-update_same alive_of left_tree p _ (elim [ none ↦ refl | some n ↦ refl ])
      ∙ left-Quiet.alive

  pub children-end :
      view children_of (end_dispose t p n) ≡ leave p n.parent (put_at p [] (view children_of t))
  unfolding end_dispose left_tree
  children-end =
      view-update_same children_of left_tree p _ (elim [ none ↦ refl | some n ↦ refl ])
      ∙ children-leave_parent (cleared t p n) p n.parent
      ∙ ap (leave p n.parent) (children-update t p (λ _. []) refl)

  pub core-end : (q : ℕ) → q ≢ p → core (end_dispose t p n) q ≡ core t q
  unfolding end_dispose left_tree
  core-end q d =
      grind (arith, lookup-modify q p (λ m. record m { arguments = none }) left_tree.nodes)
      ∙ ap (λ (f : ℕ → Option Core). f q) left-Quiet.cores

  pub next-end : (end_dispose t p n).next ≡ t.next
  unfolding end_dispose left_tree
  next-end = left-Quiet.next

  pub root-end : (end_dispose t p n).root ≡ t.root
  unfolding end_dispose left_tree
  root-end = left-Quiet.root

  pub map-end : (end_dispose t p n).root_node_map ≡ delete n.id t.root_node_map
  unfolding end_dispose left_tree
  map-end = leave_parent-map (cleared t p n) p n.parent

  pub end-Wf : (k : ℕ) → Wf k t → Wf k (end_dispose t p n)
  end-Wf k h =
      let w =
        leave-WellFormed k _ (delete n.id t.root_node_map) t.next p n.parent
          (clear-WellFormed (delete-WellFormed h n.id) p) in
      rw
        (
          Shape-ext {a = shape (end_dispose t p n)} ids-end parents-end children-end alive-end,
          map-end,
          next-end,
        )
        w

  pub gone-end :
      view alive_of t p ≡ false
      → view id_of t p ≡ some n.id
      → core (end_dispose t p n) p ≡ some (record { is_disposed = true; arguments = none })
  unfolding end_dispose left_tree
  gone-end d e = grind (
    arith,
    lookup-modify p p (λ m. record m { arguments = none }) left_tree.nodes,
    ap (λ (f : ℕ → Bool). f p) left-Quiet.alive ∙ d,
    ap (λ (f : ℕ → Option ℕ). f p) left-Quiet.ids ∙ e,
  )
