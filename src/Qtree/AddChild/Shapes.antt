-- ===== src/Qtree/AddChild/Shapes.antt =====
-- `AddChild` keeps the tree well formed.
use mathlib.Core.Path.{fun_ext}
use magellan.Base.{
  ℕ, suc, String, ◌≡◌, ◌∙◌, refl, sym, subst, some, List, [], ◌∷◌, ◌++◌, arith, lookup, insert,
  nat_key, lookup-insert, Bool-cases, Option-cases, inl, inr,
}
use magellan.Qtree.VarStore.{VariableStore}
use magellan.Qtree.Subs.{Update, op_error}
use magellan.Qtree.Tree.{
  SchemaResolver, AddChildError, ErrorValue, QueryTreeNode, Tree, update, next_update, set_error,
  mark_error, same_error,
}
use magellan.Qtree.Tree.Shape.{
  shape, Shape-ext, WellFormed, view-update, shape-update_same, id_of, parent_of, children_of,
  alive_of,
}
use magellan.Qtree.Tree.WellFormed.{mint-WellFormed, minted}
use magellan.Qtree.AddChild.{
  QueryTreeNodeMsg, query_tree_node, QueryTreeNodeMsgs, end, child, is_taken, new_node, mint,
  select, Selection, Outcome, ok, err, bind_arguments, Prepared, refused, failed, ready, fail,
  complete, prepare_at, prepare, conclude, add_child, add_children,
}

abbrev pub IsValid : Tree → Type 0
IsValid t = WellFormed 0 (shape t) t.root_node_map t.next

pub shape-next_update : (t : Tree) (p : ℕ) (u : Update) → shape (next_update t p u) ≡ shape t
unfolding next_update
shape-next_update t p u = shape-update_same t p _ (λ n. refl) (λ n. refl) (λ n. refl) (λ n. refl)

-- A larger `next` is as good.
later : (t : Tree) → IsValid t → WellFormed 0 (shape t) t.root_node_map (suc t.next)
later t h = record {
  fresh = λ q id e. ground (arith, h.fresh q id);
  indexed = h.indexed;
  older = h.older;
  housed = h.housed;
  family = h.family;
  distinct = h.distinct;
  living = h.living;
}

mint-IsValid :
    (t : Tree) (p : ℕ) (qt : QueryTreeNode) (id : ℕ) (name : String)
    → IsValid t
    → lookup p t.nodes ≡ some qt
    → IsValid (mint t p qt id name)
unfolding mint new_node
mint-IsValid t p qt id name h e =
    subst (λ s. WellFormed 0 s (insert id t.next t.root_node_map) (suc t.next)) (sym same)
      (mint-WellFormed h p id qt.id (rw e))
  where
    t' : Tree
    t' = record t { nodes = insert t.next (new_node qt p id name) t.nodes }

    f : QueryTreeNode → QueryTreeNode
    f m = record m { children = m.children ++ t.next ∷ [] }

    same : shape (mint t p qt id name) ≡ minted h p id
    same =
        Shape-ext
          (view-update id_of t' p f ∙ fun_ext λ q. grind (arith, lookup-insert, h.fresh p qt.id))
          (view-update parent_of t' p f
            ∙ fun_ext λ q. grind (arith, lookup-insert, h.fresh p qt.id))
          (view-update children_of t' p f
            ∙ fun_ext λ q. grind (arith, lookup-insert, h.fresh p qt.id))
          (view-update alive_of t' p f ∙ fun_ext λ q. grind (arith, lookup-insert, h.fresh p qt.id))

-- `IsValid` reads the shape, the map and `next`.
pub move :
    (t u : Tree)
    → shape u ≡ shape t
    → u.root_node_map ≡ t.root_node_map
    → u.next ≡ t.next
    → IsValid t
    → IsValid u
move t u e f g h = rw (e, f, g) h

abbrev pub update_valid :
    (t : Tree) (p : ℕ) (f : QueryTreeNode → QueryTreeNode)
    → ((n : QueryTreeNode) → (f n).id ≡ n.id)
    → ((n : QueryTreeNode) → (f n).parent ≡ n.parent)
    → ((n : QueryTreeNode) → (f n).children ≡ n.children)
    → ((n : QueryTreeNode) → (f n).is_disposed ≡ n.is_disposed)
    → IsValid t
    → IsValid (update t p f)
update_valid t p f a b c d h = move t (update t p f) (shape-update_same t p f a b c d) refl refl h

next_update-IsValid : (t : Tree) (p : ℕ) (u : Update) → IsValid t → IsValid (next_update t p u)
unfolding next_update
next_update-IsValid t p u = update_valid t p _ (λ n. refl) (λ n. refl) (λ n. refl) (λ n. refl)

mark_error-IsValid :
    (t : Tree) (p : ℕ) (n : QueryTreeNode) (e : ErrorValue)
    → IsValid t
    → IsValid (mark_error t p n e)
unfolding mark_error
mark_error-IsValid t p n e = update_valid t p _ (λ n. refl) (λ n. refl) (λ n. refl) (λ n. refl)

set_error-IsValid : (t : Tree) (p : ℕ) (e : ErrorValue) → IsValid t → IsValid (set_error t p e)
unfolding set_error
set_error-IsValid t p e h = elim (Option-cases (lookup p t.nodes)) [
  | inl g ↦ rw (g, set_error) h
  | inr (n, g) ↦ elim (Bool-cases (same_error n.err e)) [
    | inl s ↦ rw (g, set_error, s) h
    | inr s ↦
        rw (g, set_error, s)
          (next_update-IsValid (mark_error t p n e) p op_error (mark_error-IsValid t p n e h))
  ]
]

-- What `prepare` leaves behind.
abbrev pub Leaves : (Tree → Type 0) → Prepared → Type 0
Leaves P (refused e) = Unit
Leaves P (failed t e) = P t
Leaves P (ready t n) = P t

fail-IsValid : (t : Tree) (n : ℕ) (e : AddChildError) → IsValid t → Leaves IsValid (fail t n e)
unfolding fail
fail-IsValid t n e h = set_error-IsValid (record t { next = suc t.next }) n _ (later t h)

complete-IsValid :
    (t : Tree) (n : ℕ) (sel : Selection) (b : VariableStore × Outcome (List (String × ℕ)))
    → IsValid t
    → Leaves IsValid (complete t n sel b)
unfolding complete
complete-IsValid t n sel (vs, err e) h = fail-IsValid (record t { variable_store = vs }) n e h
complete-IsValid t n sel (vs, ok args) h =
    update_valid (record t { variable_store = vs }) n _ (λ m. refl) (λ m. refl) (λ m. refl)
      (λ m. refl) h

prepare-IsValid :
    (r : SchemaResolver) (t : Tree) (p id : ℕ) (name : String) (args : List (String × ℕ))
    → IsValid t
    → Leaves IsValid (prepare r t p id name args)
unfolding prepare prepare_at
prepare-IsValid r t p id name args h = elim (Option-cases (lookup p t.nodes)) [
  | inl g ↦ rw (g, prepare) tt
  | inr (qt, g) ↦ elim (Bool-cases (is_taken t qt id)) [
    | inl s ↦ rw (g, prepare, s) tt
    | inr s ↦
        let m = mint-IsValid t p qt id name h g in
        rw (g, prepare, s)
          ((elim (select r qt.ast id name)
            as (λ o. Leaves IsValid (elim o [
              | err e ↦ fail (mint t p qt id name) t.next e
              | ok sel ↦
                  complete (mint t p qt id name) t.next sel
                    (bind_arguments t.variable_store args [])
            ])) [
              | err e ↦ fail-IsValid (mint t p qt id name) t.next e m
              | ok sel ↦ complete-IsValid (mint t p qt id name) t.next sel _ m
            ]))
  ]
]

conclude-IsValid :
    (t : Tree) (p : ℕ) (add : Tree → ℕ → Tree) (o : Prepared)
    → IsValid t
    → Leaves IsValid o
    → ((t' : Tree) (n : ℕ) → IsValid t' → IsValid (add t' n))
    → IsValid (conclude t p add o).0
unfolding conclude
conclude-IsValid t p add (refused e) h g k = h
conclude-IsValid t p add (failed t' e) h g k = g
conclude-IsValid t p add (ready t' n) h g k = next_update-IsValid _ p _ (k t' n g)

mutual
  unfolding add_child

  add_child_valid :
      (r : SchemaResolver) (t : Tree) (p : ℕ) (m : QueryTreeNodeMsg)
      → IsValid t
      → IsValid (add_child r t p m).0
  add_child_valid r t p (query_tree_node id name args children) h =
      conclude-IsValid t p (λ t' n. add_children r t' n children) (prepare r t p id name args) h
        (prepare-IsValid r t p id name args h) (λ t' n g. add_children_valid r t' n children g)

  add_children_valid :
      (r : SchemaResolver) (t : Tree) (p : ℕ) (ms : QueryTreeNodeMsgs)
      → IsValid t
      → IsValid (add_children r t p ms)
  add_children_valid r t p end h = h
  add_children_valid r t p (child m ms) h =
      add_children_valid r (add_child r t p m).0 p ms (add_child_valid r t p m h)

-- On a well-formed tree `AddChild` on any node, with any subtree, leaves a well-formed tree.
pub add_child-IsValid :
    (r : SchemaResolver) (t : Tree) (p : ℕ) (m : QueryTreeNodeMsg)
    → IsValid t
    → IsValid (add_child r t p m).0
add_child-IsValid r t p m h = add_child_valid r t p m h
