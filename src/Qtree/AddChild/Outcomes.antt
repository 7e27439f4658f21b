-- ===== src/Qtree/AddChild/Outcomes.antt =====
-- The guard of `AddChild` on the id of the new node.
use magellan.Base.{
  ℕ, String, ◌≡◌, ◌≢◌, ◌<◌, ◌∙◌, refl, ap, false, some, List, [], arith, lookup, insert, nat_key,
  lookup-insert,
}
use magellan.Qtree.VarStore.{VariableStore}
use magellan.Qtree.Tree.{
  SchemaResolver, ErrorValue, QueryTreeNode, Tree, next_update, set_error, mark_error,
}
use magellan.Qtree.AddChild.{
  query_tree_node, end, is_taken, mint, Outcome, ok, err, Selection, select, bind_arguments, fail,
  complete, prepare, prepare_at, conclude, add_child, add_children, Prepared, refused, failed,
  ready,
}

set_error-map :
    (t : Tree) (p : ℕ) (e : ErrorValue) → (set_error t p e).root_node_map ≡ t.root_node_map
unfolding set_error mark_error next_update
set_error-map t p e = ground arith

abbrev Maps : List (ℕ × ℕ) → Prepared → Type 0
Maps m (refused e) = ⊥
Maps m (failed t e) = t.root_node_map ≡ m
Maps m (ready t n) = t.root_node_map ≡ m

complete-Maps :
    (t : Tree) (n : ℕ) (sel : Selection) (b : VariableStore × Outcome (List (String × ℕ)))
    → Maps t.root_node_map (complete t n sel b)
unfolding complete fail
complete-Maps t n sel (vs, err e) = set_error-map _ n _
complete-Maps t n sel (vs, ok args) = refl

module _ (r : SchemaResolver) (t : Tree) (p id : ℕ) (name : String) (args : List (String × ℕ)) where
  prepare-Maps :
      (n : QueryTreeNode)
      → lookup p t.nodes ≡ some n
      → n.has_root_node_map ≡ false
      → Maps (insert id t.next t.root_node_map) (prepare r t p id name args)
  unfolding prepare prepare_at is_taken mint fail
  prepare-Maps n e m =
      let g : is_taken t n id ≡ false = rw (m, is_taken) in
      rw (e, prepare, g)
        ((elim (select r n.ast id name)
          as (λ o. Maps (insert id t.next t.root_node_map) (elim o [
            | err e ↦ fail (mint t p n id name) t.next e
            | ok sel ↦
                complete (mint t p n id name) t.next sel (bind_arguments t.variable_store args [])
          ])) [
            | err e ↦ set_error-map _ t.next _
            | ok sel ↦ complete-Maps (mint t p n id name) t.next sel _
          ]))

  conclude-map :
      (m : List (ℕ × ℕ)) (o : Prepared)
      → Maps m o
      → (conclude t p (λ t' n. add_children r t' n end) o).0.root_node_map ≡ m
  unfolding conclude add_children next_update
  conclude-map m (refused e) h = absurd h
  conclude-map m (failed t' e) h = h
  conclude-map m (ready t' n) h = h

  -- If a node has no node map (below the root) and the root's map has the new id for a node of the
  -- tree, `AddChild` on the node with no children binds the id to a new node instead.
  pub add_child_displaces :
      (n : QueryTreeNode) (q : ℕ)
      → lookup p t.nodes ≡ some n
      → n.has_root_node_map ≡ false
      → lookup id t.root_node_map ≡ some q
      → q < t.next
      → (lookup id (add_child r t p (query_tree_node id name args end)).0.root_node_map
          ≡ some t.next)
        × (q ≢ t.next)
  unfolding add_child
  add_child_displaces n q e m f l = (
    ap (lookup id) (conclude-map _ (prepare r t p id name args) (prepare-Maps n e m))
        ∙ grind (arith, lookup-insert),
    λ g. omega arith,
  )
