-- ===== src/Qtree/Mutation.antt =====
-- `ApplyTreeMutation` of qtree/qtree.go.
pub mod Total
use magellan.Base.{
  ℕ, suc, Bool, true, false, not, ◌&&◌, length, ltb, Option, none, some, List, [], ◌∷◌, lookup,
  nat_key, ◌==◌, if◌then◌else◌,
}
use magellan.Qtree.VarStore
use magellan.Qtree.VarStore.{Primitive, VariableStore}
use magellan.Qtree.Tree.{SchemaResolver, Tree}
use magellan.Qtree.AddChild.{QueryTreeNodeMsg, add_child}
use magellan.Qtree.Dispose.{dispose}

-- `RGQLQueryTreeMutation_NodeMutation`: the node's id, and the operation with its subtree, which the
-- message may leave unset. The elements of a repeated field of a message are set.
pub data NodeMutation : Type 0 where
  subtree_add_child : ℕ → Option QueryTreeNodeMsg → NodeMutation
  subtree_delete : ℕ → NodeMutation
  other_operation : ℕ → NodeMutation

-- `proto.ASTVariable`; its value may be unset.
pub record VariableMsg : Type 0 where
  pub id : ℕ
  pub value : Option Primitive

-- `proto.RGQLQueryTreeMutation`
pub record TreeMutation : Type 0 where
  pub variables : List VariableMsg
  pub node_mutation : List NodeMutation

-- How a mutation ends. `blocked` is the send of an error on the full channel `errCh`, which nothing
-- reads; `unfinished` a recursion deeper than the fuel.
pub data Applied : Type 0 where
  applied : Tree → Applied
  panicked blocked unfinished : Applied

infixl 5 ◌>>=◌
abbrev pub ◌>>=◌ : Applied → (Tree → Applied) → Applied
a >>= f = elim a [
  | applied t ↦ f t
  | panicked ↦ panicked
  | blocked ↦ blocked
  | unfinished ↦ unfinished
]

-- The loop over the variables; none is the panic of `unpackValue` on nil.
unfoldable pub put_all : VariableStore → List VariableMsg → Option VariableStore
put_all vs [] = some vs
put_all vs (v ∷ rest) = elim v.value [
  | none ↦ none
  | some x ↦ put_all (VarStore.put vs (record { id = v.id; value = x })) rest
]

-- The capacity of `errCh`.
abbrev pub err_ch_size : ℕ
err_ch_size = 10

-- The end of an `AddChild`: an error more than `errCh` holds is one whose send never returns.
unfoldable pub sent : Tree → Applied
sent t = if ltb err_ch_size (length t.err_ch) then blocked else applied t

unfoldable pub delete_at : Tree → ℕ → ℕ → Applied
delete_at t id p =
    if not (id == 0) && not (p == t.root)
    then elim (dispose (suc t.next) t p) [ none ↦ unfinished | some u ↦ applied u ]
    else applied t

-- `nod.AddChild(aqn.Node)`, which panics on a nil node.
unfoldable pub add_at : SchemaResolver → Tree → ℕ → Option QueryTreeNodeMsg → Applied
unfolding sent
add_at r t p none = panicked
add_at r t p (some m) = sent (add_child r t p m).0

unfoldable pub apply_node : SchemaResolver → Tree → NodeMutation → Applied
unfolding delete_at add_at
apply_node r t (subtree_add_child id m) = elim (lookup id t.root_node_map) [
  | none ↦ applied t
  | some p ↦ add_at r t p m
]
apply_node r t (subtree_delete id) = elim (lookup id t.root_node_map) [
  | none ↦ applied t
  | some p ↦ delete_at t id p
]
apply_node r t (other_operation id) = applied t

unfoldable pub apply_nodes : SchemaResolver → Tree → List NodeMutation → Applied
apply_nodes r t [] = applied t
apply_nodes r t (m ∷ ms) = apply_node r t m >>= λ t'. apply_nodes r t' ms

unfoldable pub apply_tree_mutation : SchemaResolver → Tree → TreeMutation → Applied
unfolding put_all
apply_tree_mutation r t mutation = elim (put_all t.variable_store mutation.variables) [
  | none ↦ panicked
  | some vs ↦ apply_nodes r (record t { variable_store = vs }) mutation.node_mutation >>= λ t'.
      applied (record t' { variable_store = VarStore.garbage_collect t'.variable_store })
]
