-- ===== src/Qtree/Dispose.antt =====
-- `Dispose` of qtree/qtree.go. `none` is a recursion deeper than the fuel; a child's address is
-- above its parent's, so `t.next` is enough.
pub mod Frame
pub mod Loop
pub mod Ends
pub mod Stages
pub mod Total
pub mod Silent
use magellan.Base.{
  ℕ, zero, suc, String, Bool, true, false, Option, none, some, List, [], ◌∷◌, lookup, delete,
  nat_key, if◌then◌else◌, length, get_elem?,
}
use magellan.Qtree.VarStore.{VariableStore}
use magellan.Qtree.Subs.{op_delete}
use magellan.Qtree.Tree.{QueryTreeNode, Tree, update, next_update, remove_child}
use magellan.Qtree.Tree.Shape.{view, children_of}
use magellan.Qtree.AddChild.{unsubscribe_all}

infixl 5 ◌>>=◌
abbrev pub ◌>>=◌ : Option Tree → (Tree → Option Tree) → Option Tree
none >>= f = none
some t >>= f = f t

-- `close(qt.disposeChan)`, and the notification.
unfoldable pub begin_dispose : Tree → ℕ → Tree
begin_dispose t p = next_update (update t p (λ n. record n { is_disposed = true })) p op_delete

-- `for _, child := range qt.Children { child.Dispose() }` from the index `i`, `k` rounds left.
-- The range has its length from the start and reads the array that `removeChild` shifts: past the
-- remaining children the array holds nil, and `Dispose` on nil returns.
unfoldable pub dispose_children : (Tree → ℕ → Option Tree) → Tree → ℕ → ℕ → ℕ → Option Tree
dispose_children call t p i zero = some t
dispose_children call t p i (suc k) = elim (get_elem? (view children_of t p) i) [
  | none ↦ dispose_children call t p (suc i) k
  | some c ↦ call t c >>= λ t'. dispose_children call t' p (suc i) k
]

leave_parent : Tree → ℕ → Option ℕ → Tree
leave_parent t p none = t
leave_parent t p (some q) = remove_child t q p

drop_arguments : VariableStore → Option (List (String × ℕ)) → VariableStore
drop_arguments vs none = vs
drop_arguments vs (some args) = unsubscribe_all vs args

-- What follows the loop. `n` is the node as it was: the loop keeps its id, parent and arguments.
unfoldable pub end_dispose : Tree → ℕ → QueryTreeNode → Tree
unfolding leave_parent drop_arguments
end_dispose t p n =
    let cleared = update t p (λ m. record m { children = [] }) in
    let unmapped = record cleared { root_node_map = delete n.id t.root_node_map } in
    let left = leave_parent unmapped p n.parent in
    update (record left { variable_store = drop_arguments left.variable_store n.arguments }) p
      (λ m. record m { arguments = none })

unfoldable pub dispose : ℕ → Tree → ℕ → Option Tree
dispose zero t p = none
dispose (suc fuel) t p = elim (lookup p t.nodes) [
  | none ↦ some t
  | some n ↦
      if n.is_disposed
      then some t
      else dispose_children (dispose fuel) (begin_dispose t p) p 0 (length n.children) >>= λ t'.
          some (end_dispose t' p n)
]
