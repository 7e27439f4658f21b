-- ===== src/Qtree/Mutation/Total.antt =====
-- A client's mutation of the tree ends, and keeps the tree well formed.
use magellan.Base.{
  ℕ, suc, ◌≤◌, ◌<◌, ◌≢◌, ◌⊎◌, none, length, ◌≡◌, refl, false, Option, some, List, [], ◌∷◌, arith,
  lookup, nat_key, Bool-cases, inl, inr,
}
use magellan.Qtree.VarStore
use magellan.Qtree.Tree.{SchemaResolver, Tree, new_query_tree}
use magellan.Qtree.Tree.Shape.{view, alive_of, children_of}
use magellan.Qtree.AddChild.{QueryTreeNodeMsg, add_child}
use magellan.Qtree.AddChild.Shapes.{IsValid}
use magellan.Qtree.Dispose.{dispose}
use magellan.Qtree.Dispose.Silent.{Silent}
use magellan.Qtree.Dispose.Total.{dispose-Ends}
use magellan.Qtree.Mutation.{
  NodeMutation, subtree_add_child, VariableMsg, TreeMutation, Applied, applied, blocked,
  err_ch_size,
}

-- A result that is there and is well formed.
pub record Ok (r : Option Tree) : Type 0 where
  pub result : Tree
  pub returns : r ≡ some result
  pub valid : IsValid result

stays : (t : Tree) → IsValid t → Ok (some t)
stays t h = record { result = t; returns = refl; valid = h }

dispose_gone : (fuel p : ℕ) (t : Tree) → view alive_of t p ≡ false → dispose (suc fuel) t p ≡ some t
unfolding dispose
dispose_gone fuel p t e = grind arith

pub dispose_Ok : (t : Tree) (p : ℕ) → IsValid t → Ok (dispose (suc t.next) t p)
dispose_Ok t p h = elim (Bool-cases (view alive_of t p)) [
  | inl a ↦
      let r = dispose-Ends (suc t.next) 0 p t h (omega arith) a (omega arith) in
      record { result = r.result; returns = r.returns; valid = r.disposed.wf }
  | inr a ↦ record { result = t; returns = dispose_gone t.next p t a; valid = h }
]

-- A well-formed tree whose errors have all found a place in `errCh`.
abbrev pub Serves : Tree → Type 0
Serves t = IsValid t × (length t.err_ch ≤ err_ch_size)

Among : NodeMutation → List NodeMutation → Type 0
Among m [] = ⊥
Among m (x ∷ xs) = (x ≡ m) ⊎ Among m xs

-- One of the additions makes an error for which `errCh` has no place.
pub Overflows : SchemaResolver → List NodeMutation → Type 0
Overflows r ms =
    (t : Tree) × (id p : ℕ) × (m : QueryTreeNodeMsg) × Serves t
    × (lookup id t.root_node_map ≡ some p)
    × Among (subtree_add_child id (some m)) ms
    × (err_ch_size < length (add_child r t p m).0.err_ch)

-- The mutation is applied to its end, or blocks at such an error.
unfoldable pub Ends : SchemaResolver → List NodeMutation → Applied → Type 0
Ends r ms a = ((u : Tree) × (a ≡ applied u) × Serves u) ⊎ ((a ≡ blocked) × Overflows r ms)

unfoldable pub HasNode : NodeMutation → Type 0
HasNode (subtree_add_child id m) = m ≢ none
HasNode _ = Unit

unfoldable pub HaveNodes : List NodeMutation → Type 0
HaveNodes [] = Unit
HaveNodes (m ∷ ms) = HasNode m × HaveNodes ms

unfoldable pub HaveValues : List VariableMsg → Type 0
HaveValues [] = Unit
HaveValues (v ∷ vs) = (v.value ≢ none) × HaveValues vs

-- The message has each node that it adds, and each variable's value.
abbrev pub IsFilled : TreeMutation → Type 0
IsFilled m = HaveValues m.variables × HaveNodes m.node_mutation

no_children : (root_query q : ℕ) → view children_of (new_query_tree root_query) q ≡ []
unfolding new_query_tree lookup
no_children root_query q = ground arith

-- A new tree is well formed.
pub new_query_tree-IsValid : (root_query : ℕ) → IsValid (new_query_tree root_query)
unfolding new_query_tree lookup
new_query_tree-IsValid root_query = record {
  fresh = λ q id e. ground arith;
  indexed = λ id q e. ground arith;
  older = λ q r e. ground arith;
  housed = λ q e. ground arith;
  family = λ q. rw (no_children root_query q) tt;
  distinct = λ q. rw (no_children root_query q) tt;
  living = λ q g. rw (no_children root_query q) tt;
}
