-- ===== src/Client/Handlers.antt =====
-- The handlers of magellan.go's messages, for a client that serves.
use mathlib.Core.Path.{subst}
use text.Mathlib.Text.{◌==◌ as str_eq}
use text.Mathlib.TextEquality.{eq_iff}
use magellan.Base.{
  ℕ, ◌≡◌, ◌≢◌, ◌⊎◌, refl, sym, String, false, Bool-cases, Option-cases, inl, inr, Option, none,
  some, lookup, nat_key, is_some, arith,
}
use magellan.Qtree.Mutation.{TreeMutation}
use magellan.Qtree.Mutation.Total.{IsFilled}
use magellan.Schema.Setup.{
  Schema, TreeError, BuiltTree, tree, refused, not_parsed, unsupported_operation, tree_panics,
  build_query_tree,
}
use magellan.Client.{ClientInstance, duplicate_id, tree_error}
use magellan.Client.Messages.{QueryInit, handle_init_query}
use magellan.Client.Serving.{
  Serves, Runs, Goes, report-Goes, build_query_tree-TreeServes, start_query-Goes,
}

-- What `handle_init_query` does with the tree.
fresh_Goes :
    (c : ClientInstance) (m : QueryInit) (b : BuiltTree)
    → Serves c
    → Runs c m.operation_type
    → b ≢ tree_panics
    → is_some (lookup m.query_id c.queries) ≡ false
    → build_query_tree c.schema m.operation_type ≡ b
    → Goes c (handle_init_query c m)
unfolding handle_init_query
fresh_Goes c m (refused x) h runs root e k =
    subst (Goes c) (ground (arith, e, k)) (report-Goes c m.query_id (tree_error x) h)
fresh_Goes c m tree_panics h runs root e k = absurd (root refl)
fresh_Goes c m (tree t) h runs root e k =
    subst (Goes c) (ground (arith, e, k))
      (start_query-Goes c m t h (build_query_tree-TreeServes c.schema m.operation_type t k) runs)

-- An operation that is neither is refused.
unsupported :
    (s : Schema) (operation : String)
    → str_eq operation "mutation" ≡ false
    → str_eq operation "query" ≡ false
    → (e : TreeError) × (build_query_tree s operation ≡ refused e)
unfolding build_query_tree
unsupported s operation m q = elim (Option-cases s.definitions) [
  | inl e ↦ (not_parsed, ground (arith, e))
  | inr (d, e) ↦ (unsupported_operation, ground (arith, e, m, q))
]

pub operation-cases :
    (c : ClientInstance) (operation : String)
    → Runs c "query"
    → Runs c "mutation"
    → Runs c operation ⊎ ((e : TreeError) × (build_query_tree c.schema operation ≡ refused e))
operation-cases c operation query mutation = elim (Bool-cases (str_eq operation "mutation")) [
  | inl m ↦ inl (subst (Runs c) (sym ((eq_iff operation "mutation").0 m)) mutation)
  | inr m ↦ elim (Bool-cases (str_eq operation "query")) [
    | inl q ↦ inl (subst (Runs c) (sym ((eq_iff operation "query").0 q)) query)
    | inr q ↦ inr (unsupported c.schema operation m q)
  ]
]

pub init_Goes :
    (c : ClientInstance) (m : QueryInit)
    → Serves c
    → Runs c "query"
    → Runs c "mutation"
    → Goes c (handle_init_query c m)
unfolding handle_init_query
init_Goes c m h query mutation = elim (Bool-cases (is_some (lookup m.query_id c.queries))) [
  | inl e ↦ subst (Goes c) (ground (arith, e)) (report-Goes c m.query_id duplicate_id h)
  | inr e ↦ elim (operation-cases c m.operation_type query mutation) [
    | inl r ↦ fresh_Goes c m (build_query_tree c.schema m.operation_type) h r (r.3) e refl
    | inr (x, k) ↦ subst (Goes c) (ground (arith, e, k)) (report-Goes c m.query_id (tree_error x) h)
  ]
]

-- The message has each node that it adds, and each variable's value.
abbrev pub IsFilledMessage : Option (ℕ × TreeMutation) → Type 0
IsFilledMessage none = Unit
IsFilledMessage (some m) = IsFilled m.1
