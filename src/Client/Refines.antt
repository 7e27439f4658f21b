-- ===== src/Client/Refines.antt =====
-- The queries of a client instance of magellan.go, against a map from ids to query trees.
pub mod Message
use mathlib.Core.Path.{subst}
use text.Mathlib.Text.{◌==◌ as str_eq}
use magellan.Base.{
  ℕ, suc, ◌≡◌, ◌≢◌, refl, sym, ap, ◌∙◌, ite, String, Bool, true, false, Bool-cases, Option-cases,
  inl, inr, ◌⊎◌, if_neg, Option, none, some, List, [], ◌∷◌, ◌++◌, length, lookup, insert, delete,
  nat_key, is_some, ltb, if◌then◌else◌, lookup-insert, lookup-delete, arith,
}
use magellan.Qtree.Tree.{Tree}
use magellan.Qtree.Mutation.{TreeMutation, Applied, applied, apply_tree_mutation}
use magellan.Execution.Model.Execute.{ExecutionContext}
use magellan.Schema.Setup.{
  Schema, TreeError, BuiltTree, tree, refused, tree_panics, build_query_tree,
}
use magellan.Client.{ClientInstance, QueryExecution, InitError, duplicate_id, tree_error}
use magellan.Client.Messages.{
  QueryInit, ClientMessage, Handled, handled, unfinished, blocked, panicked, ◌>>=◌, model_of, send,
  report, added, add_query, start_query, handle_init_query, resolver, with_tree, handle_mutate_tree,
  handle_finish_query, handle_message,
}
use magellan.Client.Serving.{Serves, Runs, Continues, Continues-Runs, start_query-starts}
use magellan.Client.Handlers.{operation-cases, init_Goes}

-- The tree of a client's query, if there is such a query.
abbrev tree_of : Option QueryExecution → Option Tree
tree_of none = none
tree_of (some q) = elim q.ec [ none ↦ none | some ec ↦ some ec.qnode_root ]

abbrev pub live : ClientInstance → ℕ → Option Tree
live c id = tree_of (lookup id c.queries)

-- What a message does to the entry `o` of the query `id`: a query that is new gets the operation's
-- tree, a mutation changes the tree of its query, and a query that is finished is gone.
abbrev pub spec_init : Schema → Option QueryInit → ℕ → Option Tree → Option Tree
spec_init s none id o = o
spec_init s (some m) id (some t) = some t
spec_init s (some m) id none =
    ite (nat_key.dec m.query_id id)
      (elim (build_query_tree s m.operation_type) [ tree t ↦ some t | _ ↦ none ]) none

-- The tree after a mutation that ends.
abbrev pub changed : Applied → Option Tree
changed (applied t) = some t
changed _ = none

abbrev pub spec_mutate : Schema → Option (ℕ × TreeMutation) → ℕ → Option Tree → Option Tree
spec_mutate s none id o = o
spec_mutate s (some m) id none = none
spec_mutate s (some m) id (some t) =
    ite (nat_key.dec m.0 id) (changed (apply_tree_mutation (resolver s) t m.1)) (some t)

abbrev pub spec_finish : Option ℕ → ℕ → Option Tree → Option Tree
spec_finish none id o = o
spec_finish (some f) id o = ite (nat_key.dec f id) none o

abbrev pub spec_message : Schema → ClientMessage → ℕ → Option Tree → Option Tree
spec_message s m id o =
    spec_finish m.finish_query id (spec_mutate s m.mutate_tree id (spec_init s m.init_query id o))

report-live :
    (c d : ClientInstance) (id : ℕ) (e : InitError)
    → report c id e ≡ handled d
    → d.queries ≡ c.queries
unfolding report send
report-live c d id e h = ground (arith, h)

add_query-live :
    (c : ClientInstance) (id j : ℕ) (ec : ExecutionContext)
    → live (added c id (some ec)) j ≡ ite (nat_key.dec id j) (some ec.qnode_root) (live c j)
unfolding added
add_query-live c id j ec = grind (arith, lookup-insert)

-- What is live at an id that is taken.
taken :
    (c : ClientInstance) (id : ℕ)
    → Serves c
    → is_some (lookup id c.queries) ≡ true
    → (t : Tree) × (live c id ≡ some t)
taken c id h e = elim (Option-cases (lookup id c.queries)) [
  | inl k ↦ absurd (ground (arith, e, k))
  | inr (q, k) ↦ let (ec, there, well, same) = h id q k in (ec.qnode_root, ground (arith, k, there))
]

-- The entry stays where the query is another's, is there already or gets no tree.
spec_init-kept :
    (s : Schema) (m : QueryInit) (j : ℕ) (o : Option Tree)
    → (m.query_id ≡ j
        → o ≡ none
        → (e : TreeError) × (build_query_tree s m.operation_type ≡ refused e))
    → o ≡ spec_init s (some m) j o
spec_init-kept s m j (some t) h = refl
spec_init-kept s m j none h = elim (nat_key.dec m.query_id j) [
  | no k ↦ ground (arith, k)
  | yes k ↦ let (e, r) = h k refl in ground (arith, k, r)
]

-- The entry of a query that gets the tree `t`.
spec_init-started :
    (s : Schema) (m : QueryInit) (j : ℕ) (o : Option Tree) (t : Tree)
    → build_query_tree s m.operation_type ≡ tree t
    → (m.query_id ≡ j → o ≡ none)
    → ite (nat_key.dec m.query_id j) (some t) o ≡ spec_init s (some m) j o
spec_init-started s m j o t e h = elim (nat_key.dec m.query_id j) [
  | no k ↦
      if_neg (nat_key.dec m.query_id j) k (some t) o ∙ spec_init-kept s m j o (λ y. absurd (k y))
  | yes k ↦ ground (arith, k, e, h k)
]

same-live : (c d : ClientInstance) (j : ℕ) → d.queries ≡ c.queries → live d j ≡ live c j
same-live c d j e = ap (λ q. tree_of (lookup j q)) e

pub add_query-added :
    (c d : ClientInstance) (id : ℕ) (ec : Option ExecutionContext)
    → add_query c id ec ≡ handled d
    → d ≡ added c id ec
unfolding add_query
add_query-added c d id ec h = ground arith

fresh-live :
    (c d : ClientInstance) (m : QueryInit) (j : ℕ)
    → Runs c m.operation_type
      ⊎ ((e : TreeError) × (build_query_tree c.schema m.operation_type ≡ refused e))
    → lookup m.query_id c.queries ≡ none
    → handle_init_query c m ≡ handled d
    → live d j ≡ spec_init c.schema (some m) j (live c j)
unfolding handle_init_query
fresh-live c d m j (inr (x, r)) k e =
    same-live c d j (report-live c d m.query_id (tree_error x) (ground (arith, e, k, r)))
    ∙ spec_init-kept c.schema m j (live c j) (λ _ _. (x, r))
fresh-live c d m j (inl runs) k e = built (build_query_tree c.schema m.operation_type) refl
  where
    built :
        (b : BuiltTree)
        → build_query_tree c.schema m.operation_type ≡ b
        → live d j ≡ spec_init c.schema (some m) j (live c j)
    built (refused x) r =
        same-live c d j (report-live c d m.query_id (tree_error x) (ground (arith, e, k, r)))
        ∙ spec_init-kept c.schema m j (live c j) (λ _ _. (x, r))
    built tree_panics r = absurd (runs.3 r)
    built (tree t) r =
        let (ec, starts, root) = start_query-starts c m t runs in
        let state = add_query-added c d m.query_id (some ec) (ground (arith, e, k, r, starts)) in
        ap (λ x. live x j) state
        ∙ add_query-live c m.query_id j ec
        ∙ ap (λ x. ite (nat_key.dec m.query_id j) (some x) (live c j)) root
        ∙ spec_init-started c.schema m j (live c j) t r (λ y. ap (live c) (sym y) ∙ ap tree_of k)

pub init-live :
    (c d : ClientInstance) (m : QueryInit) (j : ℕ)
    → Serves c
    → Runs c "query"
    → Runs c "mutation"
    → handle_init_query c m ≡ handled d
    → live d j ≡ spec_init c.schema (some m) j (live c j)
unfolding handle_init_query
init-live c d m j h query mutation e = elim (Option-cases (lookup m.query_id c.queries)) [
  | inl k ↦ fresh-live c d m j (operation-cases c m.operation_type query mutation) k e
  | inr (q, k) ↦
      let (t, there) = taken c m.query_id h (ap is_some k) in
      same-live c d j (report-live c d m.query_id duplicate_id (ground (arith, e, k)))
      ∙ spec_init-kept c.schema m j (live c j) (λ y z. absurd (cc (sym there ∙ ap (live c) y ∙ z)))
]
