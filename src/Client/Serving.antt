-- ===== src/Client/Serving.antt =====
-- A client instance of magellan.go keeps serving: the handlers of its messages do not panic and do not
-- run out of work.
use mathlib.Core.Path.{subst}
use text.Mathlib.Text.{◌==◌ as str_eq}
use magellan.Base.{
  ◌⊎◌, true, leb, ◌&&◌, ℕ, ◌≤◌, ◌≡◌, ◌≢◌, refl, sym, ap, ◌∙◌, String, Bool, ◌||◌, Bool-cases,
  Option-cases, inl, inr, Option, none, some, List, [], ◌∷◌, ◌++◌, length, lookup, insert, delete,
  nat_key, lookup-insert, lookup-delete, ==_iff, arith,
}
use magellan.Qtree.Tree.{Tree, new_query_tree}
use magellan.Qtree.AddChild.Shapes.{IsValid}
use magellan.Qtree.Mutation.Total.{new_query_tree-IsValid}
use magellan.Execution.Context.{new_root_resolver_context, set_query_node}
use magellan.Execution.Model.Execute.{ExecutionContext, execute, validate_resolver_instance}
use magellan.Schema.Introspection
use magellan.Schema.Setup.{
  Schema, BuiltModel, TreeError, tree, no_root_mutation, no_root_query, tree_panics, root_tree,
  build_query_tree,
}
use magellan.Client.{ClientInstance, QueryExecution, InitError}
use magellan.Qtree.Mutation.{err_ch_size}
use magellan.Client.Messages.{
  QueryInit, Handled, handled, add_tree_size, model_of, resolver_of, send, report, add_query,
  start_query, added,
}

-- A query tree that is well formed, and whose errors have all found a place in `errCh`.
abbrev pub TreeServes : Tree → Type 0
TreeServes t = IsValid t × (length t.err_ch ≤ err_ch_size)

abbrev pub QueryServes : ℕ → QueryExecution → Type 0
QueryServes id q =
    (ec : ExecutionContext) × (q.ec ≡ some ec) × TreeServes ec.qnode_root × (q.qid ≡ id)

abbrev pub AllServe : List (ℕ × QueryExecution) → Type 0
AllServe m = (id : ℕ) (q : QueryExecution) → lookup id m ≡ some q → QueryServes id q

-- Each query of the client has its context and its tree.
abbrev pub Serves : ClientInstance → Type 0
Serves c = AllServe c.queries

pub insert-AllServe :
    (id : ℕ) (q : QueryExecution) (m : List (ℕ × QueryExecution))
    → QueryServes id q
    → AllServe m
    → AllServe (insert id q m)
insert-AllServe id q m new old j p e = elim (nat_key.dec id j) [
  | yes k ↦
      let same : q ≡ p = ground (arith, e, k, lookup-insert j id q m) in
      subst (λ x. QueryServes x p) k (subst (QueryServes id) same new)
  | no k ↦ old j p (ground (arith, e, k, lookup-insert j id q m))
]

pub delete-AllServe : (id : ℕ) (m : List (ℕ × QueryExecution)) → AllServe m → AllServe (delete id m)
delete-AllServe id m old j p e = old j p (ground (arith, e, lookup-delete j id m))

-- The operation has a model, the client's resolver object has the model's type, and the root is an
-- object or is missing.
abbrev pub Runs : ClientInstance → String → Type 0
Runs c operation =
    (b : BuiltModel) × (model_of c operation ≡ some b)
    × (resolver_of c operation ≡ some b.model.root_resolver_type)
    × (build_query_tree c.schema operation ≢ tree_panics)

-- A client that has handled a message and serves.
pub record Continues (c : ClientInstance) (h : Handled) : Type 0 where
  pub next : ClientInstance
  pub handles : h ≡ handled next
  pub serves : Serves next
  pub ended : next.multiplexer_ended ≡ c.multiplexer_ended
  pub schema : next.schema ≡ c.schema
  pub query_resolver : next.query_resolver ≡ c.query_resolver
  pub mutation_resolver : next.mutation_resolver ≡ c.mutation_resolver

-- Or it cannot go on, since the multiplexer has returned.
abbrev pub Goes : ClientInstance → Handled → Type 0
Goes c h =
    Continues c h ⊎ ((c.multiplexer_ended ≡ true) × ((d : ClientInstance) → h ≡ handled d → ⊥))

pub Continues-Runs :
    (c d : ClientInstance) (operation : String)
    → d.schema ≡ c.schema
    → d.query_resolver ≡ c.query_resolver
    → d.mutation_resolver ≡ c.mutation_resolver
    → Runs c operation
    → Runs d operation
Continues-Runs c d operation e f g (b, model, type, root) = (
  b,
  (ground (arith, e, model)),
  (ground (arith, f, g, type)),
  (λ k. root (ap (λ s. build_query_tree s operation) (sym e) ∙ k)),
)

pub idle : (c : ClientInstance) → Serves c → Continues c (handled c)
idle c h = record {
  next = c;
  handles = refl;
  serves = h;
  ended = refl;
  schema = refl;
  query_resolver = refl;
  mutation_resolver = refl;
}

pub report-Goes : (c : ClientInstance) (id : ℕ) (e : InitError) → Serves c → Goes c (report c id e)
unfolding report send
report-Goes c id e h = elim (Bool-cases (c.is_cancelled && c.gives_up)) [
  | inl k ↦ inl (subst (Continues c) (ground (arith, k)) (idle c h))
  | inr k ↦ elim (Bool-cases c.multiplexer_ended) [
    | inl m ↦ inr (m, λ d n. ground (arith, k, m, n))
    | inr m ↦ inl (record {
      next = record c {
        sent = c.sent ++ record { query_id = id; query_node_id = 0; error = e } ∷ [];
      };
      handles = ground (arith, k, m);
      serves = h;
      ended = refl;
      schema = refl;
      query_resolver = refl;
      mutation_resolver = refl;
    })
  ]
]

root_tree-TreeServes :
    (d : Introspection.Schema) (e : TreeError) (root : Option ℕ) (t : Tree)
    → root_tree d e root ≡ tree t
    → TreeServes t
unfolding root_tree new_query_tree
root_tree-TreeServes d e none t h = absurd (cc h)
root_tree-TreeServes d e (some a) t h =
    let k : new_query_tree a ≡ t = ground (arith, h) in
    subst TreeServes k (new_query_tree-IsValid a, no_errors a)
  where
    no_errors : (a : ℕ) → length (new_query_tree a).err_ch ≤ err_ch_size
    no_errors a = omega arith

pub build_query_tree-TreeServes :
    (s : Schema) (operation : String) (t : Tree)
    → build_query_tree s operation ≡ tree t
    → TreeServes t
unfolding build_query_tree
build_query_tree-TreeServes s operation t h = elim (Option-cases s.definitions) [
  | inl e ↦ absurd (ground (arith, h, e))
  | inr (d, e) ↦ elim (Bool-cases (str_eq operation "mutation")) [
    | inl m ↦
        root_tree-TreeServes d no_root_mutation d.parts.root_mutation t (ground (arith, h, e, m))
    | inr m ↦ elim (Bool-cases (str_eq operation "query")) [
      | inl q ↦
          root_tree-TreeServes d no_root_query d.parts.root_query t (ground (arith, h, e, m, q))
      | inr q ↦ absurd (ground (arith, h, e, m, q))
    ]
  ]
]

add_query-Goes :
    (c : ClientInstance) (id : ℕ) (ec : ExecutionContext)
    → Serves c
    → TreeServes ec.qnode_root
    → Goes c (add_query c id (some ec))
unfolding add_query added
add_query-Goes c id ec h t = elim (Bool-cases (c.multiplexer_ended && leb add_tree_size c.unread)) [
  | inl k ↦ inr (ground (arith, k), λ d n. ground (arith, k, n))
  | inr k ↦ inl (record {
    next = added c id (some ec);
    handles = ground (arith, k);
    serves = insert-AllServe id _ c.queries (ec, refl, t, refl) h;
    ended = refl;
    schema = refl;
    query_resolver = refl;
    mutation_resolver = refl;
  })
]

-- A tree that is built is started, where the operation runs.
pub start_query-starts :
    (c : ClientInstance) (m : QueryInit) (t : Tree)
    → Runs c m.operation_type
    → (ec : ExecutionContext) × (start_query c m t (model_of c m.operation_type)
        ≡ add_query c m.query_id (some ec))
      × (ec.qnode_root ≡ t)
unfolding start_query execute validate_resolver_instance
start_query-starts c m t (b, model, type, root) =
    let serial : Bool = b.model.serial_only || m.force_serial in
    let ec : ExecutionContext = record {
      execution = set_query_node (new_root_resolver_context serial t.root) 0 t.root;
      qnode_root = t;
      root_resolver = b.model.root_resolver;
    } in
    let same = (==_iff b.model.root_resolver_type b.model.root_resolver_type).1 refl in
    (ec, ground (arith, model, type, same), refl)

pub start_query-Goes :
    (c : ClientInstance) (m : QueryInit) (t : Tree)
    → Serves c
    → TreeServes t
    → Runs c m.operation_type
    → Goes c (start_query c m t (model_of c m.operation_type))
start_query-Goes c m t h s runs =
    let (ec, starts, root) = start_query-starts c m t runs in
    subst (Goes c) (sym starts) (add_query-Goes c m.query_id ec h (subst TreeServes (sym root) s))
