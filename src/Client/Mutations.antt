-- ===== src/Client/Mutations.antt =====
-- How a query is answered, and a mutation that no resolver object serves (magellan.go).
use mathlib.Core.Path.{subst}
use magellan.Base.{
  ◌≡◌, sym, ℕ, Bool, lookup-nil, ◌&&◌, refl, true, false, Option, none, some, Option-cases, inl,
  inr, List, [], ◌∷◌, ◌++◌, lookup, nat_key, is_some, Bool-cases, ◌||◌, append-nil, lookup-insert,
  arith,
}
use magellan.Qtree.Tree.{Tree}
use magellan.Execution.Model.Execute.{
  ExecutionContext, Executed, started, execute, validate_resolver_instance,
}
use magellan.Schema.Setup.{BuiltModel, BuiltTree, tree, refused, tree_panics, build_query_tree}
use magellan.Result.Multiplexer
use magellan.Client.Starts.{validated-client}
use magellan.Client.Refines.{add_query-added}
use magellan.Client.{
  Server, QueryExecution, client, build_client, with_mutation, new_client, ClientInstance,
  QueryError, InitError, duplicate_id, tree_error, as_execution,
}
use magellan.Client.Messages.{
  QueryInit, ClientMessage, handled, panicked, handle_message, model_of, resolver_of, send, report,
  added, add_query, start_query, handle_init_query,
}

init-panics :
    (c : ClientInstance) (m : QueryInit) (t : Tree)
    → lookup m.query_id c.queries ≡ none
    → build_query_tree c.schema m.operation_type ≡ tree t
    → ((b : BuiltModel)
        → model_of c m.operation_type ≡ some b
        → resolver_of c m.operation_type ≡ none)
    → handle_init_query c m ≡ panicked
unfolding handle_init_query start_query execute validate_resolver_instance
init-panics c m t e k h = elim (Option-cases (model_of c m.operation_type)) [
  | inl n ↦ ground (arith, e, k, n)
  | inr (b, n) ↦ ground (arith, e, k, n, h b n)
]

-- A client that is built without a resolver for mutations, of a server whose schema has a root for them:
-- any message that starts a mutation panics, whatever its id and the rest of it.
pub build_client-panics :
    (v : Server) (query : Option ℕ) (c : ClientInstance) (t : Tree) (m : ClientMessage) (id : ℕ)
    (serial : Bool)
    → build_client v true query none ≡ client c
    → build_query_tree v.schema "mutation" ≡ tree t
    → m.init_query
      ≡ some (record { query_id = id; operation_type = "mutation"; force_serial = serial })
    → handle_message c m ≡ panicked
unfolding build_client with_mutation new_client handle_message
build_client-panics v query c t m id serial h k i =
    let (b, bm, bt, next) =
      validated-client v.schema.query_model query (with_mutation v.schema query none) c h in
    let new : new_client v.schema query none ≡ c = cc next in
    let start : QueryInit = record {
      query_id = id;
      operation_type = "mutation";
      force_serial = serial;
    } in
    let stops : handle_init_query c start ≡ panicked =
      subst (λ x. handle_init_query x start ≡ panicked) new
        (init-panics (new_client v.schema query none) start t (lookup-nil {V = QueryExecution} id) k
          (λ b e. refl)) in
    ground (arith, i, stops)

-- The error that a refused query is answered with.
abbrev pub refusal : ClientInstance → QueryInit → Option InitError
refusal c m = elim (lookup m.query_id c.queries) [
  | some q ↦ some duplicate_id
  | none ↦ elim (build_query_tree c.schema m.operation_type) [
    | refused e ↦ some (tree_error e)
    | _ ↦ none
  ]
]

abbrev pub answer : ClientInstance → QueryInit → Option InitError → List QueryError
answer c m none = []
answer c m (some e) = elim (c.is_cancelled && c.gives_up) [
  | true ↦ []
  | false ↦ record { query_id = m.query_id; query_node_id = 0; error = e } ∷ []
]

-- What the handling of a query has done: an error is answered and nothing else changes, or nothing is
-- answered and the multiplexer is given one execution more, of the query.
abbrev pub Answered : ClientInstance → ClientInstance → QueryInit → Option InitError → Type 0
Answered c d m (some e) =
    (d.sent ≡ c.sent ++ answer c m (some e)) × (d.queries ≡ c.queries) × (d.adding ≡ c.adding)
Answered c d m none =
    (d.sent ≡ c.sent)
    × (is_some (lookup m.query_id d.queries) ≡ true)
    × ((e : Multiplexer.QueryExecution) × (d.adding ≡ c.adding ++ e ∷ [])
        × (e.query_id ≡ m.query_id))

report-Answered :
    (c d : ClientInstance) (m : QueryInit) (e : InitError)
    → report c m.query_id e ≡ handled d
    → Answered c d m (some e)
unfolding report send
report-Answered c d m e h = elim (Bool-cases (c.is_cancelled && c.gives_up)) [
  | inl k ↦ (ground (arith, h, k, append-nil c.sent), ground (arith, h, k), ground (arith, h, k))
  | inr k ↦ elim (Bool-cases c.multiplexer_ended) [
    | inl n ↦ absurd (ground (arith, h, k, n))
    | inr n ↦ (ground (arith, h, k, n), ground (arith, h, k, n), ground (arith, h, k, n))
  ]
]

add_query-Answered :
    (c d : ClientInstance) (m : QueryInit) (ec : Option ExecutionContext)
    → add_query c m.query_id ec ≡ handled d
    → Answered c d m none
unfolding added as_execution
add_query-Answered c d m ec h =
    subst (λ x. Answered c x m none) (sym (add_query-added c d m.query_id ec h))
      (refl, grind (arith, lookup-insert), (_, refl, refl))

start_query-Answered :
    (c d : ClientInstance) (m : QueryInit) (t : Tree) (o : Option BuiltModel)
    → start_query c m t o ≡ handled d
    → Answered c d m none
unfolding start_query
start_query-Answered c d m t none h = absurd (cc h)
start_query-Answered c d m t (some b) h =
    ended
      (execute b.model t (resolver_of c m.operation_type) (b.model.serial_only || m.force_serial)) h
  where
    ended :
        (x : Executed)
        → elim x [
          | Executed.panicked ↦ panicked
          | Executed.refused y z ↦ add_query c m.query_id none
          | started ec ↦ add_query c m.query_id (some ec)
        ]
          ≡ handled d
        → Answered c d m none
    ended Executed.panicked k = absurd (cc k)
    ended (Executed.refused y z) k = add_query-Answered c d m none k
    ended (started ec) k = add_query-Answered c d m (some ec) k

-- A query that is handled is answered with one error, which names its id and the node 0, if its id is
-- taken or its tree is refused; then neither the queries nor what the multiplexer is given change, and
-- the one case without the answer is a client that has been cancelled and gives up the send. Otherwise nothing is sent, the query is there, and
-- the multiplexer is given one execution, of the query's id.
pub handle_init_query-Answered :
    (c d : ClientInstance) (m : QueryInit)
    → handle_init_query c m ≡ handled d
    → Answered c d m (refusal c m)
unfolding handle_init_query
handle_init_query-Answered c d m h = elim (Option-cases (lookup m.query_id c.queries)) [
  | inr (q, k) ↦
      let r : some duplicate_id ≡ refusal c m = ground (arith, k) in
      subst (Answered c d m) r (report-Answered c d m duplicate_id (ground (arith, h, k)))
  | inl k ↦ built k (build_query_tree c.schema m.operation_type) refl
]
  where
    built :
        lookup m.query_id c.queries ≡ none
        → (b : BuiltTree) → build_query_tree c.schema m.operation_type ≡ b
        → Answered c d m (refusal c m)
    built k (refused x) e =
        let r : some (tree_error x) ≡ refusal c m = ground (arith, k, e) in
        subst (Answered c d m) r (report-Answered c d m (tree_error x) (ground (arith, h, k, e)))
    built k tree_panics e = absurd (ground (arith, h, k, e))
    built k (tree t) e =
        let r : none ≡ refusal c m = ground (arith, k, e) in
        subst (Answered c d m) r
          (start_query-Answered c d m t (model_of c m.operation_type) (ground (arith, h, k, e)))
