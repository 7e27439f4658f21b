-- ===== src/Client/Messages.antt =====
-- The handlers of magellan.go's messages.
use text.Mathlib.Text.{◌==◌ as str_eq}
use magellan.Base.{
  ℕ, suc, String, Bool, true, ◌||◌, Option, none, some, [], ◌∷◌, ◌++◌, lookup, insert, delete,
  nat_key, is_some, leb, ◌&&◌, if◌then◌else◌,
}
use magellan.Schema
use magellan.Schema.Setup.{Schema, BuiltModel, tree, refused, tree_panics, build_query_tree}
use magellan.Qtree.Tree.{SchemaResolver, Tree}
use magellan.Qtree.Mutation.{TreeMutation, Applied, applied, apply_tree_mutation}
use magellan.Execution.Model.Execute.{ExecutionContext, Executed, started, execute}
use magellan.Client.{
  path_cache_size, cache_lru, QueryExecution, as_execution, InitError, duplicate_id, tree_error,
  QueryError, ClientInstance,
}

pub record QueryInit : Type 0 where
  pub query_id : ℕ
  pub operation_type : String
  pub force_serial : Bool

-- How the handling of a message ends. `unfinished` is a mutation of a tree deeper than its fuel, and
-- `blocked` a send that never returns: on the full channel `errCh`, which nothing reads, or on the full
-- `addTreeChan` of a multiplexer that has returned.
pub data Handled : Type 0 where
  handled : ClientInstance → Handled
  unfinished blocked panicked : Handled

-- `send`: once the client is cancelled the select may give up or send; a send on the closed channel
-- panics.
unfoldable pub send : ClientInstance → QueryError → Handled
send c m =
    if c.is_cancelled && c.gives_up
    then handled c
    else if c.multiplexer_ended
    then panicked
    else handled (record c { sent = c.sent ++ m ∷ [] })

infixl 5 ◌>>=◌
abbrev pub ◌>>=◌ : Handled → (ClientInstance → Handled) → Handled
h >>= f = elim h [
  | handled c ↦ f c
  | unfinished ↦ unfinished
  | blocked ↦ blocked
  | panicked ↦ panicked
]

-- `ci.models[operation]` and `ci.resolvers[operation]`, for the two operations.
abbrev pub model_of : ClientInstance → String → Option BuiltModel
model_of c operation =
    if str_eq operation "mutation" then c.schema.mutation_model else c.schema.query_model

abbrev pub resolver_of : ClientInstance → String → Option ℕ
resolver_of c operation =
    if str_eq operation "mutation" then c.mutation_resolver else c.query_resolver

-- `ci.queries[msg.QueryId] = e; ci.multiplexer.AddExecution(e)`
unfoldable pub added : ClientInstance → ℕ → Option ExecutionContext → ClientInstance
unfolding as_execution
added c id ec =
    let e : QueryExecution = record {
      is_cancelled = c.is_cancelled;
      ec = ec;
      qid = id;
      outp_chan = c.next_chan;
      cache_size = path_cache_size;
      cache_strat = cache_lru;
    } in
    record c {
      queries = insert id e c.queries;
      adding = c.adding ++ as_execution e ∷ [];
      next_chan = suc c.next_chan;
      unread = if c.multiplexer_ended then suc c.unread else c.unread;
    }

-- The capacity of `addTreeChan`; the multiplexer takes from it until it returns.
abbrev pub add_tree_size : ℕ
add_tree_size = 5

unfoldable pub add_query : ClientInstance → ℕ → Option ExecutionContext → Handled
unfolding added
add_query c id ec =
    if c.multiplexer_ended && leb add_tree_size c.unread then blocked else handled (added c id ec)

-- `handleInitQuery` from the tree on: an error of `Execute` is dropped, and leaves a nil context.
unfoldable pub start_query : ClientInstance → QueryInit → Tree → Option BuiltModel → Handled
unfolding add_query execute
start_query c m t none = panicked
start_query c m t (some b) =
    elim (execute b.model t (resolver_of c m.operation_type)
      (b.model.serial_only || m.force_serial)) [
        | Executed.panicked ↦ panicked
        | Executed.refused x y ↦ add_query c m.query_id none
        | started ec ↦ add_query c m.query_id (some ec)
      ]

-- The deferred function of `handleInitQuery`.
unfoldable pub report : ClientInstance → ℕ → InitError → Handled
unfolding send
report c id e = send c (record { query_id = id; query_node_id = 0; error = e })

unfoldable pub handle_init_query : ClientInstance → QueryInit → Handled
unfolding start_query report build_query_tree
handle_init_query c m =
    if is_some (lookup m.query_id c.queries)
    then report c m.query_id duplicate_id
    else elim (build_query_tree c.schema m.operation_type) [
      | refused e ↦ report c m.query_id (tree_error e)
      | tree_panics ↦ panicked
      | tree t ↦ start_query c m t (model_of c m.operation_type)
    ]

-- The definitions that the query trees of a client look up.
abbrev pub resolver : Schema → SchemaResolver
resolver s = elim s.definitions [
  | none ↦ record { lookup_type = λ t. none; definition_at = λ a. none }
  | some d ↦ record {
    lookup_type = Schema.lookup_type d.parts;
    definition_at = λ a. lookup a d.heap;
  }
]

unfoldable pub with_tree :
    ClientInstance → ℕ → QueryExecution → ExecutionContext → Applied → Handled
with_tree c id q ec (applied t) = handled (record c {
  queries = insert id (record q { ec = some (record ec { qnode_root = t }) }) c.queries;
})
with_tree c id q ec Applied.panicked = panicked
with_tree c id q ec Applied.blocked = blocked
with_tree c id q ec Applied.unfinished = unfinished

-- The branch of `HandleMessage` for a mutation of the tree.
unfoldable pub handle_mutate_tree : ClientInstance → ℕ → TreeMutation → Handled
unfolding with_tree apply_tree_mutation
handle_mutate_tree c id m = elim (lookup id c.queries) [
  | none ↦ handled c
  | some q ↦ elim q.ec [
    | none ↦ panicked
    | some ec ↦ with_tree c id q ec (apply_tree_mutation (resolver c.schema) ec.qnode_root m)
  ]
]

unfoldable pub handle_finish_query : ClientInstance → ℕ → Handled
handle_finish_query c id = elim (lookup id c.queries) [
  | none ↦ handled c
  | some q ↦ handled (record c { queries = delete id c.queries })
]

-- `proto.RGQLClientMessage`; a mutation comes with its query's id.
pub record ClientMessage : Type 0 where
  pub init_query : Option QueryInit
  pub mutate_tree : Option (ℕ × TreeMutation)
  pub finish_query : Option ℕ

unfoldable pub handle_message : ClientInstance → ClientMessage → Handled
unfolding handle_init_query handle_mutate_tree handle_finish_query
handle_message c m =
    elim m.init_query [ none ↦ handled c | some i ↦ handle_init_query c i ] >>= λ c1.
    elim m.mutate_tree [ none ↦ handled c1 | some t ↦ handle_mutate_tree c1 t.0 t.1 ] >>= λ c2.
    elim m.finish_query [ none ↦ handled c2 | some f ↦ handle_finish_query c2 f ]

-- `Cancel`, which cancels the contexts of the queries too.
unfoldable pub cancel : ClientInstance → ClientInstance
cancel c = record c { is_cancelled = true }

-- `runMultiplexer` returns, and closes the send channel.
unfoldable pub end_multiplexer : ClientInstance → ℕ → ClientInstance
end_multiplexer c unread = record c { multiplexer_ended = true; unread = unread }
