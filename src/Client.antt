-- ===== src/Client.antt =====
-- magellan.go: the server and the client instances. A resolver object is known by its type. `sent` is
-- what the instance itself has sent, oldest first; `adding` is what it has handed to the result
-- multiplexer of result/result_multiplexer.go, oldest first.
pub mod Messages
pub mod Serving
pub mod Handlers
pub mod Starts
pub mod Refines
pub mod Mutations
use text.Mathlib.Text.{◌==◌ as str_eq}
use magellan.Base.{
  ℕ, suc, String, Bool, true, false, ◌||◌, not, ◌&&◌, Option, none, some, List, [], ◌∷◌, ◌++◌,
  lookup, insert, delete, nat_key, is_some, length, ltb, if◌then◌else◌,
}
use magellan.Schema
use magellan.Schema.Introspection
use magellan.Schema.Setup.{
  Globals, Schema, BuiltModel, Outcome, done, SetError, TreeError, tree, refused, tree_panics,
  from_document, parse, set_resolvers, has_query_resolvers, build_query_tree,
}
use magellan.Ast.{Definition}
use magellan.Ast.Nodes.{Syntax}
use magellan.Qtree.Tree.{SchemaResolver, Tree}
use magellan.Qtree.Mutation.{TreeMutation, apply_tree_mutation}
use magellan.Execution.Reflect.{Reflect}
use magellan.Execution.Model.Build.{Model}
use magellan.Execution.Model.Execute.{
  Validation, valid, mismatch, validate_resolver_instance, ExecutionContext, Executed, started,
  execute,
}
use magellan.Result.Multiplexer

-- `PathCacheSize`, and `RGQLValueInit_CACHE_LRU` of the protocol.
abbrev pub path_cache_size : ℕ
path_cache_size = 100

abbrev pub cache_lru : ℕ
cache_lru = 0

pub record Server : Type 0 where
  pub schema : Schema

pub data ServerError : Type 0 where
  schema_nil no_resolvers parse_failed : ServerError
  set_error : Outcome → ServerError

pub data NewServer : Type 0 where
  server : Server → NewServer
  server_failed : ServerError → NewServer

-- `NewServer`; `document` says whether the schema has a document.
unfoldable pub new_server : Option Schema → Bool → NewServer
new_server none document = server_failed schema_nil
new_server (some s) document =
    if not (is_some s.definitions) || not document || not (has_query_resolvers s)
    then server_failed no_resolvers
    else server (record { schema = s })

serve : Outcome × Schema → NewServer
unfolding new_server
serve (done, s) = new_server (some s) true
serve (o, s) = server_failed (set_error o)

-- `FromSchema`
unfoldable pub from_schema :
    Reflect → Syntax → ℕ → Globals → List (ℕ × Definition) → Option ℕ → Option ℕ → NewServer
unfolding serve from_document set_resolvers
from_schema r syn fuel g doc query mutation =
    serve (set_resolvers r syn fuel (from_document g doc) query mutation)

-- `ParseSchema`
unfoldable pub parse_schema :
    Reflect
    → Syntax
    → ℕ
    → Globals
    → (String → Option (List (ℕ × Definition)))
    → String
    → Option ℕ
    → Option ℕ
    → NewServer
unfolding serve parse set_resolvers
parse_schema r syn fuel g parser text query mutation = elim (parse g parser text) [
  | none ↦ server_failed parse_failed
  | some s ↦ serve (set_resolvers r syn fuel s query mutation)
]

-- `queryExecution`; `ec` is nil where `Execute` has failed.
pub record QueryExecution : Type 0 where
  pub is_cancelled : Bool
  pub ec : Option ExecutionContext
  pub qid : ℕ
  pub outp_chan : ℕ
  pub cache_size : ℕ
  pub cache_strat : ℕ

-- The methods `QueryId`, `Output`, `CacheSize` and `CacheStrategy`.
unfoldable pub as_execution : QueryExecution → Multiplexer.QueryExecution
as_execution e = record {
  query_id = e.qid;
  output = e.outp_chan;
  cache_size = e.cache_size;
  cache_strategy = e.cache_strat;
}

pub data InitError : Type 0 where
  duplicate_id : InitError
  tree_error : TreeError → InitError

-- `proto.RGQLQueryError`
pub record QueryError : Type 0 where
  pub query_id : ℕ
  pub query_node_id : ℕ
  pub error : InitError

-- `next_chan` is the first address that no output channel has. Three fields are what the rest of the
-- program decides: `gives_up` is the case that the select of `send` takes where both are ready,
-- `multiplexer_ended` says that `runMultiplexer` has returned, which closes the send channel, and `unread`
-- is how many executions `addTreeChan` then holds.
pub record ClientInstance : Type 0 where
  pub is_cancelled : Bool
  pub gives_up : Bool
  pub multiplexer_ended : Bool
  pub unread : ℕ
  pub sent : List QueryError
  pub adding : List Multiplexer.QueryExecution
  pub queries : List (ℕ × QueryExecution)
  pub schema : Schema
  pub query_resolver : Option ℕ
  pub mutation_resolver : Option ℕ
  pub next_chan : ℕ

pub data ClientError : Type 0 where
  no_send_channel : ClientError
  wrong_resolver : ℕ → ℕ → ClientError

pub data BuiltClient : Type 0 where
  client : ClientInstance → BuiltClient
  client_failed : ClientError → BuiltClient
  client_panics : BuiltClient

new_client : Schema → Option ℕ → Option ℕ → ClientInstance
new_client s query mutation = record {
  is_cancelled = false;
  gives_up = false;
  multiplexer_ended = false;
  unread = 0;
  sent = [];
  adding = [];
  queries = [];
  schema = s;
  query_resolver = query;
  mutation_resolver = mutation;
  next_chan = 0;
}

-- The check of one resolver object against its model; a nil model panics.
pub validated : Option BuiltModel → Option ℕ → BuiltClient → BuiltClient
unfolding validate_resolver_instance
validated none t next = client_panics
validated (some m) t next = elim (validate_resolver_instance m.model t) [
  | valid ↦ next
  | mismatch a b ↦ client_failed (wrong_resolver a b)
  | Validation.panicked ↦ client_panics
]

-- What is left of the mutation's resolver, and the check of it.
with_mutation : Schema → Option ℕ → Option ℕ → BuiltClient
unfolding validated new_client
with_mutation s query none = client (new_client s query none)
with_mutation s query (some t) =
    if is_some s.mutation_model
    then validated s.mutation_model (some t) (client (new_client s query (some t)))
    else client (new_client s query none)

-- `BuildClient`; `channel` says whether the send channel is not nil.
unfoldable pub build_client : Server → Bool → Option ℕ → Option ℕ → BuiltClient
unfolding validated with_mutation
build_client v channel query mutation =
    if channel
    then validated v.schema.query_model query (with_mutation v.schema query mutation)
    else client_failed no_send_channel
