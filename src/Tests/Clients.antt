-- ===== src/Tests/Clients.antt =====
-- A server and its clients (magellan.go): the person of the models is both the query and the mutation.
use magellan.Base.{
  ℕ, ◌≡◌, refl, true, false, Option, none, some, List, [], ◌∷◌, lookup, insert, delete, retain,
  modify, nat_key, string_key,
}
use magellan.Ast.{named, FieldDefinition, Definition, schema, object, scalar}
use magellan.Schema.{
  empty_parts, document_to_parts, add_definitions, add_named, classify, add_operations, name_of,
  lookup_type, apply, apply_one,
}
use magellan.Schema.Introspection
use magellan.Schema.Introspection.{
  has_schema_field, with_schema_field, add_primitives, add_system, on_root, apply_introspection,
}
use magellan.Schema.Setup.{
  Globals, Schema, done, from_document, named_object, set_model, set_resolvers, has_query_resolvers,
  root_tree, build_query_tree,
}
use magellan.Schema.Setup.Models.{HasModel, set_resolvers-HasModel}
use magellan.Qtree.VarStore.{garbage_collect, put, new_variable_store}
use magellan.Qtree.Tree.{new_query_tree}
use magellan.Qtree.Mutation.{
  put_all, sent, delete_at, add_at, apply_node, apply_nodes, apply_tree_mutation,
}
use magellan.Execution.Context.{new_root_resolver_context, set_query_node}
use magellan.Execution.Model.Execute.{validate_resolver_instance, execute}
use magellan.Client.{
  Server, new_server, from_schema, ClientInstance, BuiltClient, client, build_client, as_execution,
}
use magellan.Client.Messages.{
  QueryInit, Handled, handled, panicked, send, report, added, add_query, start_query,
  handle_init_query, with_tree, handle_mutate_tree, handle_finish_query, ClientMessage,
  handle_message, cancel,
}
use magellan.Client.Serving.{Serves, Runs}
use magellan.Client.Starts.{build_client-Serves}
use magellan.Client.Refines.{live, spec_message}
use magellan.Client.Refines.Message.{handle_message-refines}
use magellan.Client.Mutations.{refusal, Answered, build_client-panics, handle_init_query-Answered}
use magellan.Tests.Models
use magellan.Tests.Models.{reflection, syntax}

program : Unit {0}
unfolding Models.program document_to_parts add_definitions add_named classify add_operations name_of
    lookup_type apply apply_one has_schema_field with_schema_field add_primitives add_system on_root
    apply_introspection from_document named_object set_model set_resolvers has_query_resolvers
    root_tree build_query_tree garbage_collect put new_variable_store new_query_tree put_all sent
    delete_at add_at apply_node apply_nodes apply_tree_mutation new_root_resolver_context
    set_query_node validate_resolver_instance execute new_server from_schema build_client
    as_execution send report added add_query start_query handle_init_query with_tree
    handle_mutate_tree handle_finish_query handle_message cancel lookup insert delete retain modify
    nat_key string_key
program = tt

abbrev name_field : FieldDefinition
name_field = record { name = some "name"; type = named (some "String"); arguments = [] }

abbrev document : List (ℕ × Definition)
document =
    (0, object (record { name = some "Person"; fields = name_field ∷ [] }))
    ∷ (
      1,
      schema (
          record { operation = "query"; type = named (some "Person") }
          ∷ record { operation = "mutation"; type = named (some "Person") }
          ∷ []),
    )
    ∷ []

abbrev globals : Globals
globals = record {
  primitives = ("String", 2) ∷ [];
  introspection_ast = empty_parts;
  definitions = (2, scalar (some "String")) ∷ [];
}

abbrev parsed : Schema
parsed = from_document globals document

-- The schema with the models of both operations, and with that of the query alone.
abbrev set : Option ℕ → Schema
set mutation = (set_resolvers reflection syntax 9 parsed (some 0) mutation).1

set_succeeds : (set_resolvers reflection syntax 9 parsed (some 0) (some 0)).0 ≡ done
unfolding program
set_succeeds = refl

abbrev served : Server
served = record { schema = set (some 0) }

abbrev half_served : Server
half_served = record { schema = set none }

abbrev client_of : BuiltClient → ClientInstance
client_of (client c) = c
client_of _ = record {
  is_cancelled = true;
  gives_up = false;
  multiplexer_ended = false;
  unread = 0;
  sent = [];
  adding = [];
  queries = [];
  schema = parsed;
  query_resolver = none;
  mutation_resolver = none;
  next_chan = 0;
}

abbrev first : ClientInstance
first = client_of (build_client served true (some 0) (some 0))

abbrev start : ClientMessage
start = record {
  init_query = some (record { query_id = 7; operation_type = "query"; force_serial = false });
  mutate_tree = none;
  finish_query = none;
}

abbrev state_of : Handled → ClientInstance
state_of (handled c) = c
state_of _ = first

abbrev running : ClientInstance
running = state_of (handle_message first start)

started : live running 7 ≡ some (new_query_tree 0)
unfolding program
started = refl

first-Serves : Serves first × Runs first "query" × Runs first "mutation"
unfolding program
first-Serves =
    build_client-Serves reflection syntax 9 globals document 0 0 served (some 0) 0 first refl refl

build_client-Serves_example : Serves first × Runs first "query" × Runs first "mutation"
unfolding program
build_client-Serves_example =
    build_client-Serves reflection syntax 9 globals document 0 0 served (some 0) 0 first refl refl

handle_message-refines_example : live running 7 ≡ spec_message first.schema start 7 (live first 7)
unfolding program
handle_message-refines_example =
    handle_message-refines first running start 7 first-Serves.0 first-Serves.1 first-Serves.2 refl

-- The query again.
abbrev again : QueryInit
again = record { query_id = 7; operation_type = "query"; force_serial = true }

abbrev running_again : ClientInstance
running_again = state_of (handle_init_query running again)

handle_init_query-Answered_example : Answered running running_again again (refusal running again)
unfolding program
handle_init_query-Answered_example = handle_init_query-Answered running running_again again refl

-- A mutation of the server that has no resolver for mutations.
abbrev half : ClientInstance
half = client_of (build_client half_served true (some 0) none)

abbrev mutation_start : ClientMessage
mutation_start = record {
  init_query = some (record { query_id = 1; operation_type = "mutation"; force_serial = false });
  mutate_tree = none;
  finish_query = none;
}

build_client-panics_example : handle_message half mutation_start ≡ panicked
unfolding program
build_client-panics_example =
    build_client-panics half_served (some 0) half (new_query_tree 0) mutation_start 1 false refl
      refl refl

set_resolvers-HasModel_example :
    (d : Introspection.Schema) × (parsed.definitions ≡ some d)
    × ((set (some 0)).definitions ≡ some d)
    × HasModel d d.parts.root_query false 0 (set (some 0)).query_model
    × HasModel d d.parts.root_mutation true 0 (set (some 0)).mutation_model
unfolding program
set_resolvers-HasModel_example =
    set_resolvers-HasModel reflection syntax 9 parsed (set (some 0)) 0 0 refl
