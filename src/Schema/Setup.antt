-- ===== src/Schema/Setup.antt =====
-- schema/schema.go: a schema with its models. The models' resolvers stand in the builder's state that
-- comes with a model; a resolver object is known by its type.
pub mod Models
use text.Mathlib.Text.{◌==◌ as str_eq}
use magellan.Base.{
  ℕ, String, Bool, true, false, ◌||◌, not, Option, none, some, List, [], ◌∷◌, ◌++◌, lookup, nat_key,
  is_some, if◌then◌else◌,
}
use magellan.Ast.{Definition, ObjectDefinition, object}
use magellan.Ast.Nodes.{Syntax}
use magellan.Schema.{AstParts, document_to_parts}
use magellan.Schema.Introspection
use magellan.Schema.Introspection.{apply_introspection}
use magellan.Introspect.{SchemaResolver}
use magellan.Qtree.Tree.{Tree, new_query_tree}
use magellan.Execution.Reflect.{Reflect}
use magellan.Execution.Model.{BuildError, Builder, Built}
use magellan.Execution.Model.Build.{Model, build_model}

pub record BuiltModel : Type 0 where
  pub model : Model
  pub builder : Builder

-- `Schema`; `definitions` has the document's definitions with the parts.
pub record Schema : Type 0 where
  pub definitions : Option Introspection.Schema
  pub schema_resolver : Option SchemaResolver
  pub query_model : Option BuiltModel
  pub mutation_model : Option BuiltModel
  pub cache_size : ℕ

-- The package variables that `FromDocument` reads: `GraphQLPrimitivesAST` of types/primitive.go, the
-- parts of the introspection document of schema/meta.go, and the definitions of both.
pub record Globals : Type 0 where
  pub primitives : List (String × ℕ)
  pub introspection_ast : AstParts
  pub definitions : List (ℕ × Definition)

unfoldable pub from_document : Globals → List (ℕ × Definition) → Schema
unfolding document_to_parts apply_introspection
from_document g doc =
    let s =
      apply_introspection g.primitives g.introspection_ast.all_named
        (record { parts = document_to_parts doc; heap = doc ++ g.definitions }) in
    record {
      definitions = some s;
      schema_resolver = some (record {
        root_mutation = s.parts.root_mutation;
        root_query = s.parts.root_query;
        root_subscription = s.parts.root_subscription;
        named_types = s.parts.types;
      });
      query_model = none;
      mutation_model = none;
      cache_size = 100;
    }

-- `Parse`; `parser` is graphql-go's.
unfoldable pub parse : Globals → (String → Option (List (ℕ × Definition))) → String → Option Schema
unfolding from_document
parse g parser text = elim (parser text) [ none ↦ none | some doc ↦ some (from_document g doc) ]

pub data SetError : Type 0 where
  no_definitions no_schema_block root_query_undefined root_mutation_undefined : SetError
  model_error : BuildError → SetError

-- How a call of `SetResolvers` ends; `unfinished` is more work than the fuel.
pub data Outcome : Type 0 where
  done unfinished panicked : Outcome
  failed : SetError → Outcome

-- The root's address, if it is an object that has a name.
unfoldable pub named_object : Introspection.Schema → Option ℕ → Option ℕ
named_object d none = none
named_object d (some a) = elim (lookup a d.heap) [
  | some (object o) ↦ if is_some o.name then some a else none
  | _ ↦ none
]

-- One of the two halves of `SetResolvers`, for the root `root` and the resolver's type `t`.
unfoldable pub set_model :
    Reflect
    → Syntax
    → ℕ
    → Introspection.Schema
    → Option ℕ
    → Bool
    → SetError
    → ℕ
    → (BuiltModel → Schema)
    → Schema
    → Outcome × Schema
unfolding named_object
set_model r syn fuel d root serial undefined t keep s = elim (named_object d root) [
  | none ↦ (failed undefined, s)
  | some a ↦ elim (build_model r syn fuel (some a) (some t) serial) [
    | Built.built m b ↦ (done, keep (record { model = m; builder = b }))
    | Built.failed e ↦ (failed (model_error e), s)
    | Built.unfinished ↦ (unfinished, s)
    | Built.panicked ↦ (panicked, s)
  ]
]

set_query : Reflect → Syntax → ℕ → Introspection.Schema → Option ℕ → Schema → Outcome × Schema
unfolding set_model
set_query r syn fuel d none s = (done, s)
set_query r syn fuel d (some t) s =
    set_model r syn fuel d d.parts.root_query false root_query_undefined t
      (λ m. record s { query_model = some m }) s

set_mutation : Reflect → Syntax → ℕ → Introspection.Schema → Option ℕ → Schema → Outcome × Schema
unfolding set_model
set_mutation r syn fuel d none s = (done, s)
set_mutation r syn fuel d (some t) s =
    set_model r syn fuel d d.parts.root_mutation true root_mutation_undefined t
      (λ m. record s { mutation_model = some m }) s

set_both :
    Reflect → Syntax → ℕ → Introspection.Schema → Option ℕ → Outcome × Schema → Outcome × Schema
unfolding set_mutation
set_both r syn fuel d mutation (done, s) = set_mutation r syn fuel d mutation s
set_both r syn fuel d mutation (o, s) = (o, s)

-- `SetResolvers`, with the schema as it leaves it: if the mutation's half fails, the query's stays.
unfoldable pub set_resolvers :
    Reflect → Syntax → ℕ → Schema → Option ℕ → Option ℕ → Outcome × Schema
unfolding set_query set_both
set_resolvers r syn fuel s query mutation = elim s.definitions [
  | none ↦ (failed no_definitions, s)
  | some d ↦ elim d.parts.schemas [
    | [] ↦ (failed no_schema_block, s)
    | _ ↦ set_both r syn fuel d mutation (set_query r syn fuel d query s)
  ]
]

unfoldable pub has_query_resolvers : Schema → Bool
has_query_resolvers s = is_some s.query_model

unfoldable pub has_mutation_resolvers : Schema → Bool
has_mutation_resolvers s = is_some s.mutation_model

pub data TreeError : Type 0 where
  not_parsed unsupported_operation no_root_mutation no_root_query : TreeError

pub data BuiltTree : Type 0 where
  tree : Tree → BuiltTree
  refused : TreeError → BuiltTree
  tree_panics : BuiltTree

-- The tree of a root; the type assertion panics if it is no object.
unfoldable pub root_tree : Introspection.Schema → TreeError → Option ℕ → BuiltTree
root_tree d missing none = refused missing
root_tree d missing (some a) = elim (lookup a d.heap) [
  | some (object o) ↦ tree (new_query_tree a)
  | _ ↦ tree_panics
]

unfoldable pub build_query_tree : Schema → String → BuiltTree
unfolding root_tree
build_query_tree s operation = elim s.definitions [
  | none ↦ refused not_parsed
  | some d ↦
      if str_eq operation "mutation"
      then root_tree d no_root_mutation d.parts.root_mutation
      else if str_eq operation "query"
      then root_tree d no_root_query d.parts.root_query
      else refused unsupported_operation
]
