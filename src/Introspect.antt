-- ===== src/Introspect.antt =====
-- introspect/introspect.go: the resolvers of the introspection fields, and the fields of an object
-- and of the schema. `AstLookup` is the interface `ASTLookup`, with the definitions that its
-- addresses stand for; every resolver of a schema has the same one, so the methods that use it take
-- it as an argument.
pub mod TypeFields
pub mod Field
pub mod Wrappers
use magellan.Base.{ℕ, String, Option, none, some, List, [], map}
use magellan.Ast.{TypeRef, definition, nil, InputValueDefinition, FieldDefinition, Definition}

pub record AstLookup : Type 0 where
  pub lookup_type : TypeRef → Option ℕ
  pub definition_at : ℕ → Option Definition

-- The node that `LookupType` returns, nil where it finds none.
abbrev pub node_of : Option ℕ → TypeRef
node_of none = nil
node_of (some a) = definition a

-- `name_cache` overrides the name of the node.
pub record TypeResolver : Type 0 where
  pub name_cache : String
  pub ast : TypeRef

abbrev pub type_resolver : TypeRef → TypeResolver
type_resolver node = record { name_cache = ""; ast = node }

pub record SchemaResolver : Type 0 where
  pub root_mutation : Option ℕ
  pub root_query : Option ℕ
  pub root_subscription : Option ℕ
  pub named_types : List (String × ℕ)

pub record ObjectResolver : Type 0 where
  pub ast : ℕ
  pub schema_resolver : SchemaResolver

pub record FieldResolver : Type 0 where
  pub ast : FieldDefinition

pub record EnumValueResolver : Type 0 where
  pub ast : String

pub record InputValueResolver : Type 0 where
  pub ast : InputValueDefinition

pub record DirectiveResolver : Type 0 where

-- `Schema` and `Type` of an object.
unfoldable pub object_schema : ObjectResolver → SchemaResolver
object_schema r = r.schema_resolver

unfoldable pub object_type : ObjectResolver → TypeResolver
object_type r = type_resolver (definition r.ast)

unfoldable pub query_type : SchemaResolver → Option TypeResolver
query_type r = elim r.root_query [ none ↦ none | some a ↦ some (type_resolver (definition a)) ]

unfoldable pub mutation_type : SchemaResolver → Option TypeResolver
mutation_type r = none

unfoldable pub subscription_type : SchemaResolver → Option TypeResolver
subscription_type r = none

unfoldable pub directives : SchemaResolver → List DirectiveResolver
directives r = []

-- In the order in which the map is ranged over.
unfoldable pub schema_types : SchemaResolver → List TypeResolver
schema_types r = map (λ e. type_resolver (definition e.1)) r.named_types
