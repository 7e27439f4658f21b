-- ===== src/Types.antt =====
-- types/primitive.go: the tables of GraphQL's primitive types.
-- The kinds of Go's reflect package and of the wire protocol are data types with the constants
-- that the source names.
use magellan.Base.{
  String, List, [], ◌∷◌, Bool, false, Option, none, some, lookup, is_some, string_key,
}
use magellan.Ast.{TypeRef, named}

-- `reflect.Kind`
pub data GoKind : Type 0 where
  go_int go_string go_float32 go_bool go_map : GoKind

-- `proto.RGQLPrimitive_Kind`
pub data ProtoKind : Type 0 where
  kind_null kind_int kind_string kind_float kind_bool kind_object kind_array : ProtoKind

unfoldable pub graphql_primitives : List (String × GoKind)
graphql_primitives =
    ("Int", go_int)
    ∷ ("String", go_string)
    ∷ ("Float", go_float32)
    ∷ ("Boolean", go_bool)
    ∷ ("Object", go_map)
    ∷ ("ID", go_string)
    ∷ []

unfoldable pub graphql_primitives_kinds : List (String × String)
graphql_primitives_kinds =
    ("Int", "SCALAR")
    ∷ ("String", "SCALAR")
    ∷ ("Float", "SCALAR")
    ∷ ("Boolean", "SCALAR")
    ∷ ("Object", "OBJECT")
    ∷ ("ID", "SCALAR")
    ∷ []

-- A Go type is known by the kind that it has.
unfoldable pub graphql_primitives_types : List (String × GoKind)
graphql_primitives_types =
    ("Int", go_int)
    ∷ ("String", go_string)
    ∷ ("Float", go_float32)
    ∷ ("Boolean", go_bool)
    ∷ ("Object", go_map)
    ∷ ("ID", go_string)
    ∷ []

unfoldable pub graphql_primitives_proto_kinds : List (String × ProtoKind)
graphql_primitives_proto_kinds =
    ("Int", kind_int)
    ∷ ("String", kind_string)
    ∷ ("Float", kind_float)
    ∷ ("Boolean", kind_bool)
    ∷ ("Object", kind_object)
    ∷ ("ID", kind_string)
    ∷ []

unfoldable pub is_primitive : String → Bool
is_primitive name = is_some (lookup name graphql_primitives)

unfoldable pub is_ast_primitive : TypeRef → Bool
is_ast_primitive (named (some name)) = is_primitive name
is_ast_primitive _ = false

unfoldable pub ast_primitive_kind : TypeRef → Option GoKind
ast_primitive_kind (named (some name)) = lookup name graphql_primitives
ast_primitive_kind _ = none

unfoldable pub ast_primitive_proto_kind : TypeRef → Option ProtoKind
ast_primitive_proto_kind (named (some name)) = lookup name graphql_primitives_proto_kinds
ast_primitive_proto_kind _ = none
