-- ===== src/Schema.antt =====
-- schema/ast.go: the parts of a schema. A definition of a document comes with the address that
-- stands for its pointer.
pub mod Documents
pub mod Introspection
pub mod Setup
use magellan.Base.{
  ℕ, String, Bool, true, false, ◌||◌, Option, none, some, List, [], ◌∷◌, ◌++◌, lookup, insert,
  modify, string_key, nat_key, is_some, if◌then◌else◌,
}
use text.Mathlib.Text.{◌==◌ as str_eq}
use magellan.Ast.{
  TypeRef, named, non_null, list, definition, nil, FieldDefinition, ObjectDefinition,
  OperationTypeDefinition, Definition, schema, union, object, enum, scalar, interface, input_object,
  operation_definition, fragment_definition, other,
}

pub record AstParts : Type 0 where
  pub types : List (String × ℕ)
  pub objects : List (String × ℕ)
  pub enums : List (String × ℕ)
  pub unions : List (String × ℕ)
  pub schema_operations : List (String × OperationTypeDefinition)
  pub all_named : List (String × ℕ)
  pub schemas : List ℕ
  pub root_query : Option ℕ
  pub root_mutation : Option ℕ
  pub root_subscription : Option ℕ

abbrev pub empty_parts : AstParts
empty_parts = record {
  types = [];
  objects = [];
  enums = [];
  unions = [];
  schema_operations = [];
  all_named = [];
  schemas = [];
  root_query = none;
  root_mutation = none;
  root_subscription = none;
}

-- `LookupType`
unfoldable pub lookup_type : AstParts → TypeRef → Option ℕ
lookup_type pts (non_null t) = lookup_type pts t
lookup_type pts (named none) = none
lookup_type pts (named (some name)) = if str_eq name "" then none else lookup name pts.types
lookup_type pts (definition t) = some t
lookup_type pts (list t) = lookup_type pts t
lookup_type pts nil = none

unfoldable pub add_operations :
    List OperationTypeDefinition
    → List (String × OperationTypeDefinition)
    → List (String × OperationTypeDefinition)
add_operations [] m = m
add_operations (op ∷ ops) m = add_operations ops (insert op.operation op m)

-- `GetName()`; a schema and a directive have none.
unfoldable pub name_of : Definition → Option String
name_of (schema ops) = none
name_of (union name) = name
name_of (object o) = o.name
name_of (enum name values) = name
name_of (scalar name) = name
name_of (interface name) = name
name_of (input_object name) = name
name_of (operation_definition name) = name
name_of (fragment_definition name) = name
name_of other = none

add_union : String → ℕ → AstParts → AstParts
add_union name a pts =
    if str_eq name ""
    then pts
    else record pts { types = insert name a pts.types; unions = insert name a pts.unions }

add_object : String → ℕ → AstParts → AstParts
add_object name a pts =
    if str_eq name ""
    then pts
    else record pts { types = insert name a pts.types; objects = insert name a pts.objects }

add_enum : String → ℕ → AstParts → AstParts
add_enum name a pts =
    if str_eq name ""
    then pts
    else record pts { types = insert name a pts.types; enums = insert name a pts.enums }

-- The type switch of `DocumentToParts`, and the entry in `AllNamed`.
unfoldable pub classify : ℕ → Definition → AstParts → AstParts
unfolding add_union add_object add_enum add_operations
classify a (schema ops) pts = record pts {
  schemas = pts.schemas ++ a ∷ [];
  schema_operations = add_operations ops pts.schema_operations;
}
classify a (union (some name)) pts = add_union name a pts
classify a (object o) pts = elim o.name [ none ↦ pts | some name ↦ add_object name a pts ]
classify a (enum (some name) values) pts = add_enum name a pts
classify a _ pts = pts

unfoldable pub add_named : ℕ → Definition → AstParts → AstParts
unfolding name_of
add_named a def pts = elim (name_of def) [
  | none ↦ pts
  | some name ↦ record pts { all_named = insert name a pts.all_named }
]

unfoldable pub add_definitions : List (ℕ × Definition) → AstParts → AstParts
unfolding classify add_named
add_definitions [] pts = pts
add_definitions ((a, def) ∷ defs) pts = add_definitions defs (add_named a def (classify a def pts))

root_of : AstParts → String → Option ℕ
unfolding lookup_type
root_of pts operation = elim (lookup operation pts.schema_operations) [
  | none ↦ none
  | some op ↦ lookup_type pts op.type
]

unfoldable pub document_to_parts : List (ℕ × Definition) → AstParts
unfolding add_definitions root_of
document_to_parts doc =
    let pts = add_definitions doc empty_parts in
    record pts {
      root_query = root_of pts "query";
      root_mutation = root_of pts "mutation";
      root_subscription = root_of pts "subscription";
    }

-- `Apply`, for one entry of the other parts' `AllNamed`; `definition_at` reads the pointer.
unfoldable pub apply_one : (ℕ → Option Definition) → String → ℕ → AstParts → AstParts
apply_one definition_at name a pts =
    let named_pts = record pts { all_named = insert name a pts.all_named } in
    let typed = record named_pts { types = insert name a pts.types } in
    elim (definition_at a) [
      | none ↦ named_pts
      | some (enum n values) ↦ record typed { enums = insert name a pts.enums }
      | some (object o) ↦ record typed { objects = insert name a pts.objects }
      | some (union n) ↦ record typed { unions = insert name a pts.unions }
      | some (schema ops) ↦ named_pts
      | some other ↦ named_pts
      | some _ ↦ typed
    ]

unfoldable pub apply : (ℕ → Option Definition) → List (String × ℕ) → AstParts → AstParts
unfolding apply_one
apply definition_at [] pts = pts
apply definition_at ((name, a) ∷ all_named) pts =
    apply definition_at all_named (apply_one definition_at name a pts)
