-- ===== src/Tests/Introspections.antt =====
-- The introspection resolvers (introspect/introspect.go): a query with a name, at address 0.
use magellan.Base.{
  ℕ, ◌≡◌, refl, ◌↔◌, none, some, List, [], ◌∷◌, All, lookup, insert, delete, nat_key, string_key,
  codes, has_prefix, same_text, trim_suffix,
}
use magellan.Ast.{TypeRef, list, definition, ObjectDefinition, object, input_object}
use magellan.Schema.{empty_parts, name_of, lookup_type, apply, apply_one}
use magellan.Schema.Introspection.{
  Schema, has_schema_field, with_schema_field, add_primitives, add_system, on_root,
  apply_introspection,
}
use magellan.Introspect.{
  TypeResolver, type_resolver, SchemaResolver, FieldResolver, InputValueResolver, query_type,
  schema_types,
}
use magellan.Introspect.TypeFields.{
  kind, resolve_named_type, name, is_hidden, field_resolvers, fields, of_type,
}
use magellan.Introspect.TypeFields.Kinds.{upper_ascii, kind-shown_kind}
use magellan.Introspect.TypeFields.Hidden.{
  lookup_of, HasVisibleName, fields-apply_introspection, fields-HasVisibleName,
}
use magellan.Introspect.Field.{field_type, field_name, input_value_type}
use magellan.Introspect.Wrappers.{of_query, Reached-of_type, input_value_type-panics}

program : Unit {0}
unfolding query_type schema_types kind resolve_named_type name is_hidden field_resolvers fields
    of_type field_type field_name input_value_type name_of lookup_type apply apply_one
    has_schema_field with_schema_field add_primitives add_system on_root apply_introspection lookup
    insert delete nat_key string_key has_prefix same_text trim_suffix
program = tt

abbrev query : ObjectDefinition
query = record {
  name = some "Query";
  fields =
      record { name = some "names"; type = list (TypeRef.named (some "String")); arguments = [] }
      ∷ [];
}

abbrev schema : Schema
schema = record {
  parts = record empty_parts { types = ("Query", 0) ∷ []; root_query = some 0 };
  heap = (0, object query) ∷ [];
}

abbrev done : Schema
done = apply_introspection (("String", 1) ∷ []) (("__Schema", 2) ∷ []) schema

abbrev schema_resolver : SchemaResolver
schema_resolver = record {
  root_mutation = none;
  root_query = done.parts.root_query;
  root_subscription = none;
  named_types = done.parts.types;
}

abbrev root : TypeResolver
root = type_resolver (definition 0)

abbrev names : FieldResolver
names = record {
  ast = record { name = some "names"; type = list (TypeRef.named (some "String")); arguments = [] };
}

-- The query has the field `__schema` now, and shows one field as before.
shown : fields (lookup_of done) root ≡ some (names ∷ [])
unfolding program
shown = refl

-- The type of its field is not a list.
element : field_type (lookup_of done) names ≡ some (type_resolver (definition 1))
unfolding program
element = refl

abbrev get_kind : TypeRef → List ℕ
get_kind t = codes "InputObjectDefinition"

kind-shown_kind_example :
    kind upper_ascii get_kind (type_resolver (definition 3)) ≡ some (codes "INPUTOBJECT")
kind-shown_kind_example =
    kind-shown_kind upper_ascii get_kind 3 (input_object (some "Filter")) (λ c h. refl) refl

fields-apply_introspection_example : fields (lookup_of done) root ≡ fields (lookup_of schema) root
fields-apply_introspection_example =
    fields-apply_introspection (("String", 1) ∷ []) (("__Schema", 2) ∷ []) schema 0

fields-HasVisibleName_example : All HasVisibleName (names ∷ [])
unfolding program
fields-HasVisibleName_example = fields-HasVisibleName (lookup_of done) root (names ∷ []) refl

Reached-of_type_example :
    (of_type (lookup_of done) root ≡ none)
    × ((k : List ℕ) × (kind upper_ascii get_kind root ≡ some k))
unfolding program
Reached-of_type_example =
    Reached-of_type (lookup_of done) upper_ascii get_kind root (of_query schema_resolver root refl)

-- An argument whose type is not among the schema's types.
abbrev filter : InputValueResolver
filter = record {
  ast = record { name = "filter"; type = TypeRef.named (some "Filter"); default_value = none };
}

abbrev filtered : FieldResolver
filtered = record {
  ast = record { name = some "filtered"; type = TypeRef.named (some "Filter"); arguments = [] };
}

filter_panics : kind upper_ascii get_kind (input_value_type (lookup_of done) filter) ≡ none
unfolding program
filter_panics = refl

input_value_type-panics_example :
    (kind upper_ascii get_kind (input_value_type (lookup_of done) filter) ≡ none)
    ↔ (field_type (lookup_of done) filtered ≡ none)
input_value_type-panics_example =
    input_value_type-panics (lookup_of done) upper_ascii get_kind filter filtered refl
