-- ===== src/Introspect/TypeFields.antt =====
-- `TypeResolver` of introspect/introspect.go. `get_kind` is graphql-go's `GetKind`, `upper`
-- Go's `unicode.ToUpper`.
pub mod Kinds
pub mod Hidden
use magellan.Base.{
  ℕ, String, Bool, true, false, Option, none, some, List, [], ◌∷◌, map, codes, has_prefix,
  trim_suffix, if◌then◌else◌,
}
use text.Mathlib.Text.{◌==◌ as str_eq}
use magellan.Ast.{TypeRef, list, definition, nil, FieldDefinition, Definition, object, enum}
use magellan.Schema.{name_of}
use magellan.Introspect.{
  AstLookup, node_of, TypeResolver, type_resolver, FieldResolver, EnumValueResolver,
  InputValueResolver,
}

-- What stands at the resolver's node, if that is a definition.
abbrev pub definition_of : AstLookup → TypeResolver → Option Definition
definition_of l r = elim r.ast [ definition a ↦ l.definition_at a | _ ↦ none ]

-- `Kind`; `none` is the panic on a nil node.
unfoldable pub kind : (ℕ → ℕ) → (TypeRef → List ℕ) → TypeResolver → Option (List ℕ)
unfolding trim_suffix
kind upper get_kind r = elim r.ast [
  | nil ↦ none
  | node ↦ some (map upper (trim_suffix (get_kind node) (codes "Definition")))
]

-- `resolveNamedType`
unfoldable pub resolve_named_type : AstLookup → TypeResolver → Option String
unfolding name_of
resolve_named_type l r = elim (definition_of l r) [
  | none ↦ none
  | some d ↦ elim (name_of d) [ none ↦ none | some n ↦ if str_eq n "" then none else some n ]
]

-- `Name`, with the resolver's new state.
unfoldable pub name : AstLookup → TypeResolver → Option String × TypeResolver
unfolding resolve_named_type
name l r =
    if str_eq r.name_cache ""
    then elim (resolve_named_type l r) [
      | none ↦ (none, r)
      | some n ↦ (some n, record r { name_cache = n })
    ]
    else (some r.name_cache, r)

unfoldable pub description : TypeResolver → Option String
description r = none

-- `strings.HasPrefix(name, "__")`
unfoldable pub is_hidden : String → Bool
unfolding has_prefix
is_hidden n = has_prefix (codes n) (codes "__")

-- The loop of `Fields`.
unfoldable pub field_resolvers : List FieldDefinition → List FieldResolver
unfolding is_hidden
field_resolvers [] = []
field_resolvers (f ∷ fs) = elim f.name [
  | none ↦ field_resolvers fs
  | some n ↦ if is_hidden n then field_resolvers fs else record { ast = f } ∷ field_resolvers fs
]

-- `Fields`; a nil slice is `none`.
unfoldable pub fields : AstLookup → TypeResolver → Option (List FieldResolver)
unfolding field_resolvers
fields l r = elim (definition_of l r) [
  | some (object o) ↦ some (field_resolvers o.fields)
  | _ ↦ none
]

unfoldable pub input_fields : TypeResolver → List InputValueResolver
input_fields r = []

unfoldable pub interfaces : TypeResolver → List TypeResolver
interfaces r = []

unfoldable pub possible_types : TypeResolver → List TypeResolver
possible_types r = []

-- `EnumValues`, which does not read its argument.
unfoldable pub enum_values :
    AstLookup → TypeResolver → Option Bool → Option (List EnumValueResolver)
enum_values l r include_deprecated = elim (definition_of l r) [
  | some (enum n values) ↦ some (map (λ v. record { ast = v }) values)
  | _ ↦ none
]

unfoldable pub of_type : AstLookup → TypeResolver → Option TypeResolver
of_type l r = elim r.ast [ list t ↦ some (type_resolver (node_of (l.lookup_type t))) | _ ↦ none ]
