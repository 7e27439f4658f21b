-- ===== src/Introspect/Field.antt =====
-- `FieldResolver`, `EnumValueResolver`, `InputValueResolver` and `DirectiveResolver` of
-- introspect/introspect.go.
use magellan.Base.{String, Bool, false, Option, none, some, List, [], map}
use magellan.Introspect.{
  AstLookup, node_of, TypeResolver, type_resolver, FieldResolver, EnumValueResolver,
  InputValueResolver, DirectiveResolver,
}

unfoldable pub field_type : AstLookup → FieldResolver → Option TypeResolver
field_type l r = elim (l.lookup_type r.ast.type) [
  | none ↦ none
  | some a ↦ some (type_resolver (node_of (some a)))
]

unfoldable pub field_is_deprecated : FieldResolver → Bool
field_is_deprecated r = false

unfoldable pub field_deprecation_reason : FieldResolver → Option String
field_deprecation_reason r = none

-- `none` is the panic where the node has no name.
unfoldable pub field_name : FieldResolver → Option String
field_name r = r.ast.name

unfoldable pub field_description : FieldResolver → Option String
field_description r = none

unfoldable pub args : FieldResolver → List InputValueResolver
args r = map (λ a. record { ast = a }) r.ast.arguments

unfoldable pub enum_value_name : EnumValueResolver → String
enum_value_name e = e.ast

unfoldable pub enum_value_description : EnumValueResolver → Option String
enum_value_description e = none

unfoldable pub enum_value_is_deprecated : EnumValueResolver → Bool
enum_value_is_deprecated e = false

unfoldable pub enum_value_deprecation_reason : EnumValueResolver → Option String
enum_value_deprecation_reason e = none

unfoldable pub input_value_name : InputValueResolver → String
input_value_name r = r.ast.name

unfoldable pub input_value_description : InputValueResolver → Option String
input_value_description r = none

-- The node is nil where the lookup finds none.
unfoldable pub input_value_type : AstLookup → InputValueResolver → TypeResolver
input_value_type l r = type_resolver (node_of (l.lookup_type r.ast.type))

-- `default_value` of the node is its `GetValue`, where that is a text.
unfoldable pub input_value_default : InputValueResolver → String
input_value_default r = elim r.ast.default_value [ none ↦ "" | some v ↦ v ]

unfoldable pub directive_name : DirectiveResolver → String
directive_name r = ""

unfoldable pub directive_description : DirectiveResolver → String
directive_description r = ""

unfoldable pub directive_args : DirectiveResolver → List InputValueResolver
directive_args r = []

unfoldable pub directive_locations : DirectiveResolver → List String
directive_locations r = []
