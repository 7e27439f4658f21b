-- ===== src/Execution/Model/Fields.antt =====
-- execution/resolve_object.go and the end of `buildFuncResolver` of execution/resolve_func.go: the
-- builders. `call` is `buildResolver`.
pub mod Filled
pub mod Sound
pub mod Objects
use text.Mathlib.Text.{◌==◌ as str_eq}
use magellan.Base.{
  ℕ, String, Bool, true, false, ◌||◌, Option, none, some, List, [], ◌∷◌, insert, string_key,
  if◌then◌else◌,
}
use magellan.Ast.Nodes.{FieldNode, ObjectNode, Node, Syntax}
use magellan.Types.{go_string}
use magellan.Execution.Reflect.{Method, Reflect}
use magellan.Execution.Model.{
  TypeResolverPair, pair_key, Resolver, func, object, Build, ◌>>=◌, ◌>>◌, return, alloc, write,
  remember,
}
use magellan.Execution.Model.Func.{
  find_resolver_func, Scan, start_scan, scan_args, without_receiver, check_result,
}
use magellan.Execution.Model.Leaves.{Call, pair_of, serial_only, panic, build_primitive}

result_of : Call → ℕ → Scan → Build ℕ
result_of call t s = elim s.output [
  | none ↦ panic
  | some out ↦ do
    e ← call (pair_of t out)
    alloc (func (record s.resolver { result_type = out; result_resolver = e }))
]

-- `buildFuncResolver`
build_func : Reflect → Syntax → Call → Method → String → FieldNode → Build ℕ
unfolding result_of
build_func r syn call m name field = do
  scanned ← scan_args r syn field 1 (without_receiver m.inputs) (start_scan m name)
  serial ← serial_only
  checked ← check_result r serial m.outputs scanned
  result_of call field.type checked

is_list_node : Option Node → Bool
is_list_node (some (Node.list _)) = true
is_list_node _ = false

-- Whether a field's type, less a non-null, is a list.
is_list_field : Syntax → ℕ → Bool
is_list_field syn t = elim (syn.node_at t) [
  | some (Node.non_null u) ↦ is_list_node (syn.node_at u)
  | n ↦ is_list_node n
]

pub set_field : String → ℕ → Resolver → Resolver
set_field name f (object o) =
    object (record o { field_resolvers = insert name f o.field_resolvers })
set_field name f other = other

pub mark_array : String → Resolver → Resolver
mark_array name (object o) = object (record o { array_fields = insert name true o.array_fields })
mark_array name other = other

-- The Go type whose methods resolve the field.
field_owner : Reflect → TypeResolverPair → String → ℕ
field_owner r pair name =
    if str_eq name "__schema" || str_eq name "__type"
    then r.object_resolver_type
    else pair.resolver_type

build_field : Reflect → Syntax → Call → TypeResolverPair → ℕ → FieldNode → String → Build (Unit {0})
unfolding build_func is_list_field is_list_node set_field mark_array field_owner
build_field r syn call pair a field name = do
  m ← find_resolver_func r (field_owner r pair name) name
  f ← build_func r syn call m name field
  write a (set_field name f)
  if is_list_field syn field.type then write a (mark_array name) else return tt

-- The fields that have a name.
abbrev pub field_name : FieldNode → Option String
field_name field = elim field.name [
  | none ↦ none
  | some name ↦ if str_eq name "" then none else some name
]

pub build_fields :
    Reflect → Syntax → Call → TypeResolverPair → ℕ → List FieldNode → Build (Unit {0})
unfolding build_field
build_fields r syn call pair a [] = return tt
build_fields r syn call pair a (field ∷ fields) = elim (field_name field) [
  | none ↦ build_fields r syn call pair a fields
  | some name ↦ do build_field r syn call pair a field name; build_fields r syn call pair a fields
]

-- `buildObjectResolver`; the rest of it once the object has its name.
build_named_object : Reflect → Syntax → ℕ → Call → TypeResolverPair → ObjectNode → String → Build ℕ
unfolding build_fields build_primitive set_field
build_named_object r syn fuel call pair o name = do
  a ←
      alloc
        (object (record { pair = pair; type_name = name; field_resolvers = []; array_fields = [] }))
  remember pair a
  build_fields r syn call pair a o.fields
  f ← build_primitive r fuel call (r.basic_type go_string) syn.string_ref "String"
  write a (set_field "__typename" f)
  return a

unfoldable pub build_object : Reflect → Syntax → ℕ → Call → TypeResolverPair → ObjectNode → Build ℕ
unfolding build_named_object
build_object r syn fuel call pair o = elim o.name [
  | none ↦ panic
  | some name ↦ build_named_object r syn fuel call pair o name
]
