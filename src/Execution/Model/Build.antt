-- ===== src/Execution/Model/Build.antt =====
-- `buildResolver` of execution/resolver.go, on fuel, and `BuildModel` of execution/model.go.
pub mod Complete
use text.Mathlib.Text.{◌==◌ as str_eq}
use magellan.Base.{
  ℕ, zero, suc, String, Bool, true, false, ◌||◌, Option, none, some, List, [], ◌∷◌, ◌++◌, lookup,
  insert, string_key, is_some, if◌then◌else◌,
}
use magellan.Ast.{TypeRef}
use magellan.Ast.Nodes.{FieldNode, ObjectNode, Node, Syntax}
use magellan.Types.{
  GoKind, go_int, go_string, ProtoKind, graphql_primitives, graphql_primitives_types,
  graphql_primitives_proto_kinds, is_ast_primitive,
}
use magellan.Execution.Reflect.{
  Kind, basic, ptr, slice, chan, same_kind, ChanDir, recv_dir, Method, Reflect, kind_of, elem_of,
}
use magellan.Execution.Model.{
  TypeResolverPair, pair_key, FuncResolver, ObjectResolver, EnumResolver, Resolver, func, object,
  list, chan_list, enum, chan_value, primitive, BuildError, unsupported_kind, no_root_resolver,
  no_root_schema, no_type_named, deferred_in_mutation, list_direction, list_kind, chan_direction,
  enum_kind, primitive_name, primitive_kind, Builder, Built, built, failed, unfinished, panicked,
  Build, ◌>>=◌, ◌>>◌, return, fail, alloc, write, remember,
}
use magellan.Execution.Model.Func.{
  find_resolver_func, shallow, Scan, start_scan, scan_args, without_receiver, check_result,
}
use magellan.Execution.Model.Leaves.{
  Call, pair_of, serial_only, panic, build_primitive, build_list, build_enum,
}
use magellan.Execution.Model.Fields.{build_object}

-- `lookupType`, and the resolver of what it finds.
follow_type : Syntax → Call → Option String → TypeResolverPair → Build ℕ
follow_type syn call name pair = elim (syn.lookup_type pair.type) [
  | none ↦ fail (no_type_named name)
  | some t ↦ call (pair_of t pair.resolver_type)
]

-- `buildFollowResolver`, from the named type `name`.
build_follow : Reflect → Syntax → ℕ → Call → TypeResolverPair → Option String → Build ℕ
unfolding follow_type build_primitive
build_follow r syn fuel call pair (some name) =
    if is_ast_primitive (TypeRef.named (some name))
    then build_primitive r fuel call pair.resolver_type pair.type name
    else follow_type syn call (some name) pair
build_follow r syn fuel call pair none = follow_type syn call none pair

-- The type switch of `buildResolver`.
by_node : Reflect → Syntax → ℕ → Call → TypeResolverPair → Option Node → Build ℕ
unfolding build_follow build_list build_object build_enum
by_node r syn fuel call pair none = panic
by_node r syn fuel call pair (some (Node.named name)) = build_follow r syn fuel call pair name
by_node r syn fuel call pair (some (Node.non_null t)) = call (pair_of t pair.resolver_type)
by_node r syn fuel call pair (some (Node.list t)) = build_list r call pair t
by_node r syn fuel call pair (some (Node.object o)) = build_object r syn fuel call pair o
by_node r syn fuel call pair (some (Node.enum values)) =
    build_enum r syn call pair.resolver_type values
by_node r syn fuel call pair (some Node.other) = fail unsupported_kind

-- `buildResolver`; the deferred function remembers what the switch has built.
build_step : Reflect → Syntax → ℕ → Call → TypeResolverPair → Build ℕ
unfolding by_node
build_step r syn fuel call pair s = elim (lookup pair s.resolvers) [
  | some a ↦ built a s
  | none ↦
      (do a ← by_node r syn fuel call pair (syn.node_at pair.type); remember pair a; return a) s
]

unfoldable pub build : Reflect → Syntax → ℕ → TypeResolverPair → Build ℕ
unfolding build_step
build r syn zero pair = λ s. unfinished
build r syn (suc fuel) pair = build_step r syn (suc fuel) (build r syn fuel) pair

abbrev pub new_builder : Bool → Builder
new_builder serial = record { serial_only = serial; resolvers = []; heap = []; next = 0 }

-- `Model`; the resolvers that `root_resolver` reaches stand in `heap`.
pub record Model : Type 0 where
  pub root_resolver : ℕ
  pub root_resolver_type : ℕ
  pub serial_only : Bool

-- `BuildModel`, of the node of the root schema and the type of the root resolver object.
unfoldable pub build_model : Reflect → Syntax → ℕ → Option ℕ → Option ℕ → Bool → Built Model
unfolding build
build_model r syn fuel root_schema none serial = failed no_root_resolver
build_model r syn fuel none (some t) serial = failed no_root_schema
build_model r syn fuel (some node) (some t) serial =
    (do
      a ← build r syn fuel (pair_of node t)
      return (record { root_resolver = a; root_resolver_type = t; serial_only = serial }))
      (new_builder serial)
