-- ===== src/Tests/Models.antt =====
-- The model builder (execution/model.go and the resolvers): a person with a name, friends and a live
-- clock, resolved by methods of `*Person`.
use magellan.Base.{
  codes, same_text, ℕ, zero, suc, ◌-◌, ◌<◌, ◌≡◌, refl, String, Bool, true, false, ◌&&◌, Option,
  none, some, List, [], ◌∷◌, lookup, insert, delete, modify, nat_key, string_key, ℕ_discrete, leb,
  ◌==◌, if◌then◌else◌,
}
use magellan.Ast.Nodes.{FieldNode, ObjectNode, Node, Syntax}
use magellan.Types.{
  go_string, graphql_primitives, graphql_primitives_types, graphql_primitives_proto_kinds,
  is_primitive, is_ast_primitive,
}
use magellan.Case.{pascal_from, to_pascal_case}
use magellan.Execution.Reflect.{
  Kind, basic, ptr, slice, chan, struct, interface, other_kind, same_kind, recv_dir, send_dir,
  both_dir, Method, TypeInfo, Reflect, kind_of,
}
use magellan.Execution.Model.{
  pair_key, Resolver, list, Builder, Built, built, failed, alloc, write, remember,
  deferred_in_mutation,
}
use magellan.Execution.Model.Grows.{IsComplete}
use magellan.Execution.Model.Func.{
  find_resolver_func, match_fields, start_scan, scan_arg, scan_args, check_result,
}
use magellan.Execution.Model.Leaves.{
  pair_of, ptr_depth, index_names, build_primitive, build_list, build_enum,
}
use magellan.Execution.Model.Leaves.Pointers.{ptr_depth-terminates}
use magellan.Execution.Model.Fields.{build_object}
use magellan.Execution.Model.Build.{build, new_builder, Model, build_model}
use magellan.Execution.Model.Build.Complete.{build_model-IsComplete, build-again}

abbrev pub field : String → ℕ → FieldNode
field name t = record { name = some name; type = t; arguments = [] }

abbrev pub person : ObjectNode
person = record { name = some "Person"; fields = field "name" 1 ∷ field "friends" 2 ∷ [] }

abbrev pub clock : ObjectNode
clock = record { name = some "Clock"; fields = field "name" 1 ∷ field "ticks" 1 ∷ [] }

abbrev pub nodes : ℕ → Option Node
nodes zero = some (Node.object person)
nodes (suc zero) = some (Node.named (some "String"))
nodes (suc (suc zero)) = some (Node.non_null 3)
nodes (suc (suc (suc zero))) = some (Node.list 4)
nodes (suc (suc (suc (suc zero)))) = some (Node.named (some "Person"))
nodes (suc (suc (suc (suc (suc zero))))) = some (Node.object clock)
nodes _ = none

abbrev pub syntax : Syntax
syntax = record {
  node_at = nodes;
  lookup_type = λ t. if t == 4 then some 0 else none;
  string_ref = 1;
}

abbrev pub info : Kind → ℕ → TypeInfo
info k elem = record { kind = k; elem = elem; chan_dir = both_dir; implements_context = false }

-- 0 is `*Person`, 1 `Person`, 2 `string`, 3 `[]*Person`, 4 `error`, 5 `context.Context`,
-- 6 `chan<- string`, 7 `<-chan string`, 8 `**string`, 9 `*string`.
abbrev pub types : ℕ → TypeInfo
types zero = info ptr 1
types (suc zero) = info struct 0
types (suc (suc zero)) = info (basic go_string) 0
types (suc (suc (suc zero))) = info slice 0
types (suc (suc (suc (suc zero)))) = info interface 0
types (suc (suc (suc (suc (suc zero))))) = record {
  kind = interface;
  elem = 0;
  chan_dir = both_dir;
  implements_context = true;
}
types (suc (suc (suc (suc (suc (suc zero)))))) = record {
  kind = chan;
  elem = 2;
  chan_dir = send_dir;
  implements_context = false;
}
types (suc (suc (suc (suc (suc (suc (suc zero))))))) = record {
  kind = chan;
  elem = 2;
  chan_dir = recv_dir;
  implements_context = false;
}
types (suc (suc (suc (suc (suc (suc (suc (suc zero)))))))) = info ptr 9
types (suc (suc (suc (suc (suc (suc (suc (suc (suc zero))))))))) = info ptr 2
types _ = info other_kind 0

abbrev pub methods : ℕ → List ℕ → Option Method
methods zero name =
    if same_text name (codes "Name")
    then some (record { index = 0; inputs = 0 ∷ []; outputs = 2 ∷ [] })
    else if same_text name (codes "GetFriends")
    then some (record { index = 1; inputs = 0 ∷ 5 ∷ []; outputs = 3 ∷ 4 ∷ [] })
    else if same_text name (codes "Ticks")
    then some (record { index = 2; inputs = 0 ∷ 5 ∷ 6 ∷ []; outputs = 4 ∷ [] })
    else none
methods _ name = none

abbrev pub reflection : Reflect
reflection = record {
  type_at = types;
  ptr_to = λ t. 0;
  recv_chan_of = λ t. 7;
  convertible_to = λ t u. false;
  method_by_name = methods;
  field_by_name = λ t name. none;
  basic_type = λ g. 2;
  error_type = 4;
  object_resolver_type = 1;
  upper = λ c. if leb 97 c && leb c 122 then c - 32 else c;
}

unfoldable pub program : Unit {0}
unfolding build_model build build_object build_list build_enum build_primitive ptr_depth index_names
    find_resolver_func match_fields start_scan scan_arg scan_args check_result alloc write remember
    same_kind same_text to_pascal_case pascal_from pair_key nat_key string_key ℕ_discrete lookup
    insert delete modify graphql_primitives graphql_primitives_types graphql_primitives_proto_kinds
    is_primitive is_ast_primitive
program = tt

abbrev pub query_model : Bool → ℕ → Built Model
query_model serial node = build_model reflection syntax 9 (some node) (some 0) serial

abbrev pub state_of : Built Model → Builder
state_of (built m s) = s
state_of _ = new_builder false

abbrev pub model_of : Built Model → Model
model_of (built m s) = m
model_of _ = record { root_resolver = 0; root_resolver_type = 0; serial_only = false }

abbrev root_of : Built Model → ℕ
root_of r = (model_of r).root_resolver

-- The list of friends knows the resolver of a friend, which is the object of the struct `Person`.
friends_list : lookup 3 (state_of (query_model false 0)).heap ≡ some (list false (some 4))
unfolding program
friends_list = refl

ticks_in_mutation : query_model true 5 ≡ failed deferred_in_mutation
unfolding program
ticks_in_mutation = refl

build_model-IsComplete_example :
    (0 < (state_of (query_model false 0)).next)
    × ((a : ℕ)
        → a < (state_of (query_model false 0)).next
        → (x : Resolver) × (lookup a (state_of (query_model false 0)).heap ≡ some x)
          × IsComplete syntax false (state_of (query_model false 0)).next x)
    × (◌≡◌ {A = ℕ} 0 0)
    × (false ≡ false)
unfolding program
build_model-IsComplete_example =
    build_model-IsComplete reflection syntax 9 0 0 false (model_of (query_model false 0))
      (state_of (query_model false 0)) refl

build-again_example :
    build reflection syntax 1 (pair_of 0 0) (state_of (query_model false 0))
    ≡ built 0 (state_of (query_model false 0))
unfolding program
build-again_example =
    build-again reflection syntax 9 0 (pair_of 0 0) (new_builder false)
      (state_of (query_model false 0)) 0 refl

ptr_depth-terminates_example : ptr_depth reflection 7 8 (kind_of reflection 8) 0 ≡ none
unfolding program
ptr_depth-terminates_example = ptr_depth-terminates reflection 5 8
