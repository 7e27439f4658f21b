-- ===== src/Execution/Model/Leaves.antt =====
-- execution/resolve_primitive.go, resolve_chan.go, resolve_list.go and resolve_enum.go: the builders.
-- `call` is `buildResolver`.
pub mod Sound
pub mod Pointers
use magellan.Base.{
  ℕ, zero, suc, String, Bool, true, false, Option, none, some, List, [], ◌∷◌, lookup, insert,
  string_key, if◌then◌else◌,
}
use magellan.Ast.Nodes.{Syntax}
use magellan.Types.{
  GoKind, go_int, go_string, ProtoKind, graphql_primitives, graphql_primitives_types,
  graphql_primitives_proto_kinds,
}
use magellan.Execution.Reflect.{
  Kind, basic, ptr, slice, chan, same_kind, ChanDir, recv_dir, Reflect, kind_of, elem_of,
}
use magellan.Execution.Model.{
  TypeResolverPair, pair_key, EnumResolver, Resolver, list, chan_list, enum, chan_value, primitive,
  deferred_in_mutation, list_direction, list_kind, chan_direction, enum_kind, primitive_name,
  primitive_kind, built, unfinished, panicked, Build, ◌>>=◌, ◌>>◌, return, fail, alloc, write,
  remember,
}

abbrev pub Call : Type 0
Call = TypeResolverPair → Build ℕ

abbrev pub pair_of : ℕ → ℕ → TypeResolverPair
pair_of t r = record { type = t; resolver_type = r }

-- `mb.SerialOnly`
abbrev pub serial_only : Build Bool
serial_only s = built s.serial_only s

abbrev pub panic : {A : Type 0} → Build A
panic s = panicked

abbrev strip_ptr : Reflect → ℕ → ℕ
strip_ptr r t = if same_kind (kind_of r t) ptr then elem_of r t else t

dir_is_recv : ChanDir → Bool
dir_is_recv recv_dir = true
dir_is_recv _ = false

live_value : Reflect → Call → ℕ → ℕ → Build ℕ
live_value r call value gtyp = do e ← call (pair_of gtyp (elem_of r value)); alloc (chan_value e)

-- `buildChanValueResolver`
build_chan_value : Reflect → Call → ℕ → ℕ → Build ℕ
unfolding dir_is_recv live_value
build_chan_value r call value gtyp = do
  serial ← serial_only
  if serial
      then fail deferred_in_mutation
      else if dir_is_recv (r.type_at value).chan_dir
      then live_value r call value gtyp
      else fail (chan_direction value)

-- The loop over pointers of `buildPrimitiveResolver`, which reads the type `value` in each round:
-- the depth and the kind that it ends with.
unfoldable pub ptr_depth : Reflect → ℕ → ℕ → Kind → ℕ → Option (ℕ × Kind)
ptr_depth r zero value vkind depth = none
ptr_depth r (suc fuel) value vkind depth =
    let rest = ptr_depth r fuel value (kind_of r (elem_of r value)) (suc depth) in
    if same_kind vkind ptr then rest else some (depth, vkind)

-- The part after that loop.
make_primitive : Reflect → ℕ → GoKind → GoKind → ProtoKind → ℕ → Kind → Build ℕ
make_primitive r value expected go_type prim depth vkind =
    if same_kind (basic expected) vkind
    then alloc (primitive (record { ptr_depth = depth; convert_to = none; prim_kind = prim }))
    else if r.convertible_to value (r.basic_type go_type)
    then alloc (
        primitive (record {
          ptr_depth = depth;
          convert_to = some (r.basic_type go_type);
          prim_kind = prim;
        }))
    else fail (primitive_kind value)

count_ptrs : Reflect → ℕ → ℕ → GoKind → GoKind → ProtoKind → Build ℕ
unfolding ptr_depth make_primitive
count_ptrs r fuel value expected go_type prim = elim (ptr_depth r fuel value (kind_of r value) 0) [
  | none ↦ λ s. unfinished
  | some (depth, vkind) ↦ make_primitive r value expected go_type prim depth vkind
]

-- `buildPrimitiveResolver`, of the node `gtyp`, whose name is `name`.
unfoldable pub build_primitive : Reflect → ℕ → Call → ℕ → ℕ → String → Build ℕ
unfolding build_chan_value count_ptrs
build_primitive r fuel call value gtyp name =
    if same_kind (kind_of r value) chan
    then build_chan_value r call value gtyp
    else elim (lookup name graphql_primitives) [
      | none ↦ fail (primitive_name (some name))
      | some expected ↦ elim (lookup name graphql_primitives_types) [
        | none ↦ fail (primitive_name (some name))
        | some go_type ↦ elim (lookup name graphql_primitives_proto_kinds) [
          | none ↦ fail (primitive_name (some name))
          | some prim ↦ count_ptrs r fuel value expected go_type prim
        ]
      ]
    ]

set_elem : ℕ → Resolver → Resolver
set_elem e (list is_ptr _) = list is_ptr (some e)
set_elem e (chan_list _) = chan_list (some e)
set_elem e other = other

-- The part of `buildListResolver` that follows its checks; `empty` is the new resolver.
fill_list : Call → TypeResolverPair → ℕ → ℕ → Resolver → Build ℕ
unfolding set_elem
fill_list call pair t elem empty = do
  a ← alloc empty
  remember pair a
  e ← call (pair_of t elem)
  write a (set_elem e)
  return a

-- The direction that the error names is that of the pair's own type, which a pointer does not have.
wrong_direction : Reflect → ℕ → Build ℕ
wrong_direction r t = if same_kind (kind_of r t) ptr then panic else fail (list_direction t)

chan_or_slice : Reflect → Call → TypeResolverPair → ℕ → Bool → Build ℕ
unfolding fill_list wrong_direction dir_is_recv
chan_or_slice r call pair t serial =
    let rt = strip_ptr r pair.resolver_type in
    let elem = strip_ptr r (elem_of r rt) in
    if same_kind (kind_of r rt) chan
    then if serial
      then fail deferred_in_mutation
      else if dir_is_recv (r.type_at rt).chan_dir
      then fill_list call pair t elem (chan_list none)
      else wrong_direction r pair.resolver_type
    else if same_kind (kind_of r rt) slice
    then fill_list call pair t elem (list (same_kind (kind_of r pair.resolver_type) ptr) none)
    else fail (list_kind pair.resolver_type)

-- `buildListResolver`, of the list of `t`.
unfoldable pub build_list : Reflect → Call → TypeResolverPair → ℕ → Build ℕ
unfolding chan_or_slice
build_list r call pair t = do serial ← serial_only; chan_or_slice r call pair t serial

-- The table of an enum whose values are texts: each name with its index.
unfoldable pub index_names : ℕ → List String → List (String × ℕ) → List (String × ℕ)
index_names i [] m = m
index_names i (name ∷ names) m = index_names (suc i) names (insert name i m)

-- The part of `buildEnumResolver` that follows its checks.
fill_enum : Syntax → Call → ℕ → EnumResolver → Build ℕ
fill_enum syn call value e = do
  v ← call (pair_of syn.string_ref value)
  alloc (enum (record e { value_resolver = v }))

abbrev by_index : List String → Option ℕ → EnumResolver
by_index values to = record {
  use_name = false;
  possible_values = [];
  possible_values_index = values;
  value_resolver = 0;
  convert_to = to;
}

abbrev by_name : List String → EnumResolver
by_name values = record {
  use_name = true;
  possible_values = index_names 0 values [];
  possible_values_index = [];
  value_resolver = 0;
  convert_to = none;
}

-- `buildEnumResolver`
unfoldable pub build_enum : Reflect → Syntax → Call → ℕ → List String → Build ℕ
unfolding fill_enum index_names
build_enum r syn call value values =
    if same_kind (kind_of r value) (basic go_string)
    then fill_enum syn call value (by_name values)
    else if same_kind (kind_of r value) (basic go_int)
    then fill_enum syn call value (by_index values none)
    else if r.convertible_to value (r.basic_type go_int)
    then fill_enum syn call value (by_index values (some (r.basic_type go_int)))
    else fail (enum_kind value)
