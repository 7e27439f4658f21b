-- ===== src/Execution/Model.antt =====
-- execution/model.go and execution/resolver.go: the resolvers and the state of the model builder. A
-- resolver is shared by pointer, so it is an address; `heap` has what stands there.
pub mod Grows
pub mod Chains
pub mod Func
pub mod Leaves
pub mod Fields
pub mod Build
pub mod Execute
use magellan.Base.{
  ℕ, zero, suc, String, Bool, true, false, Option, none, some, List, [], ◌∷◌, lookup, insert,
  modify, nat_key, ℕ_discrete, Key, is_some, if◌then◌else◌,
}
use magellan.Types.{ProtoKind}

-- `typeResolverPair`: a node and a Go type.
pub record TypeResolverPair : Type 0 where
  pub type : ℕ
  pub resolver_type : ℕ

Pair-discrete : Discrete TypeResolverPair
Pair-discrete = hlevel ℕ_discrete

instance unfoldable pub pair_key : Key TypeResolverPair
unfolding Pair-discrete
pair_key = record { dec = Pair-discrete }

-- `funcArgField`
pub record FuncArgField : Type 0 where
  pub index : List ℕ
  pub is_ptr : Bool

-- `funcResolver`. An index is 0 where the argument is missing.
pub record FuncResolver : Type 0 where
  pub method : ℕ
  pub field_name : String
  pub context_arg : ℕ
  pub args_arg : ℕ
  pub args_type : Option ℕ
  pub args_fields : List (String × FuncArgField)
  pub output_chan_arg : ℕ
  pub returns_error : Bool
  pub result_type : ℕ
  pub result_resolver : ℕ

pub record ObjectResolver : Type 0 where
  pub pair : TypeResolverPair
  pub type_name : String
  pub field_resolvers : List (String × ℕ)
  pub array_fields : List (String × Bool)

pub record EnumResolver : Type 0 where
  pub use_name : Bool
  pub possible_values : List (String × ℕ)
  pub possible_values_index : List String
  pub value_resolver : ℕ
  pub convert_to : Option ℕ

pub record PrimitiveResolver : Type 0 where
  pub ptr_depth : ℕ
  pub convert_to : Option ℕ
  pub prim_kind : ProtoKind

-- The types that implement `Resolver`. The resolver of a list's elements is nil until it is built.
pub data Resolver : Type 0 where
  func : FuncResolver → Resolver
  object : ObjectResolver → Resolver
  list : Bool → Option ℕ → Resolver
  chan_list : Option ℕ → Resolver
  enum : EnumResolver → Resolver
  chan_value : ℕ → Resolver
  primitive : PrimitiveResolver → Resolver

pub data BuildError : Type 0 where
  no_root_resolver no_root_schema unsupported_kind : BuildError
  no_type_named : Option String → BuildError
  no_type : BuildError
  no_resolver_func : String → ℕ → BuildError
  no_argument_field : String → ℕ → BuildError
  argument_kind : String → ℕ → BuildError
  output_direction : ℕ → BuildError
  unexpected_argument : ℕ → ℕ → BuildError
  deferred_in_mutation : BuildError
  no_context return_signature : BuildError
  list_direction list_kind chan_direction : ℕ → BuildError
  enum_kind : ℕ → BuildError
  primitive_name : Option String → BuildError
  primitive_kind : ℕ → BuildError

-- `modelBuilder`
pub record Builder : Type 0 where
  pub serial_only : Bool
  pub resolvers : List (TypeResolverPair × ℕ)
  pub heap : List (ℕ × Resolver)
  pub next : ℕ

-- `unfinished` is more work than the fuel, `panicked` a panic.
pub data Built {ℓ} (A : Type ℓ) : Type ℓ where
  built : A → Builder → Built A
  failed : BuildError → Built A
  unfinished panicked : Built A

abbrev pub Build : Type 0 → Type 0
Build A = Builder → Built A

infixl 5 ◌>>=◌ ◌>>◌
abbrev pub ◌>>=◌ : {A B : Type 0} → Build A → (A → Build B) → Build B
◌>>=◌ m f s = elim (m s) [
  | built a t ↦ f a t
  | failed e ↦ failed e
  | unfinished ↦ unfinished
  | panicked ↦ panicked
]

abbrev pub ◌>>◌ : {A B : Type 0} → Build A → Build B → Build B
m >> k = m >>= λ _. k

abbrev pub return : {A : Type 0} → A → Build A
return a s = built a s

abbrev pub fail : {A : Type 0} → BuildError → Build A
fail e s = failed e

-- `&resolver{…}`
unfoldable pub alloc : Resolver → Build ℕ
alloc r s = built s.next (record s { heap = insert s.next r s.heap; next = suc s.next })

-- A write through a resolver's pointer.
unfoldable pub write : ℕ → (Resolver → Resolver) → Build (Unit {0})
write a f s = built tt (record s { heap = modify a f s.heap })

-- `mb.Resolvers[pair] = resolver`
unfoldable pub remember : TypeResolverPair → ℕ → Build (Unit {0})
remember pair a s = built tt (record s { resolvers = insert pair a s.resolvers })
