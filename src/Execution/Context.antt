-- ===== src/Execution/Context.antt =====
-- execution/resolver_ctx.go: the tree of resolver contexts. Contexts are shared by pointer in the
-- source: `contexts` is the heap and `next` its first free address. `written` is what has gone to
-- the writer, oldest first. The steps of concurrent resolvers interleave at these operations.
pub mod Finality
pub mod Counts
pub mod Virtual
use magellan.Base.{
  ℕ, zero, suc, ◌+◌, ◌-◌, ◌%◌, ◌^◌, String, Bool, true, false, ◌||◌, Option, none, some, List, [],
  ◌∷◌, ◌++◌, lookup, insert, modify, nat_key, ◌==◌, if◌then◌else◌,
}
use magellan.Types.{ProtoKind}
use magellan.Execution.Value.{GoValue, Primitive, build_resolver_value}

-- The path fields of `proto.RGQLValue`.
pub record PathComponent : Type 0 where
  pub query_node_id : ℕ
  pub array_index : ℕ
  pub pos_identifier : ℕ

pub record ResolverContext : Type 0 where
  pub is_cancelled : Bool
  pub qnode : Option ℕ
  pub parent : Option ℕ
  pub path_parent : Option ℕ
  pub path_component : Option PathComponent
  pub is_final : Bool
  pub active_children : ℕ
  pub primitive_kind : Option ProtoKind

-- A value or an error (its text) at a context.
pub data Payload : Type 0 where
  value : Primitive → Payload
  error : String → Payload

pub record ResolverValue : Type 0 where
  pub context : ℕ
  pub payload : Payload

pub record Execution : Type 0 where
  pub contexts : List (ℕ × ResolverContext)
  pub next : ℕ
  pub is_serial : Bool
  pub qnode_root : ℕ
  pub written : List ResolverValue

abbrev pub on : Execution → ℕ → (ResolverContext → ResolverContext) → Execution
on s r f = record s { contexts = modify r f s.contexts }

-- `NewRootResolverContext`, at address 0, for the query tree whose root is `qnode`. The context has no
-- query node of its own yet.
unfoldable pub new_root_resolver_context : Bool → ℕ → Execution
new_root_resolver_context serial qnode = record {
  contexts =
      (
        0,
        record {
          is_cancelled = false;
          qnode = none;
          parent = none;
          path_parent = none;
          path_component = none;
          is_final = false;
          active_children = 0;
          primitive_kind = none;
        },
      )
      ∷ [];
  next = 1;
  is_serial = serial;
  qnode_root = qnode;
  written = [];
}

-- The nearest context with a path component: `r` itself or `r`'s.
abbrev pub path_parent_for : ℕ → ResolverContext → Option ℕ
path_parent_for r c = elim c.path_component [ none ↦ c.path_parent | some _ ↦ some r ]

-- `r.ActiveChildren++` on a uint32, and the reset of `r.IsFinal`.
abbrev pub opened : ResolverContext → ResolverContext
opened c = record c { active_children = (c.active_children + 1) % 2 ^ 32; is_final = false }

unfoldable pub new_child : ℕ → ResolverContext → Option PathComponent → ResolverContext
new_child r c path_component = record {
  is_cancelled = c.is_cancelled;
  qnode = c.qnode;
  parent = some r;
  path_parent = path_parent_for r c;
  path_component = path_component;
  is_final = false;
  active_children = 0;
  primitive_kind = none;
}

-- The child stands at the address `s.next`. On an address that is none of a context nothing happens.
unfoldable pub base_child : Execution → ℕ → Option PathComponent → Execution
unfolding new_child
base_child s r path_component = elim (lookup r s.contexts) [
  | none ↦ s
  | some c ↦ record s {
    contexts = modify r opened (insert s.next (new_child r c path_component) s.contexts);
    next = suc s.next;
  }
]

unfoldable pub virtual_child : Execution → ℕ → Execution
virtual_child s r = base_child s r none

-- The query node's address and id.
unfoldable pub field_child : Execution → ℕ → ℕ → ℕ → Execution
field_child s r qnode id =
    on (base_child s r (some (record { query_node_id = id; array_index = 0; pos_identifier = 0 })))
      s.next (λ c. record c { qnode = some qnode })

unfoldable pub array_child : Execution → ℕ → ℕ → Execution
array_child s r index =
    base_child s r
      (some (record { query_node_id = 0; array_index = (index + 1) % 2 ^ 32; pos_identifier = 0 }))

unfoldable pub set_primitive_kind : Execution → ℕ → Option ProtoKind → Execution
set_primitive_kind s r kind = on s r (λ c. record c { primitive_kind = kind })

unfoldable pub set_query_node : Execution → ℕ → ℕ → Execution
set_query_node s r qnode = on s r (λ c. record c { qnode = some qnode })

-- Only the context's own cancellation: its children see it through the context package.
unfoldable pub purge : Execution → ℕ → Execution
purge s r = on s r (λ c. record c { is_cancelled = true })

abbrev pub finalized : ResolverContext → ResolverContext
finalized c = record c { is_final = true }

abbrev pub closed : ResolverContext → ResolverContext
closed c = record c { active_children = c.active_children - 1 }

-- `none` is a chain of path parents longer than the fuel.
unfoldable pub mark_child_final : ℕ → Execution → ℕ → Option Execution
mark_child_final zero s r = none
mark_child_final (suc fuel) s r = elim (lookup r s.contexts) [
  | none ↦ some s
  | some c ↦
      if c.is_final || c.active_children == 0
      then some s
      else if c.active_children == 1
      then elim c.path_parent [
        | none ↦ some (on s r (λ c. finalized (closed c)))
        | some q ↦ mark_child_final fuel (on s r (λ c. finalized (closed c))) q
      ]
      else some (on s r closed)
]

unfoldable pub mark_final : Execution → ℕ → Option Execution
mark_final s r = elim (lookup r s.contexts) [
  | none ↦ some s
  | some c ↦ if c.is_final then some s else elim c.path_parent [
    | none ↦ some (on s r finalized)
    | some q ↦ mark_child_final (suc s.next) (on s r finalized) q
  ]
]

-- `WriteValue` where the encoder takes the value; where it has returned, see `attempt` of
-- Execution/Run.antt.
abbrev pub write : Execution → ResolverValue → Execution
write s v = record s { written = s.written ++ v ∷ [] }

-- `if isFinal { r.MarkFinal() }`, then the write.
finish_value : Execution → ℕ → Bool → Primitive → Option Execution
finish_value s r false v = some (write s (record { context = r; payload = value v }))
finish_value s r true v = elim (mark_final s r) [
  | none ↦ none
  | some s' ↦ some (write s' (record { context = r; payload = value v }))
]

-- `SetValue`. `none` is a panic: a value of the wrong kind, or no context with a path.
unfoldable pub set_value : ℕ → Execution → ℕ → GoValue → Bool → Option Execution
unfolding finish_value
set_value zero s r v is_final = none
set_value (suc fuel) s r v is_final = elim (lookup r s.contexts) [
  | none ↦ none
  | some c ↦ elim c.path_component [
    | none ↦ elim c.path_parent [
      | none ↦ none
      | some q ↦ set_value fuel (set_primitive_kind s q c.primitive_kind) q v is_final
    ]
    | some _ ↦ elim (build_resolver_value c.primitive_kind v) [
      | none ↦ none
      | some prim ↦ finish_value s r is_final prim
    ]
  ]
]

unfoldable pub set_error : ℕ → Execution → ℕ → String → Option Execution
set_error zero s r err = none
set_error (suc fuel) s r err = elim (lookup r s.contexts) [
  | none ↦ none
  | some c ↦ elim c.path_component [
    | none ↦ elim c.path_parent [ none ↦ none | some q ↦ set_error fuel s q err ]
    | some _ ↦ some (write s (record { context = r; payload = error err }))
  ]
]
