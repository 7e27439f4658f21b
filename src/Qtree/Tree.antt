-- ===== src/Qtree/Tree.antt =====
-- qtree/qtree.go and qtree/schema.go: the tree's state and the operations on one node.
-- Nodes are shared by pointer in the source: `nodes` is the heap, and `next` the first address that
-- neither a node nor an error value uses. `root_node_map` and `variable_store`, which all nodes
-- share, stand on the tree. `err_ch` is what has been sent to the error channel, oldest first,
-- with the error whose send waits for ever, if there is one.
pub mod Erase
pub mod Shape
pub mod WellFormed
use magellan.Base.{
  ℕ, suc, ◌+◌, ◌%◌, ◌^◌, String, Bool, true, false, Option, none, some, List, [], ◌∷◌, ◌++◌, map,
  lookup, insert, delete, modify, nat_key, ◌==◌, if◌then◌else◌,
}
use magellan.Ast.{TypeRef, Definition, FieldDefinition, named}
use magellan.Qtree.VarStore.{VariableStore, new_variable_store}
use magellan.Qtree.Subs.{Update, Subscription, next_change, op_del_child, op_error}

-- `SchemaResolver`, and the definitions that its addresses stand for.
pub record SchemaResolver : Type 0 where
  pub lookup_type : TypeRef → Option ℕ
  pub definition_at : ℕ → Option Definition

-- The errors that `AddChild` formats.
pub data AddChildError : Type 0 where
  id_exists : ℕ → AddChildError
  not_selectable : ℕ → AddChildError
  invalid_field : String → Option String → AddChildError
  unresolved_named : Option String → AddChildError
  unresolved_type : TypeRef → AddChildError
  variable_not_found : ℕ → String → AddChildError

-- An `error` is compared by address.
pub record ErrorValue : Type 0 where
  pub addr : ℕ
  pub what : AddChildError

-- `proto.RGQLQueryError`
pub record QueryError : Type 0 where
  pub query_node_id : ℕ
  pub error : AddChildError

pub record QueryTreeNode : Type 0 where
  pub id : ℕ
  pub parent : Option ℕ
  pub children : List ℕ
  -- Whether the field `RootNodeMap` is set; where it is, it is the map of the root.
  pub has_root_node_map : Bool
  pub field_name : String
  pub ast : Option ℕ
  pub is_primitive : Bool
  pub primitive_name : String
  pub arguments : Option (List (String × ℕ))
  pub sub_ctr : ℕ
  pub subscribers : List (ℕ × Subscription)
  pub err : Option ErrorValue
  -- Whether `disposeChan` is closed.
  pub is_disposed : Bool

pub record Tree : Type 0 where
  pub nodes : List (ℕ × QueryTreeNode)
  pub root : ℕ
  pub root_node_map : List (ℕ × ℕ)
  pub variable_store : VariableStore
  pub err_ch : List QueryError
  pub next : ℕ

unfoldable pub new_query_tree : ℕ → Tree
new_query_tree root_query = record {
  nodes =
      (
        0,
        record {
          id = 0;
          parent = none;
          children = [];
          has_root_node_map = true;
          field_name = "";
          ast = some root_query;
          is_primitive = false;
          primitive_name = "";
          arguments = none;
          sub_ctr = 0;
          subscribers = [];
          err = none;
          is_disposed = false;
        },
      )
      ∷ [];
  root = 0;
  root_node_map = (0, 0) ∷ [];
  variable_store = new_variable_store;
  err_ch = [];
  next = 1;
}

abbrev pub type_name_def : FieldDefinition
type_name_def = record { name = some "__typename"; type = named (some "String"); arguments = [] }

abbrev pub update : Tree → ℕ → (QueryTreeNode → QueryTreeNode) → Tree
update t p f = record t { nodes = modify p f t.nodes }

notify : Update → List (ℕ × Subscription) → List (ℕ × Subscription)
notify upd subs = map (λ e. (e.0, next_change upd e.1)) subs

unfoldable pub next_update : Tree → ℕ → Update → Tree
unfolding notify
next_update t p upd = update t p (λ n. record n { subscribers = notify upd n.subscribers })

-- The new subscription's id.
unfoldable pub subscribe_changes : Tree → ℕ → Tree × ℕ
subscribe_changes t p = elim (lookup p t.nodes) [
  | none ↦ (t, 0)
  | some n ↦ (
    update t p (λ m. record m {
      sub_ctr = (m.sub_ctr + 1) % 2 ^ 32;
      subscribers = insert m.sub_ctr (record { id = m.sub_ctr; ch_chans = [] }) m.subscribers;
    }),
    n.sub_ctr,
  )
]

unfoldable pub remove_subscription : Tree → ℕ → ℕ → Tree
remove_subscription t p id = update t p (λ n. record n { subscribers = delete id n.subscribers })

unfoldable pub same_error : Option ErrorValue → ErrorValue → Bool
same_error none e = false
same_error (some d) e = d.addr == e.addr

-- Past the capacity of the channel the send never returns: see `sent` of Qtree/Mutation.antt.
unfoldable pub mark_error : Tree → ℕ → QueryTreeNode → ErrorValue → Tree
mark_error t p n e = record (update t p (λ m. record m { err = some e })) {
  err_ch = t.err_ch ++ record { query_node_id = n.id; error = e.what } ∷ [];
}

unfoldable pub set_error : Tree → ℕ → ErrorValue → Tree
set_error t p e = elim (lookup p t.nodes) [
  | none ↦ t
  | some n ↦ if same_error n.err e then t else next_update (mark_error t p n e) p op_error
]

-- The loop of `removeChild`: the list without the first occurrence.
unfoldable pub erase : ℕ → List ℕ → List ℕ
erase c [] = []
erase c (x ∷ xs) = if x == c then xs else x ∷ erase c xs

unfoldable pub contains : ℕ → List ℕ → Bool
contains c [] = false
contains c (x ∷ xs) = if x == c then true else contains c xs

unfoldable pub remove_child : Tree → ℕ → ℕ → Tree
remove_child t p c = elim (lookup p t.nodes) [
  | none ↦ t
  | some n ↦
      if contains c n.children
      then next_update (update t p (λ m. record m { children = erase c m.children })) p
          (op_del_child c)
      else t
]
