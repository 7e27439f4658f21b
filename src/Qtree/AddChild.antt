-- ===== src/Qtree/AddChild.antt =====
-- `AddChild` of qtree/qtree.go.
pub mod Shapes
pub mod Outcomes
pub mod Primitives
use magellan.Base.{
  ℕ, suc, String, Bool, true, false, ◌≡◌, Option, none, some, List, [], ◌∷◌, ◌++◌, lookup, insert,
  modify, nat_key, string_key, is_some, if◌then◌else◌, ite,
}
use magellan.Ast.{
  TypeRef, named, non_null, list, definition, nil, Definition, object, FieldDefinition,
  ObjectDefinition,
}
use magellan.Types.{is_primitive}
use magellan.Qtree.VarStore
use magellan.Qtree.VarStore.{VariableStore}
use magellan.Qtree.Subs.{op_add_child}
use magellan.Qtree.Tree.{
  SchemaResolver, AddChildError, id_exists, not_selectable, invalid_field, unresolved_named,
  unresolved_type, variable_not_found, QueryTreeNode, Tree, type_name_def, update, next_update,
  set_error,
}

-- `proto.RGQLQueryTreeNode`: an id, a field's name, the arguments (a name and a variable's id), and
-- the children.
mutual
  pub data QueryTreeNodeMsg : Type 0 where
    query_tree_node : ℕ → String → List (String × ℕ) → QueryTreeNodeMsgs → QueryTreeNodeMsg

  pub data QueryTreeNodeMsgs : Type 0 where
    end : QueryTreeNodeMsgs
    child : QueryTreeNodeMsg → QueryTreeNodeMsgs → QueryTreeNodeMsgs

-- The map lookup that guards the id. Only the root has the map; a nil map has no entries.
unfoldable pub is_taken : Tree → QueryTreeNode → ℕ → Bool
is_taken t qt id = if qt.has_root_node_map then is_some (lookup id t.root_node_map) else false

unfoldable pub new_node : QueryTreeNode → ℕ → ℕ → String → QueryTreeNode
new_node qt p id name = record {
  id = id;
  parent = some p;
  children = [];
  has_root_node_map = false;
  field_name = name;
  ast = none;
  is_primitive = false;
  primitive_name = "";
  arguments = none;
  sub_ctr = 0;
  subscribers = [];
  err = none;
  is_disposed = false;
}

-- The new node stands at the address `t.next`.
unfoldable pub mint : Tree → ℕ → QueryTreeNode → ℕ → String → Tree
unfolding new_node
mint t p qt id name =
    update
      (record t {
        nodes = insert t.next (new_node qt p id name) t.nodes;
        root_node_map = insert id t.next t.root_node_map;
        next = suc t.next;
      })
      p (λ m. record m { children = m.children ++ t.next ∷ [] })

unfoldable pub find_field : String → List FieldDefinition → Option FieldDefinition
find_field name [] = none
find_field name (f ∷ fs) = elim f.name [
  | none ↦ find_field name fs
  | some n ↦ ite (string_key.dec n name) (some f) (find_field name fs)
]

unfoldable pub select_field : String → List FieldDefinition → Option FieldDefinition
unfolding find_field
select_field name fields =
    ite (string_key.dec name "__typename") (some type_name_def) (find_field name fields)

unfoldable pub strip_list : TypeRef → TypeRef
strip_list (list t) = t
strip_list t = t

unfoldable pub strip_non_null : TypeRef → TypeRef
strip_non_null (non_null t) = t
strip_non_null t = t

-- What the field's type says of the node: its `AST`, `IsPrimitive` and `PrimitiveName`.
pub record Selection : Type 0 where
  pub ast : Option ℕ
  pub is_primitive : Bool
  pub primitive_name : String

pub data Outcome {ℓ} (A : Type ℓ) : Type ℓ where
  ok : A → Outcome A
  err : AddChildError → Outcome A

resolve_type : SchemaResolver → TypeRef → AddChildError → Outcome Selection
resolve_type r ty e = elim (r.lookup_type ty) [
  | none ↦ err e
  | some d ↦ ok (record { ast = some d; is_primitive = false; primitive_name = "" })
]

unfoldable pub classify : SchemaResolver → TypeRef → Outcome Selection
unfolding resolve_type
classify r (named (some n)) =
    if is_primitive n
    then ok (record { ast = none; is_primitive = true; primitive_name = n })
    else resolve_type r (named (some n)) (unresolved_named (some n))
classify r (named none) = resolve_type r (named none) (unresolved_named none)
classify r ty = resolve_type r ty (unresolved_type ty)

select_on : SchemaResolver → ObjectDefinition → String → Outcome Selection
unfolding select_field classify strip_list strip_non_null
select_on r od name = elim (select_field name od.fields) [
  | none ↦ err (invalid_field name od.name)
  | some f ↦ classify r (strip_non_null (strip_list f.type))
]

select_in : SchemaResolver → Option Definition → ℕ → String → Outcome Selection
unfolding select_on
select_in r (some (object od)) id name = select_on r od name
select_in r _ id name = err (not_selectable id)

-- The node's place in the schema.
unfoldable pub select : SchemaResolver → Option ℕ → ℕ → String → Outcome Selection
unfolding select_in
select r none id name = select_in r none id name
select r (some d) id name = select_in r (r.definition_at d) id name

unfoldable pub unsubscribe_all : VariableStore → List (String × ℕ) → VariableStore
unsubscribe_all vs [] = vs
unsubscribe_all vs ((_, ref) ∷ args) = unsubscribe_all (VarStore.unsubscribe vs ref) args

-- The loop over `data.Args`; `arg_map` is what it has gathered.
unfoldable pub bind_arguments :
    VariableStore
    → List (String × ℕ)
    → List (String × ℕ)
    → VariableStore × Outcome (List (String × ℕ))
unfolding unsubscribe_all
bind_arguments vs [] arg_map = (vs, ok arg_map)
bind_arguments vs ((name, id) ∷ args) arg_map = elim (VarStore.get vs id).1 [
  | none ↦ (unsubscribe_all (VarStore.get vs id).0 arg_map, err (variable_not_found id name))
  | some ref ↦ bind_arguments (VarStore.get vs id).0 args (insert name ref arg_map)
]

pub data Prepared : Type 0 where
  -- The id is taken: nothing has changed.
  refused : AddChildError → Prepared
  -- The node at the address is in the tree, and failed.
  failed : Tree → AddChildError → Prepared
  -- The node at the address is in the tree, without its children.
  ready : Tree → ℕ → Prepared

-- The deferred `nnod.SetError(addChildErr)`, on an error value of its own.
fail : Tree → ℕ → AddChildError → Prepared
fail t n e =
    failed (set_error (record t { next = suc t.next }) n (record { addr = t.next; what = e })) e

complete : Tree → ℕ → Selection → VariableStore × Outcome (List (String × ℕ)) → Prepared
unfolding fail
complete t n sel (vs, err e) = fail (record t { variable_store = vs }) n e
complete t n sel (vs, ok args) =
    ready
      (update (record t { variable_store = vs }) n
        (λ m. record m {
          ast = sel.ast;
          is_primitive = sel.is_primitive;
          primitive_name = sel.primitive_name;
          arguments = some args;
        }))
      n

unfoldable pub prepare_at :
    SchemaResolver → Tree → ℕ → QueryTreeNode → ℕ → String → List (String × ℕ) → Prepared
unfolding fail complete
prepare_at r t p qt id name args =
    let minted = mint t p qt id name in
    elim (select r qt.ast id name) [
      | err e ↦ fail minted t.next e
      | ok sel ↦ complete minted t.next sel (bind_arguments t.variable_store args [])
    ]

-- `AddChild` up to the children.
unfoldable pub prepare : SchemaResolver → Tree → ℕ → ℕ → String → List (String × ℕ) → Prepared
prepare r t p id name args = elim (lookup p t.nodes) [
  | none ↦ refused (not_selectable id)
  | some qt ↦ if is_taken t qt id then refused (id_exists id) else prepare_at r t p qt id name args
]

-- The rest of `AddChild`: the children by `add`, and the notification.
unfoldable pub conclude : Tree → ℕ → (Tree → ℕ → Tree) → Prepared → Tree × Option AddChildError
conclude t p add (refused e) = (t, some e)
conclude t p add (failed t' e) = (t', some e)
conclude t p add (ready t' n) = (next_update (add t' n) p (op_add_child n), none)

unfoldable mutual
  pub add_child : SchemaResolver → Tree → ℕ → QueryTreeNodeMsg → Tree × Option AddChildError
  add_child r t p (query_tree_node id name args children) =
      conclude t p (λ t' n. add_children r t' n children) (prepare r t p id name args)

  pub add_children : SchemaResolver → Tree → ℕ → QueryTreeNodeMsgs → Tree
  add_children r t p end = t
  add_children r t p (child m ms) = add_children r (add_child r t p m).0 p ms
