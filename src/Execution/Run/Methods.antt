-- ===== src/Execution/Run/Methods.antt =====
-- `Execute` of the methods and the objects (execution/resolve_func.go, resolve_object.go).
use text.Mathlib.Text.{◌==◌ as str_eq}
use magellan.Base.{
  ℕ, suc, String, Bool, true, ◌||◌, Option, none, some, List, [], ◌∷◌, ◌++◌, map, get_elem?, lookup,
  insert, delete, nat_key, string_key, ltb, if◌then◌else◌,
}
use magellan.Execution.Context.{field_child, purge}
use magellan.Execution.Value.{invalid}
use magellan.Execution.Reflect.{Reflect, elem_of}
use magellan.Execution.Model.{FuncArgField, FuncResolver, ObjectResolver}
use magellan.Execution.Run.{
  QueryNode, Values, Task, start, execute_func, object_loop, Run, ran, ◌>>=◌, ◌>>◌, return, panic,
  skip, go, change, set_value, set_error, child, test_nil,
}

-- `rc.QNode`
unfoldable pub qnode_of : ℕ → Run (Option ℕ)
qnode_of c s = elim (lookup c s.execution.contexts) [ none ↦ ran none s | some x ↦ ran x.qnode s ]

-- The value as the type `t`, if it can be that.
fitted : Reflect → Values → ℕ → ℕ → Option ℕ
fitted rf r v t =
    if r.assignable_to (r.type_of v) t
    then some v
    else if rf.convertible_to (r.type_of v) t
    then some (r.convert v t)
    else none

-- What a field of the arguments' struct `struct` is set to; a value of a variable has no address, so
-- a pointer is one to a copy.
field_value : Reflect → Values → ℕ → FuncArgField → ℕ → Option ℕ
unfolding fitted
field_value rf r struct field v =
    let t = r.field_type struct field.index in
    if field.is_ptr
    then elim (fitted rf r v (elem_of rf t)) [ none ↦ none | some w ↦ some (r.new_ptr w) ]
    else fitted rf r v t

-- The loop over the arguments' fields.
unfoldable pub field_values :
    Reflect → Values → ℕ → ℕ → List (String × FuncArgField) → List (List ℕ × ℕ)
unfolding field_value
field_values rf r struct q [] = []
field_values rf r struct q ((name, field) ∷ fields) =
    let rest = field_values rf r struct q fields in
    elim (r.variable q name) [
      | none ↦ rest
      | some v ↦ elim (field_value rf r struct field v) [
        | none ↦ rest
        | some w ↦ (field.index, w) ∷ rest
      ]
    ]

-- `sort.Sort(args)`, by the index.
unfoldable pub insert_arg : ℕ × ℕ → List (ℕ × ℕ) → List (ℕ × ℕ)
insert_arg a [] = a ∷ []
insert_arg a (b ∷ bs) = if ltb b.0 a.0 then b ∷ insert_arg a bs else a ∷ b ∷ bs

unfoldable pub sort_args : List (ℕ × ℕ) → List (ℕ × ℕ)
sort_args [] = []
sort_args (a ∷ as') = insert_arg a (sort_args as')

unfoldable pub context_args : Values → FuncResolver → ℕ → List (ℕ × ℕ)
context_args r f c = if ltb 0 f.context_arg then (f.context_arg, r.context_value c) ∷ [] else []

unfoldable pub struct_args : Reflect → Values → FuncResolver → Option ℕ → Run (List (ℕ × ℕ))
struct_args rf r f q =
    if ltb 0 f.args_arg
    then elim f.args_type [
      | none ↦ panic
      | some t ↦ elim q [
        | none ↦ panic
        | some n ↦ return ((f.args_arg, r.new_struct t (field_values rf r t n f.args_fields)) ∷ [])
      ]
    ]
    else return []

-- The output channel, and the goroutine that handles what comes out of it.
unfoldable pub output_args : Reflect → Values → FuncResolver → ℕ → Run (List (ℕ × ℕ))
unfolding go
output_args rf r f c =
    if ltb 0 f.output_chan_arg
    then (do
      go (start f.result_resolver c (r.chan_recv c (elem_of rf f.result_type)))
      return ((f.output_chan_arg, r.chan_send c (elem_of rf f.result_type)) ∷ []))
    else return []

-- `funcResolver.Execute`, of the resolver at `a`.
unfoldable pub execute_method :
    Reflect → Values → (Task → Run (Unit {0})) → ℕ → FuncResolver → ℕ → ℕ → Run (Unit {0})
unfolding qnode_of field_values context_args struct_args output_args sort_args insert_arg
execute_method rf r run a f c v = do
  q ← qnode_of c
  s ← struct_args rf r f q
  o ← output_args rf r f c
  run (execute_func a c v (map (λ x. x.1) (sort_args (context_args r f c ++ s ++ o))))

-- What a method's error does: it is set, unless it is nil.
unfoldable pub with_error : Values → ℕ → Option ℕ → Run (Unit {0}) → Run (Unit {0})
with_error r c none next = next
with_error r c (some e) next =
    if r.is_valid e
    then (test_nil r e >>= λ nil. if nil then next else set_error c (r.error_text e))
    else next

-- The error among the results.
unfoldable pub error_of : FuncResolver → List ℕ → Run (Option ℕ)
error_of f results =
    if f.returns_error
    then elim (get_elem? results (if ltb 0 f.output_chan_arg then 0 else 1)) [
      | none ↦ panic
      | some e ↦ return (some e)
    ]
    else return none

-- The end of `executeFunc`: the result of a method that is not live.
unfoldable pub finish_func : (Task → Run (Unit {0})) → FuncResolver → ℕ → List ℕ → Run (Unit {0})
finish_func run f c results =
    if ltb 0 f.output_chan_arg
    then skip
    else elim results [ [] ↦ panic | v ∷ _ ↦ run (start f.result_resolver c v) ]

-- `method.Call(args)`
unfoldable pub call_once : Values → FuncResolver → ℕ → List ℕ → Run (List ℕ)
call_once r f v args s = ran (r.call s.calls v f.method args) (record s { calls = suc s.calls })

-- `executeFunc`
unfoldable pub call_method :
    Values → (Task → Run (Unit {0})) → FuncResolver → ℕ → ℕ → List ℕ → Run (Unit {0})
unfolding call_once error_of with_error finish_func
call_method r run f c v args = do
  results ← call_once r f v args
  e ← error_of f results
  with_error r c e (finish_func run f c results)

-- The value that a field's method is called on.
pub field_argument : Values → ObjectResolver → ℕ → String → ℕ
field_argument r o v name =
    if str_eq name "__typename"
    then r.of_text o.type_name
    else if str_eq name "__schema" || str_eq name "__type"
    then r.introspect_resolver o.pair
    else v

-- `processChild`, with the cancel functions by the id of the node: each is a context to purge.
unfoldable pub process_child :
    Values
    → (Task → Run (Unit {0}))
    → ObjectResolver
    → ℕ
    → ℕ
    → QueryNode
    → List (ℕ × ℕ)
    → Run (List (ℕ × ℕ))
unfolding field_argument
process_child r run o c v n cancels = elim (lookup n.field_name o.field_resolvers) [
  | none ↦ return cancels
  | some f ↦ do
    x ← child (λ e. field_child e c n.address n.id)
    run (start f x (field_argument r o v n.field_name))
    return (insert n.id x cancels)
]

unfoldable pub process_children :
    Values
    → (Task → Run (Unit {0}))
    → ObjectResolver
    → ℕ
    → ℕ
    → List QueryNode
    → List (ℕ × ℕ)
    → Run (List (ℕ × ℕ))
unfolding process_child
process_children r run o c v [] cancels = return cancels
process_children r run o c v (n ∷ ns) cancels = do
  known ← process_child r run o c v n cancels
  process_children r run o c v ns known

-- `objectResolver.Execute`, of the resolver at `a`; in a serial execution it ends with its children.
unfoldable pub execute_object :
    Values
    → Bool
    → (Task → Run (Unit {0}))
    → (Task → Run (Unit {0}))
    → ℕ
    → ObjectResolver
    → ℕ
    → ℕ
    → Run (Unit {0})
unfolding process_children qnode_of
execute_object r serial run loop a o c v = do
  q ← qnode_of c
  nil ← (if r.is_valid v then test_nil r v else return true)
  if nil then set_value c invalid else elim q [
    | none ↦ panic
    | some n ↦ do
      cancels ← process_children r run o c v (r.children n) []
      if serial then skip else loop (object_loop a c v cancels)
  ]

-- What the loop of an object selects: an update of its node, or that its context is done.
pub data Update : Type 0 where
  add_child : QueryNode → Update
  del_child : ℕ → Update
  delete_node : Update
  other_update : Update
  context_done : Update

-- One round of that loop, with the rest of it.
unfoldable pub object_round :
    Values → ℕ → ObjectResolver → ℕ → ℕ → List (ℕ × ℕ) → Update → Run (Unit {0})
unfolding process_child go
object_round r a o c v cancels context_done = skip
object_round r a o c v cancels delete_node = change (λ e. purge e c)
object_round r a o c v cancels other_update = go (object_loop a c v cancels)
object_round r a o c v cancels (add_child n) = do
  known ← process_child r go o c v n cancels
  go (object_loop a c v known)
object_round r a o c v cancels (del_child id) = elim (lookup id cancels) [
  | none ↦ go (object_loop a c v cancels)
  | some x ↦ do change (λ e. purge e x); go (object_loop a c v (delete id cancels))
]
