-- ===== src/Execution/Run/Leaves.antt =====
-- `Execute` of the primitives, enums, lists and channels (execution/resolve_primitive.go,
-- resolve_enum.go, resolve_list.go, resolve_chan.go). `run` is a call of `Execute` in a serial execution
-- and `go` in any other; `loop` is what becomes of the method's own loop.
use magellan.Base.{
  ℕ, zero, suc, Bool, true, false, not, Option, none, some, length, lookup, string_key, is_some,
  ltb, ◌==◌, if◌then◌else◌,
}
use magellan.Types.{kind_array, kind_string}
use magellan.Execution.Context.{array_child, virtual_child, set_primitive_kind, purge}
use magellan.Execution.Value.{invalid, other}
use magellan.Execution.Reflect.{ptr, chan, same_kind}
use magellan.Execution.Model.{EnumResolver, PrimitiveResolver}
use magellan.Execution.Run.{
  Values, Task, start, chan_loop, value_loop, Run, ◌>>=◌, ◌>>◌, return, panic, skip, go, change,
  set_value, set_error, child, test_nil,
}

-- The loop over the depth of `primitiveResolver.Execute`.
unfoldable pub follow_ptrs : Values → ℕ → ℕ → Run ℕ
follow_ptrs r zero v = return v
follow_ptrs r (suc depth) v =
    let rest = follow_ptrs r depth (r.elem v) in
    test_nil r v >>= λ nil. if nil then return v else rest

unfoldable pub converted : Values → Option ℕ → ℕ → Run ℕ
converted r none v = return v
converted r (some t) v =
    if same_kind (r.kind v) ptr
    then (test_nil r v >>= λ nil. return (if nil then v else r.convert v t))
    else return (r.convert v t)

unfoldable pub execute_primitive : Values → PrimitiveResolver → ℕ → ℕ → Run (Unit {0})
unfolding follow_ptrs converted
execute_primitive r p c v = do
  change (λ e. set_primitive_kind e c (some p.prim_kind))
  w ← follow_ptrs r p.ptr_depth v
  x ← converted r p.convert_to w
  set_value c (r.shown x)

-- Whether the int is one of the enum's `count` values, as `Execute` has it.
unfoldable pub in_range : Option ℕ → ℕ → Bool
in_range none count = false
in_range (some i) count = not (ltb count i)

unfoldable pub enum_int : Values → (Task → Run (Unit {0})) → EnumResolver → ℕ → ℕ → Run (Unit {0})
unfolding in_range
enum_int r run e c v =
    if in_range (r.int_of v) (length e.possible_values_index)
    then run (start e.value_resolver c v)
    else set_error c (r.enum_message v)

unfoldable pub enum_value : Values → (Task → Run (Unit {0})) → EnumResolver → ℕ → ℕ → Run (Unit {0})
unfolding enum_int
enum_value r run e c v =
    if e.use_name
    then if is_some (lookup (r.text_of v) e.possible_values)
      then run (start e.value_resolver c v)
      else set_error c (r.enum_message v)
    else enum_int r run e c (elim e.convert_to [ none ↦ v | some t ↦ r.convert v t ])

unfoldable pub nil_ptr : Values → ℕ → Run Bool
nil_ptr r v = if same_kind (r.kind v) ptr then test_nil r v else return false

unfoldable pub execute_enum :
    Values → (Task → Run (Unit {0})) → EnumResolver → ℕ → ℕ → Run (Unit {0})
unfolding enum_value nil_ptr
execute_enum r run e c v = do
  change (λ x. set_primitive_kind x c (some kind_string))
  nil ← (if r.is_valid v then nil_ptr r v else return true)
  if nil then set_value c invalid else enum_value r run e c v

-- The loop over the elements from `i` on, of which there are `count`.
unfoldable pub list_elements : Values → (Task → Run (Unit {0})) → ℕ → ℕ → ℕ → ℕ → ℕ → Run (Unit {0})
list_elements r run elem c v i zero = skip
list_elements r run elem c v i (suc count) = do
  x ← child (λ e. array_child e c i)
  run (start elem x (r.index v i))
  list_elements r run elem c v (suc i) count

unfoldable pub list_value : Values → (Task → Run (Unit {0})) → Option ℕ → ℕ → ℕ → Run (Unit {0})
unfolding list_elements
list_value r run elem c v =
    if r.len v == 0
    then set_value c other
    else elim elem [ none ↦ panic | some a ↦ list_elements r run a c v 0 (r.len v) ]

unfoldable pub list_at_ptr : Values → (Task → Run (Unit {0})) → Option ℕ → ℕ → ℕ → Run (Unit {0})
unfolding list_value
list_at_ptr r run elem c v =
    test_nil r v >>= λ nil. if nil then set_value c invalid else list_value r run elem c (r.elem v)

unfoldable pub execute_list :
    Values → (Task → Run (Unit {0})) → Bool → Option ℕ → ℕ → ℕ → Run (Unit {0})
unfolding list_value list_at_ptr
execute_list r run is_ptr elem c v = do
  change (λ e. set_primitive_kind e c (some kind_array))
  if is_ptr then list_at_ptr r run elem c v else list_value r run elem c v

-- `reflect.Select` panics on a value that is no channel.
unfoldable pub select : Values → ℕ → Run (Unit {0}) → Run (Unit {0})
select r v m = if same_kind (r.kind v) chan then m else panic

unfoldable pub execute_chan_list :
    Values → (Task → Run (Unit {0})) → Option ℕ → ℕ → ℕ → Run (Unit {0})
unfolding select
execute_chan_list r loop elem c v = do
  change (λ e. set_primitive_kind e c (some kind_array))
  nil ← test_nil r v
  if nil
      then set_value c invalid
      else elim elem [ none ↦ panic | some a ↦ select r v (loop (chan_loop a c 0)) ]

unfoldable pub execute_chan_value : Values → (Task → Run (Unit {0})) → ℕ → ℕ → ℕ → Run (Unit {0})
unfolding select
execute_chan_value r loop elem c v = test_nil r v >>= λ nil.
    if nil then set_value c invalid else select r v (loop (value_loop elem c none))

-- What `reflect.Select` gives a loop: a value, or that the channel is closed or the context is done.
pub data Received : Type 0 where
  received : ℕ → Received
  over : Received

-- One round of the loop of `chanListResolver.Execute`, with the rest of it.
unfoldable pub chan_round : ℕ → ℕ → ℕ → Received → Run (Unit {0})
unfolding go
chan_round elem c idx over = skip
chan_round elem c idx (received v) = do
  x ← child (λ e. array_child e c idx)
  go (start elem x v)
  go (chan_loop elem c (suc idx))

-- One round of the loop of `chanValueResolver.Execute`, with the rest of it.
unfoldable pub value_round : ℕ → ℕ → Option ℕ → Received → Run (Unit {0})
unfolding go
value_round elem c none over = skip
value_round elem c (some x) over = change (λ e. purge e x)
value_round elem c known (received v) = do
  x ← elim known [ none ↦ child (λ e. virtual_child e c) | some x ↦ return x ]
  go (start elem x v)
  go (value_loop elem c (some x))
