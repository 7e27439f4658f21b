-- ===== src/Execution/Run/Quiet/Leaves.antt =====
-- The leaves of an execution (Execution/Run/Leaves.antt) start no goroutine of their own.
use magellan.Base.{
  ℕ, zero, suc, ◌<◌, refl, Bool, true, false, Option, none, some, length, lookup, string_key,
  is_some, ◌==◌, if◌then◌else◌,
}
use magellan.Types.{kind_array, kind_string}
use magellan.Execution.Context.{array_child, set_primitive_kind}
use magellan.Execution.Value.{invalid, other}
use magellan.Execution.Reflect.{ptr, same_kind}
use magellan.Execution.Model.{EnumResolver, PrimitiveResolver}
use magellan.Execution.Run.{Values, Task, start, Run, return, change, set_value, child, test_nil}
use magellan.Execution.Run.Leaves.{
  follow_ptrs, converted, execute_primitive, in_range, enum_int, enum_value, nil_ptr, execute_enum,
  list_elements, list_value, list_at_ptr, execute_list,
}
use magellan.Execution.Run.Quiet.{
  Quiet, QuietCalls, bind-Quiet, if-Quiet, test_nil-Quiet, set_value-Quiet, set_error-Quiet,
}

follow_ptrs-Quiet : (r : Values) (depth v : ℕ) → Quiet (follow_ptrs r depth v)
unfolding follow_ptrs
follow_ptrs-Quiet r zero v = λ s. (refl, refl)
follow_ptrs-Quiet r (suc depth) v = bind-Quiet (test_nil r v) _ (test_nil-Quiet r v) (λ nil.
    if-Quiet nil (return v) (follow_ptrs r depth (r.elem v)) (λ s. (refl, refl))
      (follow_ptrs-Quiet r depth (r.elem v)))

converted-Quiet : (r : Values) (t : Option ℕ) (v : ℕ) → Quiet (converted r t v)
unfolding converted
converted-Quiet r none v = λ s. (refl, refl)
converted-Quiet r (some t) v =
    if-Quiet (same_kind (r.kind v) ptr) _ _
      (bind-Quiet (test_nil r v) _ (test_nil-Quiet r v) (λ nil s. (refl, refl))) (λ s. (refl, refl))

pub execute_primitive-Quiet :
    (r : Values) (p : PrimitiveResolver) (c v : ℕ) → Quiet (execute_primitive r p c v)
unfolding execute_primitive
execute_primitive-Quiet r p c v =
    bind-Quiet (change (λ e. set_primitive_kind e c (some p.prim_kind))) _ (λ s. (refl, refl))
      (λ _. bind-Quiet (follow_ptrs r p.ptr_depth v) _ (follow_ptrs-Quiet r p.ptr_depth v) (λ w.
        bind-Quiet (converted r p.convert_to w) _ (converted-Quiet r p.convert_to w)
          (λ x. set_value-Quiet c (r.shown x))))

module _ (r : Values) (n : ℕ) (run : Task → Run (Unit {0})) (quiet : QuietCalls n run) where
  enum_int-Quiet :
      (e : EnumResolver) (c v : ℕ) → e.value_resolver < n → Quiet (enum_int r run e c v)
  unfolding enum_int
  enum_int-Quiet e c v h =
      if-Quiet (in_range (r.int_of v) (length e.possible_values_index)) _ _
        (quiet (start e.value_resolver c v) h) (set_error-Quiet c (r.enum_message v))

  enum_value-Quiet :
      (e : EnumResolver) (c v : ℕ) → e.value_resolver < n → Quiet (enum_value r run e c v)
  unfolding enum_value
  enum_value-Quiet e c v h =
      if-Quiet e.use_name _ _
        (if-Quiet (is_some (lookup (r.text_of v) e.possible_values)) _ _
          (quiet (start e.value_resolver c v) h) (set_error-Quiet c (r.enum_message v)))
        (enum_int-Quiet e c _ h)

  nil_ptr-Quiet : (v : ℕ) → Quiet (nil_ptr r v)
  unfolding nil_ptr
  nil_ptr-Quiet v =
      if-Quiet (same_kind (r.kind v) ptr) (test_nil r v) (return false) (test_nil-Quiet r v)
        (λ s. (refl, refl))

  pub execute_enum-Quiet :
      (e : EnumResolver) (c v : ℕ) → e.value_resolver < n → Quiet (execute_enum r run e c v)
  unfolding execute_enum
  execute_enum-Quiet e c v h =
      bind-Quiet (change (λ x. set_primitive_kind x c (some kind_string))) _ (λ s. (refl, refl))
        (λ _.
          bind-Quiet (if r.is_valid v then nil_ptr r v else return true) _
            (if-Quiet (r.is_valid v) (nil_ptr r v) (return true) (nil_ptr-Quiet v)
              (λ s. (refl, refl)))
            (λ nil.
              if-Quiet nil (set_value c invalid) (enum_value r run e c v)
                (set_value-Quiet c invalid) (enum_value-Quiet e c v h)))

  list_elements-Quiet :
      (elem c v i count : ℕ) → elem < n → Quiet (list_elements r run elem c v i count)
  unfolding list_elements
  list_elements-Quiet elem c v i zero h = λ s. (refl, refl)
  list_elements-Quiet elem c v i (suc count) h =
      bind-Quiet (child (λ e. array_child e c i)) _ (λ s. (refl, refl))
        (λ x.
          bind-Quiet (run (start elem x (r.index v i))) _ (quiet (start elem x (r.index v i)) h)
            (λ _. list_elements-Quiet elem c v (suc i) count h))

  list_value-Quiet : (elem c v : ℕ) → elem < n → Quiet (list_value r run (some elem) c v)
  unfolding list_value
  list_value-Quiet elem c v h =
      if-Quiet (r.len v == 0) (set_value c other) (list_elements r run elem c v 0 (r.len v))
        (set_value-Quiet c other) (list_elements-Quiet elem c v 0 (r.len v) h)

  list_at_ptr-Quiet : (elem c v : ℕ) → elem < n → Quiet (list_at_ptr r run (some elem) c v)
  unfolding list_at_ptr
  list_at_ptr-Quiet elem c v h = bind-Quiet (test_nil r v) _ (test_nil-Quiet r v) (λ nil.
      if-Quiet nil (set_value c invalid) (list_value r run (some elem) c (r.elem v))
        (set_value-Quiet c invalid) (list_value-Quiet elem c (r.elem v) h))

  pub execute_list-Quiet :
      (is_ptr : Bool) (elem c v : ℕ) → elem < n → Quiet (execute_list r run is_ptr (some elem) c v)
  unfolding execute_list
  execute_list-Quiet is_ptr elem c v h =
      bind-Quiet (change (λ e. set_primitive_kind e c (some kind_array))) _ (λ s. (refl, refl))
        (λ _.
          if-Quiet is_ptr (list_at_ptr r run (some elem) c v) (list_value r run (some elem) c v)
            (list_at_ptr-Quiet elem c v h) (list_value-Quiet elem c v h))
