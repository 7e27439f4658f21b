-- ===== src/Tests/Contexts.antt =====
-- The resolver contexts (execution/resolver_ctx.go): a root, a field 1 of it and a field 2 of that.
use magellan.Base.{
  ◌≡◌, refl, true, false, Option, none, some, [], ◌∷◌, lookup, insert, delete, modify, nat_key,
  arith,
}
use magellan.Types.{kind_int}
use magellan.Execution.Value.{int, fill, build_resolver_value, empty_primitive}
use magellan.Execution.Context.{
  ResolverContext, value, Execution, base_child, virtual_child, field_child, array_child,
  set_primitive_kind, mark_child_final, mark_final, set_value, set_error, new_root_resolver_context,
}
use magellan.Execution.Context.Finality.{Ok}
use magellan.Execution.Context.Counts.{
  Reach, starts, steps, fields, Closes, final_of, Reach-WellFormed, mark_final_returns,
  mark_final_closes,
}
use magellan.Execution.Context.Virtual.{virtual_child_miscounts}

program : Unit {0}
unfolding base_child virtual_child field_child array_child mark_child_final mark_final set_value
    set_error set_primitive_kind new_root_resolver_context build_resolver_value fill empty_primitive
    lookup insert delete modify nat_key
program = tt

abbrev root : Execution
root = new_root_resolver_context false 0

abbrev one_field : Execution
one_field = field_child root 0 5 5

abbrev two_fields : Execution
two_fields = field_child one_field 1 6 6

-- The field 1, and the field 2 in it.
abbrev outer : ResolverContext
outer = record {
  is_cancelled = false;
  qnode = some 5;
  parent = some 0;
  path_parent = none;
  path_component = some (record { query_node_id = 5; array_index = 0; pos_identifier = 0 });
  is_final = false;
  active_children = 0;
  primitive_kind = none;
}

abbrev inner : ResolverContext
inner = record outer {
  qnode = some 6;
  parent = some 1;
  path_parent = some 1;
  path_component = some (record { query_node_id = 6; array_index = 0; pos_identifier = 0 });
}

reached : Reach two_fields
reached = steps (steps (starts false 0) (fields 0 5 5)) (fields 1 6 6)

abbrev state_of : Option Execution → Execution
state_of none = root
state_of (some s) = s

-- The end of the inner field is the end of the outer one.
outer_ends : final_of (lookup 1 (state_of (mark_final two_fields 2)).contexts) ≡ some true
unfolding program
outer_ends = refl

-- A value of a context without a path goes to the nearest context with one, and `int32` wraps.
wraps :
    (state_of (
      set_value 2
        (set_primitive_kind (virtual_child one_field 1) 2 (some kind_int))
        2
        (int 4294967303)
        true)).written
    ≡ record {
      context = 1;
      payload = value (record {
        kind = some kind_int;
        int_value = 7;
        bool_value = false;
        float_value = 0;
        string_value = "";
      });
    }
      ∷ []
unfolding program
wraps = refl

mark_final_returns_example : Ok two_fields 2 (mark_final two_fields 2)
mark_final_returns_example = mark_final_returns reached 2

outer_at : lookup 1 two_fields.contexts ≡ some (record outer { active_children = 1 })
unfolding program
outer_at = refl

inner_at : lookup 2 two_fields.contexts ≡ some inner
unfolding program
inner_at = refl

mark_final_closes_example : Closes two_fields 2 1 1
mark_final_closes_example =
    mark_final_closes two_fields (Reach-WellFormed reached) 2 1 inner
      (record outer { active_children = 1 }) inner_at outer_at refl refl refl (omega arith)

outer_alone : lookup 1 one_field.contexts ≡ some outer
unfolding program
outer_alone = refl

one_reached : Reach one_field
one_reached = steps (starts false 0) (fields 0 5 5)

virtual_child_miscounts_example :
    (t : Execution) × (mark_final
        (field_child (field_child (virtual_child one_field 1) 2 6 6) 2 7 7)
        3
      ≡ some t)
    × (final_of (lookup 1 t.contexts) ≡ some true)
    × (final_of (lookup 4 t.contexts) ≡ some false)
unfolding program
virtual_child_miscounts_example =
    virtual_child_miscounts one_field (Reach-WellFormed one_reached) 1 6 7 outer
      (record { query_node_id = 5; array_index = 0; pos_identifier = 0 }) outer_alone refl refl
