-- ===== src/Tests/Runs.antt =====
-- The execution of the person's model (execution/): the query asks for the name.
use magellan.Base.{
  arith, ℕ, ◌≡◌, refl, Bool, true, false, String, map, Option, none, some, List, [], ◌∷◌, lookup,
  insert, delete, modify, nat_key, string_key, ◌==◌, if◌then◌else◌,
}
use magellan.Types.{kind_string}
use magellan.Execution.Value.{string, fill, build_resolver_value, empty_primitive, string_of}
use magellan.Execution.Context
use magellan.Execution.Context.{
  value, Payload, base_child, field_child, array_child, virtual_child, set_primitive_kind,
  set_query_node, mark_child_final, mark_final, purge, new_root_resolver_context,
}
use magellan.Execution.Reflect.{basic, ptr}
use magellan.Types.{go_string}
use magellan.Execution.Run.{
  Values, Task, start, chan_loop, execute_func, object_loop, Runtime, Ran, ran, go, ◌>>◌,
}
use magellan.Execution.Run.Leaves.{
  follow_ptrs, converted, execute_primitive, in_range, enum_int, enum_value, nil_ptr, execute_enum,
  list_elements, list_value, list_at_ptr, execute_list, execute_chan_list, execute_chan_value,
  chan_round, value_round,
}
use magellan.Execution.Run.Methods.{
  qnode_of, field_values, insert_arg, sort_args, context_args, struct_args, output_args,
  execute_method, with_error, error_of, finish_func, call_once, call_method, process_child,
  process_children, execute_object, object_round,
}
use magellan.Execution.Run.Tasks.{
  Env, execute, call_resolver, run_task, call, run_goroutine, begin, without, object_at, fire, step,
}
use magellan.Execution.Run.Quiet.{QuietEnd}
use magellan.Execution.Run.Quiet.Serial.{serial_model-Quiet}
use magellan.Execution.Run.Elements.{Elements, listen, listen-Elements}
use magellan.Execution.Run.Arguments.{finished, AllFit, execute_method-AllFit}
use magellan.Execution.Reflect.{Method}
use magellan.Execution.Model.Func.{Scan}
use magellan.Tests.Models
use magellan.Tests.Models.{field, reflection, syntax, query_model, state_of, model_of}

program : Unit {0}
unfolding Models.program follow_ptrs converted execute_primitive in_range enum_int enum_value
    nil_ptr execute_enum list_elements list_value list_at_ptr execute_list execute_chan_list
    execute_chan_value chan_round value_round qnode_of field_values insert_arg sort_args
    context_args struct_args output_args execute_method with_error error_of finish_func call_once
    call_method process_child process_children execute_object object_round execute call_resolver
    run_task call run_goroutine step go base_child field_child array_child virtual_child
    set_primitive_kind set_query_node mark_child_final mark_final purge new_root_resolver_context
    Context.set_value Context.set_error build_resolver_value fill empty_primitive string_of lookup
    insert delete modify nat_key string_key
program = tt

-- The value 1 is the person, 2 her name, 3 the text of a type name.
abbrev values : Values
values = record {
  is_valid = λ v. true;
  is_nil = λ v. some false;
  kind = λ v. if v == 1 then ptr else basic go_string;
  elem = λ v. v;
  len = λ v. 0;
  index = λ v i. v;
  type_of = λ v. if v == 1 then 0 else 2;
  assignable_to = λ t u. t == u;
  convert = λ v t. v;
  shown = λ v. if v == 2 then string "Ada" else string "Person";
  text_of = λ v. "";
  int_of = λ v. none;
  of_text = λ s. 3;
  field_type = λ t i. 0;
  new_ptr = λ v. v;
  new_struct = λ t fields. 0;
  context_value = λ c. 4;
  chan_send = λ c t. 5;
  chan_recv = λ c t. 6;
  call = λ count v m args. 2 ∷ [];
  error_text = λ e. "";
  enum_message = λ v. "";
  introspect_resolver = λ p. 7;
  variable = λ q name. none;
  children = λ q.
      record { address = 101; id = 1; field_name = "name" }
      ∷ record { address = 102; id = 2; field_name = "__typename" }
      ∷ [];
}

abbrev env : Bool → Env
env serial = record {
  reflect = reflection;
  values = values;
  resolvers = (state_of (query_model serial 0)).heap;
  serial = serial;
}

abbrev begun : Bool → Runtime
begun serial = record {
  execution = set_query_node (new_root_resolver_context serial 100) 0 100;
  pool = [];
  calls = 0;
  encoder_ended = false;
}

abbrev root_task : Bool → Task
root_task serial = start (model_of (query_model serial 0)).root_resolver 0 1

abbrev texts : Ran (Unit {0}) → List Payload
texts (ran a s) = map (λ v. v.payload) s.execution.written
texts _ = []

abbrev text : String → Payload
text s = value (record (empty_primitive (some kind_string)) { string_value = s })

serial_run :
    texts (run_goroutine (env true) 9 (root_task true) (begun true))
    ≡ text "Ada" ∷ text "Person" ∷ []
unfolding program
serial_run = refl

abbrev pool_of : Ran (Unit {0}) → List Task
pool_of (ran a s) = s.pool
pool_of _ = []

-- Otherwise each field is a goroutine, and the object waits for the changes of its node.
goroutines :
    pool_of (run_goroutine (env false) 9 (root_task false) (begun false))
    ≡ start 2 1 1 ∷ start 9 2 3 ∷ object_loop 0 0 1 ((2, 2) ∷ (1, 1) ∷ []) ∷ []
unfolding program
goroutines = refl

serial_model-Quiet_example :
    QuietEnd (begun true) (run_goroutine (env true) 9 (root_task true) (begun true))
unfolding program
serial_model-Quiet_example =
    serial_model-Quiet reflection syntax 9 9 0 0 0 1 values (model_of (query_model true 0))
      (state_of (query_model true 0)) (begun true) refl

-- A live method with all three kinds of inputs.
abbrev feed : Method
feed = record { index = 3; inputs = 0 ∷ 5 ∷ 0 ∷ 6 ∷ []; outputs = 4 ∷ [] }

abbrev feed_resolver : Scan
feed_resolver = record {
  resolver = record {
    method = 3;
    field_name = "feed";
    context_arg = 1;
    args_arg = 2;
    args_type = some 1;
    args_fields = [];
    output_chan_arg = 3;
    returns_error = false;
    result_type = 0;
    result_resolver = 0;
  };
  output = some 7;
}

feed_call :
    pool_of
      (execute_method reflection values go 9 (finished feed_resolver true 7 2) 0 1 (begun false))
    ≡ start 2 0 6 ∷ execute_func 9 0 1 (4 ∷ 0 ∷ 5 ∷ []) ∷ []
unfolding program
feed_call = refl

execute_method-AllFit_example :
    (args : List ℕ) × AllFit reflection syntax (field "feed" 1) values 100 0 2 (5 ∷ 0 ∷ 6 ∷ []) args
    × (execute_method reflection values go 9 (finished feed_resolver true 7 2) 0 1 (begun false)
        ≡ (output_args reflection values (finished feed_resolver true 7 2) 0
              >> go (execute_func 9 0 1 args))
            (begun false))
unfolding program
execute_method-AllFit_example =
    execute_method-AllFit reflection values syntax (field "feed" 1) feed "feed" feed_resolver
      (state_of (query_model true 0)) (state_of (query_model true 0)) refl true 7 2 go 9 0 1 100
      (begun false) refl

abbrev state_after : Option (Ran (Unit {0})) → Runtime
state_after (some (ran a s)) = s
state_after _ = begun false

abbrev begun_query : Runtime
begun_query = record (begun false) { pool = root_task false ∷ [] }

-- The root runs first, then the goroutine that it starts for the type's name, then the one for the name.
abbrev first_state : Runtime
first_state = state_after (step (env false) 9 0 begin begun_query)

abbrev second_state : Runtime
second_state = state_after (step (env false) 9 1 begin first_state)

abbrev third_state : Runtime
third_state = state_after (step (env false) 9 0 begin second_state)

interleaved : map (λ v. v.payload) second_state.execution.written ≡ text "Person" ∷ []
unfolding program without object_at fire
interleaved = refl

listen-Elements_example :
    (u : Runtime) × (listen (8 ∷ 9 ∷ []) (chan_loop 3 0 4) (begun false) ≡ ran (chan_loop 3 0 6) u)
    × Elements 3 4 (8 ∷ 9 ∷ []) (begun false) u
unfolding program
listen-Elements_example = listen-Elements 3 0 4 (8 ∷ 9 ∷ []) (begun false) _ refl (omega arith)
