-- ===== src/Execution/Run/Tasks.antt =====
-- Which `Execute` a resolver has, and the goroutines of an execution. `serial` is the execution's
-- `IsSerial`, which nothing writes.
use magellan.Base.{
  ℕ, zero, suc, Bool, Option, none, some, List, [], ◌∷◌, get_elem?, lookup, nat_key, if◌then◌else◌,
}
use magellan.Execution.Reflect.{Reflect}
use magellan.Execution.Model.{
  Resolver, func, object, list, chan_list, enum, chan_value, primitive, ObjectResolver,
}
use magellan.Execution.Run.{
  Values, Task, start, execute_func, chan_loop, value_loop, object_loop, Runtime, Ran, unfinished,
  waiting, Run, panic, go,
}
use magellan.Execution.Run.Leaves.{
  execute_primitive, execute_enum, execute_list, execute_chan_list, execute_chan_value, Received,
  chan_round, value_round,
}
use magellan.Execution.Run.Methods.{
  execute_method, call_method, execute_object, Update, object_round,
}

pub record Env : Type 0 where
  pub reflect : Reflect
  pub values : Values
  pub resolvers : List (ℕ × Resolver)
  pub serial : Bool

-- `Execute` of the resolver at `a`.
unfoldable pub execute :
    Env
    → (Task → Run (Unit {0}))
    → (Task → Run (Unit {0}))
    → ℕ
    → ℕ
    → ℕ
    → Option Resolver
    → Run (Unit {0})
execute n run loop a c v none = panic
execute n run loop a c v (some (func f)) = execute_method n.reflect n.values run a f c v
execute n run loop a c v (some (object o)) = execute_object n.values n.serial run loop a o c v
execute n run loop a c v (some (list p e)) = execute_list n.values run p e c v
execute n run loop a c v (some (chan_list e)) = execute_chan_list n.values loop e c v
execute n run loop a c v (some (enum e)) = execute_enum n.values run e c v
execute n run loop a c v (some (chan_value e)) = execute_chan_value n.values loop e c v
execute n run loop a c v (some (primitive p)) = execute_primitive n.values p c v

unfoldable pub call_resolver :
    Env → (Task → Run (Unit {0})) → ℕ → ℕ → List ℕ → Option Resolver → Run (Unit {0})
call_resolver n run c v args (some (func f)) = call_method n.values run f c v args
call_resolver n run c v args _ = panic

-- What a task does from its start to its end or its loop, with no other goroutine in between.
unfoldable pub run_task :
    Env → (Task → Run (Unit {0})) → (Task → Run (Unit {0})) → Task → Run (Unit {0})
unfolding execute call_resolver go
run_task n run loop (start a c v) = execute n run loop a c v (lookup a n.resolvers)
run_task n run loop (execute_func a c v args) = call_resolver n run c v args (lookup a n.resolvers)
run_task n run loop (chan_loop e c i) = go (chan_loop e c i)
run_task n run loop (value_loop e c x) = go (value_loop e c x)
run_task n run loop (object_loop a c v x) = go (object_loop a c v x)

-- A call of `Execute` in a serial execution: the caller waits for it, and so for its loop.
unfoldable pub call : Env → ℕ → Task → Run (Unit {0})
unfolding run_task
call n zero t = λ s. unfinished
call n (suc fuel) t = run_task n (call n fuel) (λ _ s. waiting) t

-- A goroutine that starts.
unfoldable pub run_goroutine : Env → ℕ → Task → Run (Unit {0})
unfolding call run_task
run_goroutine n fuel t = run_task n (if n.serial then call n fuel else go) go t

-- What the scheduler gives a goroutine.
pub data Event : Type 0 where
  begin : Event
  receive : Received → Event
  update : Update → Event

unfoldable pub without : ℕ → List Task → List Task
without i [] = []
without zero (t ∷ ts) = ts
without (suc i) (t ∷ ts) = t ∷ without i ts

unfoldable pub object_at : Env → ℕ → (ObjectResolver → Run (Unit {0})) → Run (Unit {0})
object_at n a f = elim (lookup a n.resolvers) [ some (object o) ↦ f o | _ ↦ panic ]

-- The task `t` at the event; none where the event is not for it.
unfoldable pub fire : Env → ℕ → Task → Event → Option (Run (Unit {0}))
unfolding run_goroutine chan_round value_round object_round object_at
fire n fuel (start a c v) begin = some (run_goroutine n fuel (start a c v))
fire n fuel (execute_func a c v args) begin = some (run_goroutine n fuel (execute_func a c v args))
fire n fuel (chan_loop e c i) (receive x) = some (chan_round e c i x)
fire n fuel (value_loop e c known) (receive x) = some (value_round e c known x)
fire n fuel (object_loop a c v cancels) (update u) =
    some (object_at n a (λ o. object_round n.values a o c v cancels u))
fire n fuel _ _ = none

-- One step of the goroutine `i` of the pool.
unfoldable pub step : Env → ℕ → ℕ → Event → Runtime → Option (Ran (Unit {0}))
unfolding fire without
step n fuel i event s = elim (get_elem? s.pool i) [
  | none ↦ none
  | some t ↦ elim (fire n fuel t event) [
    | none ↦ none
    | some m ↦ some (m (record s { pool = without i s.pool }))
  ]
]
