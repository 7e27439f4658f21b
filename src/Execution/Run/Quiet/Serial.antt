-- ===== src/Execution/Run/Quiet/Serial.antt =====
-- The execution of a serial model (execution/model.go and the resolve files) as a whole.
use mathlib.Core.Path.{subst}
use magellan.Base.{
  ℕ, zero, suc, ◌<◌, ◌≡◌, refl, sym, true, some, List, lookup, nat_key, ℕ_discrete, if◌then◌else◌,
}
use magellan.Ast.Nodes.{Syntax}
use magellan.Execution.Reflect.{Reflect}
use magellan.Execution.Model.{
  FuncResolver, Resolver, func, object, list, chan_list, enum, chan_value, primitive, Builder,
  built,
}
use magellan.Execution.Model.Grows.{FuncIsComplete, IsComplete}
use magellan.Execution.Model.Build.{Model, build_model}
use magellan.Execution.Model.Build.Complete.{build_model-IsComplete}
use magellan.Execution.Run.{
  Values, Task, start, execute_func, chan_loop, value_loop, object_loop, Runtime, Run, go,
}
use magellan.Execution.Run.Leaves.{execute_list}
use magellan.Execution.Run.Methods.{execute_object}
use magellan.Execution.Run.Tasks.{Env, execute, call_resolver, run_task, call, run_goroutine}
use magellan.Execution.Run.Quiet.{QuietEnd, Quiet, QuietCalls}
use magellan.Execution.Run.Quiet.Leaves.{
  execute_primitive-Quiet, execute_enum-Quiet, execute_list-Quiet,
}
use magellan.Execution.Run.Quiet.Methods.{
  execute_method-Quiet, call_method-Quiet, execute_object-Quiet,
}

-- The resolvers below `n` stand and are complete for a serial model.
abbrev pub Complete : Syntax → Env → ℕ → Type 0
Complete syn e n =
    (a : ℕ) → a < n → (x : Resolver) × (lookup a e.resolvers ≡ some x) × IsComplete syn true n x

not_live : (n : ℕ) (f : FuncResolver) → FuncIsComplete true n f → f.output_chan_arg ≡ 0
not_live n f c = elim (ℕ_discrete f.output_chan_arg 0) [
  | yes e ↦ e
  | no k ↦ absurd (cc ((c.1 k).2))
]

module _ (syn : Syntax) (e : Env) (n : ℕ) (serial : e.serial ≡ true) where
  execute-Quiet :
      (run loop : Task → Run (Unit {0})) (a c v : ℕ) (x : Resolver)
      → QuietCalls n run
      → a < n
      → IsComplete syn true n x
      → Quiet (execute e run loop a c v (some x))
  unfolding execute
  execute-Quiet run loop a c v (func f) q h k =
      execute_method-Quiet n run q e.reflect e.values a f c v h (not_live n f k)
  execute-Quiet run loop a c v (object o) q h k =
      subst (λ b. Quiet (execute_object e.values b run loop a o c v)) (sym serial)
        (execute_object-Quiet n run q e.values loop a o c v k.0)
  execute-Quiet run loop a c v (list p x) q h k =
      subst (λ y. Quiet (execute_list e.values run p y c v)) (sym k.1)
        (execute_list-Quiet e.values n run q p k.0 c v k.2)
  execute-Quiet run loop a c v (chan_list x) q h k = absurd (cc (k.3))
  execute-Quiet run loop a c v (enum x) q h k = execute_enum-Quiet e.values n run q x c v k
  execute-Quiet run loop a c v (chan_value x) q h k = absurd (cc (k.1))
  execute-Quiet run loop a c v (primitive p) q h k = execute_primitive-Quiet e.values p c v

  call_resolver-Quiet :
      (run : Task → Run (Unit {0})) (c v : ℕ) (args : List ℕ) (x : Resolver)
      → QuietCalls n run
      → IsComplete syn true n x
      → Quiet (call_resolver e run c v args (some x))
  unfolding call_resolver
  call_resolver-Quiet run c v args (func f) q k = call_method-Quiet n run q e.values f c v args k.0
  call_resolver-Quiet run c v args _ q k = λ s. tt

  run_task-Quiet :
      (run loop : Task → Run (Unit {0}))
      → Complete syn e n
      → QuietCalls n run
      → QuietCalls n (run_task e run loop)
  unfolding run_task
  run_task-Quiet run loop complete q (start a c v) h =
      let (x, at, k) = complete a h in
      subst (λ o. Quiet (execute e run loop a c v o)) (sym at)
        (execute-Quiet run loop a c v x q h k)
  run_task-Quiet run loop complete q (execute_func a c v args) h =
      let (x, at, k) = complete a h in
      subst (λ o. Quiet (call_resolver e run c v args o)) (sym at)
        (call_resolver-Quiet run c v args x q k)
  run_task-Quiet run loop complete q (chan_loop a c i) h = absurd (cc h)
  run_task-Quiet run loop complete q (value_loop a c x) h = absurd (cc h)
  run_task-Quiet run loop complete q (object_loop a c v x) h = absurd (cc h)

  call-Quiet : (fuel : ℕ) → Complete syn e n → QuietCalls n (call e fuel)
  unfolding call
  call-Quiet zero complete t h = λ s. tt
  call-Quiet (suc fuel) complete t h =
      run_task-Quiet (call e fuel) _ complete (call-Quiet fuel complete) t h

  run_goroutine-Quiet :
      (fuel a c v : ℕ) → Complete syn e n → a < n → Quiet (run_goroutine e fuel (start a c v))
  unfolding run_goroutine
  run_goroutine-Quiet fuel a c v complete h =
      subst (λ b. Quiet (run_task e (if b then call e fuel else go) go (start a c v))) (sym serial)
        (run_task-Quiet (call e fuel) go complete (call-Quiet fuel complete) (start a c v) h)

-- A serial execution of a model that was built as serial runs in one goroutine: for every context and
-- value, whatever each call of a method returns, its root resolver leaves the pool of goroutines as it
-- is when it ends, and it waits for a channel only if the query's encoder has returned.
pub serial_model-Quiet :
    (r : Reflect) (syn : Syntax) (fuel more node t c v : ℕ) (values : Values) (m : Model)
    (u : Builder) (s : Runtime)
    → build_model r syn fuel (some node) (some t) true ≡ built m u
    → QuietEnd s (
        run_goroutine
          (record { reflect = r; values = values; resolvers = u.heap; serial = true })
          more
          (start m.root_resolver c v)
          s)
serial_model-Quiet r syn fuel more node t c v values m u s h =
    let (root, complete, type, mode) = build_model-IsComplete r syn fuel node t true m u h in
    run_goroutine-Quiet syn
      (record { reflect = r; values = values; resolvers = u.heap; serial = true }) u.next refl more
      m.root_resolver c v complete root s
