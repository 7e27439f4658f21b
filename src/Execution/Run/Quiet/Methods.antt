-- ===== src/Execution/Run/Quiet/Methods.antt =====
-- The methods and the objects of a serial execution (Execution/Run/Methods.antt), and the whole of it.
use magellan.Base.{
  ℕ, ◌<◌, ◌≡◌, refl, String, true, false, Option, none, some, List, [], ◌∷◌, ◌++◌, map, get_elem?,
  lookup, insert, nat_key, string_key, ltb, if◌then◌else◌, arith,
}
use magellan.Execution.Context.{field_child, ResolverContext}
use magellan.Execution.Value.{invalid}
use magellan.Execution.Reflect.{Reflect}
use magellan.Execution.Model.{FuncResolver, ObjectResolver}
use magellan.Execution.Run.{
  QueryNode, Values, Task, start, execute_func, Run, ran, ◌>>=◌, ◌>>◌, return, panic, skip,
  set_value, set_error, child, test_nil,
}
use magellan.Execution.Run.Methods.{
  qnode_of, context_args, struct_args, output_args, sort_args, execute_method, with_error, error_of,
  finish_func, call_once, call_method, field_argument, process_child, process_children,
  execute_object,
}
use magellan.Execution.Run.Quiet.{
  QuietEnd, Quiet, QuietCalls, bind-Quiet, if-Quiet, else-Quiet, option-Quiet, test_nil-Quiet,
  set_value-Quiet, set_error-Quiet,
}

qnode_of-Quiet : (c : ℕ) → Quiet (qnode_of c)
unfolding qnode_of
qnode_of-Quiet c s = split (lookup c s.execution.contexts)
  where
    split :
        (x : Option ResolverContext)
        → QuietEnd s (elim x [ none ↦ ran none s | some y ↦ ran y.qnode s ])
    split none = (refl, refl)
    split (some y) = (refl, refl)

struct_args-Quiet :
    (rf : Reflect) (r : Values) (f : FuncResolver) (q : Option ℕ) → Quiet (struct_args rf r f q)
unfolding struct_args
struct_args-Quiet rf r f q =
    if-Quiet (ltb 0 f.args_arg) _ _
      (option-Quiet f.args_type panic _ (λ s. tt)
        (λ t. option-Quiet q panic _ (λ s. tt) (λ x s. (refl, refl))))
      (λ s. (refl, refl))

not_live : (f : FuncResolver) → f.output_chan_arg ≡ 0 → ltb 0 f.output_chan_arg ≡ false
not_live f e = ground arith

output_args-Quiet :
    (rf : Reflect) (r : Values) (f : FuncResolver) (c : ℕ)
    → f.output_chan_arg ≡ 0
    → Quiet (output_args rf r f c)
unfolding output_args
output_args-Quiet rf r f c e =
    else-Quiet (ltb 0 f.output_chan_arg) _ (return []) (not_live f e) (λ s. (refl, refl))

error_of-Quiet : (f : FuncResolver) (results : List ℕ) → Quiet (error_of f results)
unfolding error_of
error_of-Quiet f results =
    if-Quiet f.returns_error _ _
      (option-Quiet (get_elem? results (if ltb 0 f.output_chan_arg then 0 else 1)) panic _ (λ s. tt)
        (λ e s. (refl, refl)))
      (λ s. (refl, refl))

with_error-Quiet :
    (r : Values) (c : ℕ) (e : Option ℕ) (m : Run (Unit {0})) → Quiet m → Quiet (with_error r c e m)
unfolding with_error
with_error-Quiet r c none m p = p
with_error-Quiet r c (some e) m p =
    if-Quiet (r.is_valid e) _ _
      (bind-Quiet (test_nil r e) _ (test_nil-Quiet r e) (λ nil.
        if-Quiet nil m (set_error c (r.error_text e)) p (set_error-Quiet c (r.error_text e))))
      p

module _ (n : ℕ) (run : Task → Run (Unit {0})) (quiet : QuietCalls n run) where
  pub execute_method-Quiet :
      (rf : Reflect) (r : Values) (a : ℕ) (f : FuncResolver) (c v : ℕ)
      → a < n
      → f.output_chan_arg ≡ 0
      → Quiet (execute_method rf r run a f c v)
  unfolding execute_method
  execute_method-Quiet rf r a f c v h e = bind-Quiet (qnode_of c) _ (qnode_of-Quiet c) (λ q.
      bind-Quiet (struct_args rf r f q) _ (struct_args-Quiet rf r f q) (λ s.
        bind-Quiet (output_args rf r f c) _ (output_args-Quiet rf r f c e) (λ o.
          quiet (execute_func a c v (map (λ x. x.1) (sort_args (context_args r f c ++ s ++ o))))
            h)))

  finish_func-Quiet :
      (f : FuncResolver) (c : ℕ) (results : List ℕ)
      → f.result_resolver < n
      → Quiet (finish_func run f c results)
  unfolding finish_func
  finish_func-Quiet f c [] h =
      if-Quiet (ltb 0 f.output_chan_arg) skip panic (λ s. (refl, refl)) (λ s. tt)
  finish_func-Quiet f c (v ∷ vs) h =
      if-Quiet (ltb 0 f.output_chan_arg) skip (run (start f.result_resolver c v))
        (λ s. (refl, refl)) (quiet (start f.result_resolver c v) h)

  pub call_method-Quiet :
      (r : Values) (f : FuncResolver) (c v : ℕ) (args : List ℕ)
      → f.result_resolver < n
      → Quiet (call_method r run f c v args)
  unfolding call_method call_once
  call_method-Quiet r f c v args h =
      bind-Quiet (call_once r f v args) _ (λ s. (refl, refl))
        (λ results. bind-Quiet (error_of f results) _ (error_of-Quiet f results) (λ e.
          with_error-Quiet r c e (finish_func run f c results) (finish_func-Quiet f c results h)))

  process_child-Quiet :
      (r : Values) (o : ObjectResolver) (c v : ℕ) (q : QueryNode) (cancels : List (ℕ × ℕ))
      → ((name : String) (x : ℕ) → lookup name o.field_resolvers ≡ some x → x < n)
      → Quiet (process_child r run o c v q cancels)
  unfolding process_child
  process_child-Quiet r o c v q cancels h = split (lookup q.field_name o.field_resolvers) refl
    where
      split :
          (l : Option ℕ)
          → lookup q.field_name o.field_resolvers ≡ l
          → Quiet (elim l [
            | none ↦ return cancels
            | some f ↦ (do
              x ← child (λ e. field_child e c q.address q.id)
              run (start f x (field_argument r o v q.field_name))
              return (insert q.id x cancels))
          ])
      split none e = λ s. (refl, refl)
      split (some f) e =
          bind-Quiet (child (λ e. field_child e c q.address q.id)) _ (λ s. (refl, refl))
            (λ x.
              bind-Quiet (run (start f x (field_argument r o v q.field_name))) _
                (quiet (start f x (field_argument r o v q.field_name)) (h q.field_name f e))
                (λ _ s. (refl, refl)))

  process_children-Quiet :
      (r : Values) (o : ObjectResolver) (c v : ℕ) (qs : List QueryNode) (cancels : List (ℕ × ℕ))
      → ((name : String) (x : ℕ) → lookup name o.field_resolvers ≡ some x → x < n)
      → Quiet (process_children r run o c v qs cancels)
  unfolding process_children
  process_children-Quiet r o c v [] cancels h = λ s. (refl, refl)
  process_children-Quiet r o c v (q ∷ qs) cancels h =
      bind-Quiet (process_child r run o c v q cancels) _ (process_child-Quiet r o c v q cancels h)
        (λ known. process_children-Quiet r o c v qs known h)

  pub execute_object-Quiet :
      (r : Values) (loop : Task → Run (Unit {0})) (a : ℕ) (o : ObjectResolver) (c v : ℕ)
      → ((name : String) (x : ℕ) → lookup name o.field_resolvers ≡ some x → x < n)
      → Quiet (execute_object r true run loop a o c v)
  unfolding execute_object
  execute_object-Quiet r loop a o c v h = bind-Quiet (qnode_of c) _ (qnode_of-Quiet c) (λ q.
      bind-Quiet (if r.is_valid v then test_nil r v else return true) _
        (if-Quiet (r.is_valid v) (test_nil r v) (return true) (test_nil-Quiet r v)
          (λ s. (refl, refl)))
        (λ nil. if-Quiet nil (set_value c invalid) _ (set_value-Quiet c invalid) (
          option-Quiet q panic _ (λ s. tt)
            (λ x.
              bind-Quiet (process_children r run o c v (r.children x) []) _
                (process_children-Quiet r o c v (r.children x) [] h) (λ _ s. (refl, refl))))))
