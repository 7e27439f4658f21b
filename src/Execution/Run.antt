-- ===== src/Execution/Run.antt =====
-- The `Execute` methods of execution/resolve_*.go: what they read and change. A Go value is an
-- address. A goroutine is a task of `pool`, and a method runs to its end or to a wait on a channel,
-- after which its loop is a task too; the contexts change at the operations of
-- execution/resolver_ctx.go.
pub mod Leaves
pub mod Methods
pub mod Tasks
pub mod Quiet
pub mod Elements
pub mod Arguments
use magellan.Base.{
  if◌then◌else◌, ℕ, suc, String, Bool, true, false, Option, none, some, List, [], ◌∷◌, ◌++◌,
}
use magellan.Execution.Context.{Execution}
use magellan.Execution.Context
use magellan.Execution.Reflect.{Kind}
use magellan.Execution.Value.{GoValue}
use magellan.Execution.Model.{TypeResolverPair}

-- A node of the query tree, with its address.
pub record QueryNode : Type 0 where
  pub address : ℕ
  pub id : ℕ
  pub field_name : String

-- The functions of package reflect on values, the query tree and the resolver objects' methods.
-- `is_nil` is none where `IsNil` panics, `int_of` none for a negative int; `shown` is what a value is
-- for `SetValue`. `variable` is the value of an argument of a query node, none where it is missing or
-- nil. `call` is told how many calls of methods came before, so that each call may return something else.
-- `new_struct` is a pointer to a new struct with the fields set, `new_ptr` one to a copy.
pub record Values : Type 0 where
  pub is_valid : ℕ → Bool
  pub is_nil : ℕ → Option Bool
  pub kind : ℕ → Kind
  pub elem : ℕ → ℕ
  pub len : ℕ → ℕ
  pub index : ℕ → ℕ → ℕ
  pub type_of : ℕ → ℕ
  pub assignable_to : ℕ → ℕ → Bool
  pub convert : ℕ → ℕ → ℕ
  pub shown : ℕ → GoValue
  pub text_of : ℕ → String
  pub int_of : ℕ → Option ℕ
  pub of_text : String → ℕ
  pub field_type : ℕ → List ℕ → ℕ
  pub new_ptr : ℕ → ℕ
  pub new_struct : ℕ → List (List ℕ × ℕ) → ℕ
  pub context_value : ℕ → ℕ
  pub chan_send : ℕ → ℕ → ℕ
  pub chan_recv : ℕ → ℕ → ℕ
  pub call : (count receiver method : ℕ) → List ℕ → List ℕ
  pub error_text : ℕ → String
  pub enum_message : ℕ → String
  pub introspect_resolver : TypeResolverPair → ℕ
  pub variable : ℕ → String → Option ℕ
  pub children : ℕ → List QueryNode

-- A goroutine: a resolver that starts on a context and a value, or the loop of a resolver that waits.
pub data Task : Type 0 where
  start : (resolver context value : ℕ) → Task
  execute_func : (resolver context receiver : ℕ) → List ℕ → Task
  chan_loop : (elem context idx : ℕ) → Task
  value_loop : (elem context : ℕ) → Option ℕ → Task
  object_loop : (resolver context value : ℕ) → List (ℕ × ℕ) → Task

-- `pool` has the goroutines that may go on, `calls` counts the calls of methods, and `encoder_ended` says
-- that `Run` of the query's encoder has returned.
pub record Runtime : Type 0 where
  pub execution : Execution
  pub pool : List Task
  pub calls : ℕ
  pub encoder_ended : Bool

-- `waiting` is a wait on a channel where a caller waits for the method to return, or a wait for ever on
-- that of an encoder that has returned.
pub data Ran (A : Type 0) : Type 0 where
  ran : A → Runtime → Ran A
  panicked unfinished waiting : Ran A

abbrev pub Run : Type 0 → Type 0
Run A = Runtime → Ran A

infixl 5 ◌>>=◌ ◌>>◌
abbrev pub ◌>>=◌ : {A B : Type 0} → Run A → (A → Run B) → Run B
◌>>=◌ m f s = elim (m s) [
  | ran a t ↦ f a t
  | panicked ↦ panicked
  | unfinished ↦ unfinished
  | waiting ↦ waiting
]

abbrev pub ◌>>◌ : {A B : Type 0} → Run A → Run B → Run B
m >> k = m >>= λ _. k

abbrev pub return : {A : Type 0} → A → Run A
return a s = ran a s

abbrev pub panic : {A : Type 0} → Run A
panic s = panicked

abbrev pub skip : Run (Unit {0})
skip = return tt

-- `go`
unfoldable pub go : Task → Run (Unit {0})
go t s = ran tt (record s { pool = s.pool ++ t ∷ [] })

-- An operation of a context.
abbrev pub change : (Execution → Execution) → Run (Unit {0})
change f s = ran tt (record s { execution = f s.execution })

-- One that writes a value: the channel to the encoder has no buffer and is read until `Run` returns.
abbrev pub attempt : (Execution → Option Execution) → Run (Unit {0})
attempt f s = elim (f s.execution) [
  | none ↦ panicked
  | some e ↦ if s.encoder_ended then waiting else ran tt (record s { execution = e })
]

abbrev pub set_value : ℕ → GoValue → Run (Unit {0})
set_value r v = attempt (λ e. Context.set_value (suc e.next) e r v true)

abbrev pub set_error : ℕ → String → Run (Unit {0})
set_error r err = attempt (λ e. Context.set_error (suc e.next) e r err)

-- A new child context; its address is the first free one.
abbrev pub child : (Execution → Execution) → Run ℕ
child f s = ran s.execution.next (record s { execution = f s.execution })

-- `v.IsNil()`
abbrev pub test_nil : Values → ℕ → Run Bool
test_nil r v s = elim (r.is_nil v) [ none ↦ panicked | some b ↦ ran b s ]
