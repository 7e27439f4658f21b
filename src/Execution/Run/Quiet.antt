-- ===== src/Execution/Run/Quiet.antt =====
-- Methods that start no goroutine and wait for no channel but the encoder's.
pub mod Leaves
pub mod Methods
pub mod Serial
use magellan.Base.{
  ℕ, suc, ◌<◌, ◌≡◌, refl, sym, ap, ◌∙◌, String, Bool, true, false, Bool-cases, Option-cases, Option,
  none, some, inl, inr, if◌then◌else◌, arith,
}
use magellan.Execution.Context
use magellan.Execution.Context.{Execution}
use magellan.Execution.Value.{GoValue}
use magellan.Execution.Run.{
  Values, Task, start, execute_func, chan_loop, value_loop, object_loop, Runtime, Ran, ran,
  panicked, unfinished, waiting, Run, ◌>>=◌, ◌>>◌, return, panic, change, attempt, set_value,
  set_error, child, test_nil,
}

-- How such a method ends: it leaves the pool as it is, panics, is not finished, or waits for an encoder
-- that has returned.
abbrev pub QuietEnd : {A : Type 0} → Runtime → Ran A → Type 0
QuietEnd s (ran a t) = (t.pool ≡ s.pool) × (t.encoder_ended ≡ s.encoder_ended)
QuietEnd s panicked = Unit
QuietEnd s unfinished = Unit
QuietEnd s waiting = s.encoder_ended ≡ true

abbrev pub Quiet : {A : Type 0} → Run A → Type 0
Quiet m = (s : Runtime) → QuietEnd s (m s)

-- The tasks of resolvers below `n` that are not the loop of one.
abbrev pub IsCall : ℕ → Task → Type 0
IsCall n (start a c v) = a < n
IsCall n (execute_func a c v args) = a < n
IsCall n (chan_loop e c i) = true ≡ false
IsCall n (value_loop e c x) = true ≡ false
IsCall n (object_loop a c v x) = true ≡ false

abbrev pub QuietCalls : ℕ → (Task → Run (Unit {0})) → Type 0
QuietCalls n run = (t : Task) → IsCall n t → Quiet (run t)

pub bind-Quiet :
    {A B : Type 0} (m : Run A) (f : A → Run B) → Quiet m → ((a : A) → Quiet (f a)) → Quiet (m >>= f)
bind-Quiet {A = A} {B = B} m f p q s = split (m s) (p s)
  where
    split :
        (x : Ran A)
        → QuietEnd s x
        → QuietEnd s (elim x [
          | ran a t ↦ f a t
          | panicked ↦ panicked
          | unfinished ↦ unfinished
          | waiting ↦ waiting
        ])
    split (ran a t) h = later (f a t) (q a t) (h.0) (h.1)
      where
        later :
            (y : Ran B)
            → QuietEnd t y
            → t.pool ≡ s.pool
            → t.encoder_ended ≡ s.encoder_ended
            → QuietEnd s y
        later (ran b u) k h g = (k.0 ∙ h, k.1 ∙ g)
        later panicked k h g = tt
        later unfinished k h g = tt
        later waiting k h g = sym g ∙ k
    split panicked h = tt
    split unfinished h = tt
    split waiting h = h

pub if-Quiet :
    {A : Type 0} (b : Bool) (m k : Run A) → Quiet m → Quiet k → Quiet (if b then m else k)
if-Quiet true m k p q = p
if-Quiet false m k p q = q

pub else-Quiet :
    {A : Type 0} (b : Bool) (m k : Run A) → b ≡ false → Quiet k → Quiet (if b then m else k)
else-Quiet true m k e q = absurd (cc e)
else-Quiet false m k e q = q

pub option-Quiet :
    {A B : Type 0} (o : Option B) (m : Run A) (f : B → Run A)
    → Quiet m
    → ((b : B) → Quiet (f b))
    → Quiet (elim o [ none ↦ m | some b ↦ f b ])
option-Quiet none m f p q = p
option-Quiet (some b) m f p q = q b

pub attempt-Quiet : (f : Execution → Option Execution) → Quiet (attempt f)
attempt-Quiet f s = split (f s.execution)
  where
    split :
        (x : Option Execution)
        → QuietEnd s (elim x [
          | none ↦ panicked
          | some e ↦ if s.encoder_ended then waiting else ran tt (record s { execution = e })
        ])
    split none = tt
    split (some e) = written s.encoder_ended refl
      where
        written :
            (b : Bool)
            → s.encoder_ended ≡ b
            → QuietEnd s (if b then waiting else ran tt (record s { execution = e }))
        written true k = k
        written false k = (refl, refl)

pub test_nil-Quiet : (r : Values) (v : ℕ) → Quiet (test_nil r v)
test_nil-Quiet r v s = split (r.is_nil v)
  where
    split : (x : Option Bool) → QuietEnd s (elim x [ none ↦ panicked | some b ↦ ran b s ])
    split none = tt
    split (some b) = (refl, refl)

pub set_value-Quiet : (r : ℕ) (v : GoValue) → Quiet (set_value r v)
set_value-Quiet r v = attempt-Quiet (λ e. Context.set_value (suc e.next) e r v true)

pub set_error-Quiet : (r : ℕ) (err : String) → Quiet (set_error r err)
set_error-Quiet r err = attempt-Quiet (λ e. Context.set_error (suc e.next) e r err)
