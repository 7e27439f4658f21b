-- ===== src/Result/Multiplexer.antt =====
-- result/result_multiplexer.go: the loop that merges the result trees into one connection. One
-- round is a function of the case that `reflect.Select` chose. A channel is what its senders have
-- ready, oldest first. `sent` is what went to `outpChan`, oldest first.
pub mod Rounds
pub mod Streams
pub mod Delivery
pub mod Panics
pub mod Steady
use magellan.Base.{
  ℕ, zero, suc, ◌+◌, ◌-◌, ◌%◌, ◌^◌, Bool, true, false, ◌&&◌, ◌||◌, not, Option, none, some, List,
  [], ◌∷◌, ◌++◌, length, get_elem?, lookup, insert, delete, modify, nat_key, ltb, ◌==◌,
  if◌then◌else◌,
}

abbrev pub Bytes : Type 0
Bytes = List ℕ

abbrev pub max_batch_size : ℕ
max_batch_size = 8110

-- `QueryExecution` of result/execution.go; `output` is its channel's address.
pub record QueryExecution : Type 0 where
  pub query_id : ℕ
  pub output : ℕ
  pub cache_size : ℕ
  pub cache_strategy : ℕ

pub data ServerMessage : Type 0 where
  value_init : (result_id query_id cache_size cache_strategy : ℕ) → ServerMessage
  value_batch : (result_id : ℕ) → List Bytes → ServerMessage
  value_finalize : (result_id : ℕ) → ServerMessage

pub record Channel : Type 0 where
  pub queued : List Bytes
  pub is_closed : Bool

pub data SelectCase : Type 0 where
  context_done : SelectCase
  add_tree : SelectCase
  receive : ℕ → SelectCase
  default : SelectCase

pub record Multiplexer : Type 0 where
  pub is_cancelled : Bool
  pub gives_up : Bool
  pub adding : List QueryExecution
  pub channels : List (ℕ × Channel)
  pub cases : List SelectCase
  pub tree_id : ℕ
  pub tree_ids : List (ℕ × ℕ)
  pub pending_id : ℕ
  pub pending_val : Bytes
  pub sent : List ServerMessage

-- How a round ends. `blocked` is a choice that `reflect.Select` cannot make.
pub data Round : Type 0 where
  stopped : Round
  panicked : Round
  blocked : Round
  looped : Multiplexer → Round

unfoldable pub new_multiplexer : List QueryExecution → List (ℕ × Channel) → Multiplexer
new_multiplexer adding channels = record {
  is_cancelled = false;
  gives_up = false;
  adding = adding;
  channels = channels;
  cases = context_done ∷ add_tree ∷ [];
  tree_id = 1;
  tree_ids = [];
  pending_id = 0;
  pending_val = [];
  sent = [];
}

-- `send`: once the context is done the select may give up the message, as `gives_up` has it.
abbrev pub sent_with : Multiplexer → ServerMessage → List ServerMessage
sent_with s m = if s.is_cancelled && s.gives_up then s.sent else s.sent ++ m ∷ []

abbrev pub send : Multiplexer → ServerMessage → Multiplexer
send s m = record s { sent = sent_with s m }

-- `valuesSize`
abbrev pub total : List Bytes → ℕ
total [] = 0
total (v ∷ vs) = length v + total vs

pub record Drained : Type 0 where
  pub taken : List Bytes
  pub left : List Bytes
  pub deferred : Option Bytes

deferring : Bytes → List Bytes → Drained → Bool → Drained
deferring v vs rest true = record { taken = []; left = vs; deferred = some v }
deferring v vs rest false = record rest { taken = v ∷ rest.taken }

-- The inner loop on a batch of `size` bytes: the values that join it, those left on the channel, and
-- the value that did not fit.
unfoldable pub drain : ℕ → List Bytes → Drained
unfolding deferring
drain size [] = record { taken = []; left = []; deferred = none }
drain size (v ∷ vs) =
    let rest = drain (size + length v) vs in
    if ltb size max_batch_size
    then deferring v vs rest (ltb max_batch_size (size + length v))
    else record { taken = []; left = v ∷ vs; deferred = none }

-- `selCases[i] = selCases[len(selCases)-1]; selCases = selCases[:len(selCases)-1]`
last_of : SelectCase → List SelectCase → SelectCase
last_of x [] = x
last_of x (y ∷ ys) = last_of y ys

unfoldable pub drop_last : List SelectCase → List SelectCase
drop_last [] = []
drop_last (x ∷ []) = []
drop_last (x ∷ y ∷ ys) = x ∷ drop_last (y ∷ ys)

unfoldable pub set_at : ℕ → SelectCase → List SelectCase → List SelectCase
set_at i x [] = []
set_at zero x (y ∷ ys) = x ∷ ys
set_at (suc i) x (y ∷ ys) = y ∷ set_at i x ys

unfoldable pub swap_remove : ℕ → List SelectCase → List SelectCase
unfolding last_of drop_last set_at
swap_remove i xs = drop_last (set_at i (last_of default xs) xs)

-- The case whose channel is drained: `selCases[chosen]`, after a removal that of another tree.
unfoldable pub drained_channel : Multiplexer → ℕ → Option ℕ
drained_channel s chosen = elim (get_elem? s.cases chosen) [ some (receive p) ↦ some p | _ ↦ none ]

unfoldable pub queued_at : ℕ → List (ℕ × Channel) → List Bytes
queued_at p channels = elim (lookup p channels) [ none ↦ [] | some c ↦ c.queued ]

abbrev pub left_at : List Bytes → Channel → Channel
left_at vs c = record c { queued = vs }

defer : Multiplexer → ℕ → Option Bytes → Multiplexer
defer s id none = s
defer s id (some v) = record s { pending_id = id; pending_val = v }

unfoldable pub drain_into : Multiplexer → ℕ → ℕ → List Bytes → Multiplexer × List Bytes
unfolding drain queued_at defer
drain_into s p id values =
    let d = drain (total values) (queued_at p s.channels) in
    (
      defer (record s { channels = modify p (left_at d.left) s.channels }) id d.deferred,
      values ++ d.taken,
    )

-- From `if valuesSize == 0` to the end of the round.
unfoldable pub finish : Multiplexer → ℕ → ℕ → List Bytes → Multiplexer
unfolding drain_into drained_channel
finish s chosen id values =
    if total values == 0
    then s
    else if ltb chosen (length s.cases) && s.pending_id == 0
    then elim (drained_channel s chosen) [
      | none ↦ send s (value_batch id values)
      | some p ↦ let d = drain_into s p id values in send d.0 (value_batch id d.1)
    ]
    else send s (value_batch id values)

abbrev pub no_pending : Multiplexer → Multiplexer
no_pending s = record s { pending_id = 0; pending_val = [] }

-- `if id == previousPendingId`
unfoldable pub take_pending : Multiplexer → ℕ → Multiplexer × List Bytes
take_pending s id = if id == s.pending_id then (no_pending s, s.pending_val ∷ []) else (s, [])

abbrev pub tree_id_of : Multiplexer → ℕ → ℕ
tree_id_of s p = elim (lookup p s.tree_ids) [ none ↦ 0 | some id ↦ id ]
