-- ===== src/Tests/Results.antt =====
-- The multiplexer (result/result_multiplexer.go) on two trees: the tree 1 on the channel 10, the
-- tree 2 on the channel 20.
use magellan.Base.{
  ℕ, ◌+◌, ◌≤◌, ◌≡◌, refl, Bool, true, false, List, [], ◌∷◌, get_elem?, zero, suc, some, ap, lookup,
  insert, delete, modify, nat_key, arith,
}
use magellan.Result.Multiplexer.{
  Bytes, max_batch_size, QueryExecution, ServerMessage, value_init, value_batch, value_finalize,
  Channel, context_done, add_tree, receive, Multiplexer, Round, panicked, looped, new_multiplexer,
  total, drain, drain_into, drained_channel, queued_at, finish, take_pending, swap_remove, set_at,
  drop_last,
}
use magellan.Result.Multiplexer.Rounds.{
  on_add, on_value, on_closed, on_default, add_default, remove_default, count_defaults, any_ready,
  on_receive, on_chosen, dispatch, adds, round,
}
use magellan.Result.Multiplexer.Streams.{stream, drain-bounded}
use magellan.Result.Multiplexer.Delivery.{HasIds}
use magellan.Result.Multiplexer.Steady.{Steady, round_keeps_streams}
use magellan.Result.Multiplexer.Panics.{add_while_pending_panics}

program : Unit {0}
unfolding new_multiplexer drain drain_into drained_channel queued_at finish take_pending swap_remove
    set_at drop_last on_add on_value on_closed on_default add_default remove_default count_defaults
    any_ready on_receive on_chosen dispatch adds round lookup insert delete modify nat_key
program = tt

abbrev execution : ℕ → QueryExecution
execution p = record { query_id = p; output = p; cache_size = 30; cache_strategy = 0 }

abbrev channel : List Bytes → Bool → Channel
channel vs b = record { queued = vs; is_closed = b }

-- Both trees are there; the value of tree 1 is pending and its channel is closed.
abbrev closing : Multiplexer
closing = record {
  is_cancelled = false;
  gives_up = false;
  adding = [];
  channels = (10, channel [] true) ∷ (20, channel ((8 ∷ []) ∷ []) false) ∷ [];
  cases = context_done ∷ add_tree ∷ receive 10 ∷ receive 20 ∷ [];
  tree_id = 3;
  tree_ids = (10, 1) ∷ (20, 2) ∷ [];
  pending_id = 1;
  pending_val = 7 ∷ [];
  sent = [];
}

abbrev sent_by : Round → List ServerMessage
sent_by (looped s) = s.sent
sent_by _ = []

-- The pending value of tree 1 goes out after its end, with the value of tree 2 under the id 1.
mixes_trees :
    sent_by (round closing 2) ≡ value_finalize 1 ∷ value_batch 1 ((7 ∷ []) ∷ (8 ∷ []) ∷ []) ∷ []
unfolding program
mixes_trees = refl

abbrev flowing : Multiplexer
flowing = record closing {
  channels =
      (10, channel ((5 ∷ []) ∷ (6 ∷ []) ∷ []) false) ∷ (20, channel ((8 ∷ []) ∷ []) false) ∷ [];
}

-- The pending value comes first.
pending_first : sent_by (round flowing 2) ≡ value_batch 1 ((7 ∷ []) ∷ (5 ∷ []) ∷ (6 ∷ []) ∷ []) ∷ []
unfolding program
pending_first = refl

-- Two executions are added, and get the ids 1 and 2.
abbrev started : Multiplexer
started = new_multiplexer (execution 10 ∷ execution 20 ∷ []) []

abbrev next_round : Round → ℕ → Round
next_round (looped s) chosen = round s chosen
next_round r chosen = r

adds_two :
    sent_by (next_round (round started 1) 1) ≡ value_init 1 10 30 0 ∷ value_init 2 20 30 0 ∷ []
unfolding program
adds_two = refl

flowing-HasIds : HasIds flowing
unfolding lookup nat_key
flowing-HasIds = record { nonzero = λ p id e. ground arith; injective = λ p q id e f. ground arith }

same_channel : {p q : ℕ} → some (receive p) ≡ some (receive q) → q ≡ p
same_channel e = cc e

flowing-Steady : Steady flowing
unfolding program
flowing-Steady = record {
  live = refl;
  ids = flowing-HasIds;
  idle = refl;
  flowing = λ p c e. ground arith;
  no_default = refl;
  named = flowing_named;
  pending = λ ne. (10, channel ((5 ∷ []) ∷ (6 ∷ []) ∷ []) false, refl, refl);
}
  where
    flowing_named :
        (i p : ℕ)
        → get_elem? flowing.cases i ≡ some (receive p)
        → (id : ℕ) × (lookup p flowing.tree_ids ≡ some id)
    flowing_named zero p e = absurd (cc e)
    flowing_named (suc zero) p e = absurd (cc e)
    flowing_named (suc (suc zero)) p e = (1, ap (λ x. lookup x flowing.tree_ids) (same_channel e))
    flowing_named (suc (suc (suc zero))) p e =
        (2, ap (λ x. lookup x flowing.tree_ids) (same_channel e))
    flowing_named (suc (suc (suc (suc i)))) p e = absurd (cc e)

abbrev result_of : Round → Multiplexer
result_of (looped s) = s
result_of _ = flowing

round_keeps_streams_example : stream (result_of (round flowing 2)) 20 2 ≡ stream flowing 20 2
unfolding program
round_keeps_streams_example =
    round_keeps_streams flowing flowing-Steady 2 (result_of (round flowing 2)) refl 20 2 refl

drain-bounded_example : 3 + total (drain 3 ((5 ∷ []) ∷ [])).taken ≤ max_batch_size
drain-bounded_example = drain-bounded 3 ((5 ∷ []) ∷ []) (omega arith)

abbrev adding_one : Multiplexer
adding_one = record flowing { adding = execution 30 ∷ [] }

add_while_pending_panics_example :
    (round adding_one 1 ≡ looped (on_add (add_default adding_one) (execution 30) []))
    × ((chosen : ℕ) → round (on_add (add_default adding_one) (execution 30) []) chosen ≡ panicked)
unfolding count_defaults
add_while_pending_panics_example =
    add_while_pending_panics adding_one (execution 30) [] (λ e. omega arith) refl refl
