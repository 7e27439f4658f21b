-- ===== src/Result/Multiplexer/Rounds.antt =====
-- result/result_multiplexer.go: the branches of `runMultiplexer` and its rounds.
use magellan.Base.{
  ℕ, zero, suc, ◌%◌, ◌^◌, Bool, true, false, ◌||◌, Option, none, some, List, [], ◌∷◌, ◌++◌,
  get_elem?, lookup, insert, delete, modify, nat_key, ltb, ◌==◌, if◌then◌else◌,
}
use magellan.Result.Multiplexer.{
  Bytes, QueryExecution, value_init, value_finalize, SelectCase, context_done, add_tree, receive,
  default, Multiplexer, Round, stopped, panicked, blocked, looped, sent_with, send, drop_last,
  swap_remove, left_at, finish, no_pending, take_pending, tree_id_of,
}

-- A value `v` from the channel `p`.
unfoldable pub on_value : Multiplexer → ℕ → ℕ → Bytes → List Bytes → Multiplexer
unfolding finish take_pending
on_value s chosen p v rest =
    let id = tree_id_of s p in
    let t = take_pending (record s { channels = modify p (left_at rest) s.channels }) id in
    finish t.0 chosen id (t.1 ++ v ∷ [])

-- The channel `p` is closed and empty.
unfoldable pub on_closed : Multiplexer → ℕ → ℕ → Multiplexer
unfolding finish take_pending swap_remove
on_closed s chosen p =
    let id = tree_id_of s p in
    let t = take_pending s id in
    let removed = send t.0 (value_finalize id) in
    finish
      (record removed {
        cases = swap_remove chosen removed.cases;
        tree_ids = delete p removed.tree_ids;
      })
      chosen id t.1

unfoldable pub on_add : Multiplexer → QueryExecution → List QueryExecution → Multiplexer
on_add s e es =
    let id = s.tree_id % 2 ^ 32 in
    record s {
      adding = es;
      cases = s.cases ++ receive e.output ∷ [];
      tree_id = suc s.tree_id;
      tree_ids = insert e.output id s.tree_ids;
      sent = sent_with s (value_init id e.query_id e.cache_size e.cache_strategy);
    }

-- The round takes the pending value: no channel is ready.
unfoldable pub on_default : Multiplexer → ℕ → Multiplexer
unfolding finish
on_default s chosen = finish (no_pending s) chosen s.pending_id (s.pending_val ∷ [])

unfoldable pub add_default : Multiplexer → Multiplexer
add_default s = if s.pending_id == 0 then s else record s { cases = s.cases ++ default ∷ [] }

unfoldable pub remove_default : Multiplexer → Multiplexer
unfolding drop_last
remove_default s = if s.pending_id == 0 then s else record s { cases = drop_last s.cases }

unfoldable pub count_defaults : List SelectCase → ℕ
count_defaults [] = 0
count_defaults (default ∷ xs) = suc (count_defaults xs)
count_defaults (x ∷ xs) = count_defaults xs

channel_ready : List Bytes → Bool → Bool
channel_ready [] b = b
channel_ready (v ∷ vs) b = true

case_ready : Multiplexer → SelectCase → Bool
unfolding channel_ready
case_ready s context_done = s.is_cancelled
case_ready s add_tree = elim s.adding [ [] ↦ false | _ ↦ true ]
case_ready s (receive p) = elim (lookup p s.channels) [
  | none ↦ false
  | some c ↦ channel_ready c.queued c.is_closed
]
case_ready s default = false

unfoldable pub any_ready : Multiplexer → List SelectCase → Bool
unfolding case_ready
any_ready s [] = false
any_ready s (x ∷ xs) = case_ready s x || any_ready s xs

-- A receive of the chosen case from the channel `p`.
unfoldable pub on_receive : Multiplexer → ℕ → ℕ → List Bytes → Bool → Round
unfolding on_value on_closed
on_receive s chosen p [] false = blocked
on_receive s chosen p [] true = looped (on_closed s chosen p)
on_receive s chosen p (v ∷ vs) b = looped (on_value s chosen p v vs)

unfoldable pub on_chosen : Multiplexer → ℕ → Option SelectCase → Round
unfolding on_receive on_default remove_default any_ready
on_chosen t chosen (some default) =
    if any_ready t t.cases then blocked else looped (on_default (remove_default t) chosen)
on_chosen t chosen (some (receive p)) = elim (lookup p t.channels) [
  | none ↦ blocked
  | some c ↦ on_receive (remove_default t) chosen p c.queued c.is_closed
]
on_chosen t chosen (some _) = panicked
on_chosen t chosen none = blocked

unfoldable pub adds : Multiplexer → List QueryExecution → Round
unfolding on_add
adds t [] = blocked
adds t (e ∷ es) = looped (on_add t e es)

unfoldable pub dispatch : Multiplexer → ℕ → Round
unfolding on_chosen adds
dispatch t zero = if t.is_cancelled then stopped else blocked
dispatch t (suc zero) = adds t t.adding
dispatch t (suc (suc i)) = on_chosen t (suc (suc i)) (get_elem? t.cases (suc (suc i)))

-- One round of `runMultiplexer` in which `reflect.Select` chooses the case `chosen`. It panics on
-- two default cases.
unfoldable pub round : Multiplexer → ℕ → Round
unfolding dispatch add_default count_defaults
round s chosen =
    let t = add_default s in if ltb 1 (count_defaults t.cases) then panicked else dispatch t chosen
