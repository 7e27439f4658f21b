-- ===== src/Qtree/Subs.antt =====
-- qtree/qtree_sub.go: the subscriptions to a node. A channel is what its buffer holds, oldest first.
use magellan.Base.{ℕ, List, [], ◌∷◌, ◌++◌, map, ltb, length, if◌then◌else◌}

-- `QTNodeUpdate`, with the address of the child.
pub data Update : Type 0 where
  op_add_child : ℕ → Update
  op_del_child : ℕ → Update
  op_delete : Update
  op_error : Update

pub record Subscription : Type 0 where
  pub id : ℕ
  pub ch_chans : List (List Update)

abbrev pub channel_size : ℕ
channel_size = 50

-- `select { case ch <- upd: default: }`: an update that finds the buffer full is dropped.
unfoldable pub send : Update → List Update → List Update
send upd ch = if ltb (length ch) channel_size then ch ++ upd ∷ [] else ch

unfoldable pub next_change : Update → Subscription → Subscription
next_change upd sub = record sub { ch_chans = map (send upd) sub.ch_chans }

unfoldable pub changes : Subscription → Subscription
changes sub = record sub { ch_chans = sub.ch_chans ++ [] ∷ [] }
