-- ===== src/Result/Multiplexer/Panics.antt =====
-- How result/result_multiplexer.go panics: a tree that is added while a value is pending.
use magellan.Base.{
  ℕ, ◌+◌, ◌≤◌, ◌≡◌, ◌≢◌, refl, sym, subst, true, false, List, [], ◌∷◌, ◌++◌, ltb, ◌==◌, arith,
}
use magellan.Result.Multiplexer.{
  SelectCase, context_done, add_tree, receive, default, QueryExecution, Multiplexer, panicked,
  looped,
}
use magellan.Result.Multiplexer.Rounds.{on_add, add_default, count_defaults, dispatch, adds, round}

count_defaults-append :
    (xs ys : List SelectCase) → count_defaults (xs ++ ys) ≡ count_defaults xs + count_defaults ys
unfolding count_defaults
count_defaults-append [] ys = omega arith
count_defaults-append (context_done ∷ xs) ys = count_defaults-append xs ys
count_defaults-append (add_tree ∷ xs) ys = count_defaults-append xs ys
count_defaults-append (receive p ∷ xs) ys = count_defaults-append xs ys
count_defaults-append (default ∷ xs) ys = omega (arith, count_defaults-append xs ys)

by_eq : (n : ℕ) → n ≢ 0 → n == 0 ≡ false
by_eq n ne = grind (arith, ne)

one_default :
    (s : Multiplexer)
    → count_defaults s.cases ≡ 0
    → ltb 1 (count_defaults (s.cases ++ default ∷ [])) ≡ false
unfolding count_defaults
one_default s z = rw (count_defaults-append s.cases (default ∷ []), z) refl

with_default :
    (s : Multiplexer)
    → s.pending_id ≢ 0
    → add_default s ≡ record s { cases = s.cases ++ default ∷ [] }
unfolding add_default
with_default s ne = rw (add_default, by_eq s.pending_id ne) refl

two_defaults :
    (t : Multiplexer)
    → t.pending_id ≢ 0
    → 1 ≤ count_defaults t.cases
    → (chosen : ℕ) → round t chosen ≡ panicked
unfolding round count_defaults
two_defaults t ne some_default chosen = rw (round, with_default t ne, two) refl
  where
    two : ltb 1 (count_defaults (t.cases ++ default ∷ [])) ≡ true
    two = grind (arith, count_defaults-append t.cases (default ∷ []), some_default)

kept_default :
    (s : Multiplexer) (e : QueryExecution)
    → 1 ≤ count_defaults (s.cases ++ default ∷ [] ++ receive e.output ∷ [])
unfolding count_defaults
kept_default s e = omega (
  arith,
  count_defaults-append (s.cases ++ default ∷ []) (receive e.output ∷ []),
  count_defaults-append s.cases (default ∷ []),
)

-- If a value is pending and an execution waits to be added: the round in which `reflect.Select`
-- chooses to add it returns, and the next round panics, whatever it chooses.
pub add_while_pending_panics :
    (s : Multiplexer) (e : QueryExecution) (es : List QueryExecution)
    → s.pending_id ≢ 0
    → s.adding ≡ e ∷ es
    → count_defaults s.cases ≡ 0
    → (round s 1 ≡ looped (on_add (add_default s) e es))
      × ((chosen : ℕ) → round (on_add (add_default s) e es) chosen ≡ panicked)
unfolding round add_default on_add dispatch adds count_defaults
add_while_pending_panics s e es pending waits none_left = (
  rw (round, add_default, by_eq s.pending_id pending, one_default s none_left, waits) refl,
  two_defaults (on_add (add_default s) e es)
      (subst (λ (t : Multiplexer). (on_add t e es).pending_id ≢ 0) (sym (with_default s pending))
        pending)
      (subst (λ (t : Multiplexer). 1 ≤ count_defaults (on_add t e es).cases)
        (sym (with_default s pending)) (kept_default s e)),
)
