-- ===== src/Execution/Run/Elements.antt =====
-- The elements of a list, and the values of a channel that is one (execution/resolve_list.go): where
-- they are resolved.
use magellan.Base.{
  ℕ, zero, suc, ◌+◌, ◌%◌, ◌^◌, ◌<◌, ◌≡◌, ◌≢◌, refl, sym, ap, ◌∙◌, Option, none, some, List, [], ◌∷◌,
  ◌++◌, append-nil, append_assoc, length, lookup, lookup-insert, lookup-modify, nat_key, arith,
}
use magellan.Execution.Context.{
  ResolverContext, Execution, opened, base_child, new_child, array_child,
}
use magellan.Execution.Run.{Values, Task, start, chan_loop, Runtime, Ran, ran, panicked, go}
use magellan.Execution.Run.Leaves.{received, chan_round}

abbrev index_of : Option ResolverContext → Option ℕ
index_of none = none
index_of (some c) = elim c.path_component [ none ↦ none | some p ↦ some p.array_index ]

abbrev starts : ℕ → ℕ → List ℕ → List Task
starts elem a [] = []
starts elem a (v ∷ vs) = start elem a v ∷ starts elem (suc a) vs

-- From `s` to `u` each value gets a goroutine of its own for the resolver `elem`, in order, on a new
-- child context whose index is the value's place from `i` on, counted from 1.
pub record Elements (elem i : ℕ) (vs : List ℕ) (s u : Runtime) : Type 0 where
  pub next : u.execution.next ≡ s.execution.next + length vs
  pub pool : u.pool ≡ s.pool ++ starts elem s.execution.next vs
  pub indexes :
      (k : ℕ)
      → k < length vs
      → index_of (lookup (s.execution.next + k) u.execution.contexts) ≡ some ((i + k + 1) % 2 ^ 32)

abbrev pub with_element : ℕ → ℕ → ℕ → ℕ → Runtime → Runtime
with_element elem c i v s = record s {
  execution = array_child s.execution c i;
  pool = s.pool ++ start elem s.execution.next v ∷ [];
}

abbrev pub with_elements : ℕ → ℕ → ℕ → List ℕ → Runtime → Runtime
with_elements elem c i [] s = s
with_elements elem c i (v ∷ vs) s = with_elements elem c (suc i) vs (with_element elem c i v s)

module _ (s : Execution) (c i : ℕ) (x : ResolverContext) (e : lookup c s.contexts ≡ some x)
    (known : c < s.next) where
  child_next : (array_child s c i).next ≡ suc s.next
  unfolding array_child base_child
  child_next = rw (e, base_child) refl

  child_parent : lookup c (array_child s c i).contexts ≡ some (opened x)
  unfolding array_child base_child
  child_parent = rw (e, base_child) (grind (arith, lookup-modify, lookup-insert, e, known))

  child_index : index_of (lookup s.next (array_child s c i).contexts) ≡ some ((i + 1) % 2 ^ 32)
  unfolding array_child base_child new_child
  child_index = rw (e, base_child) (grind (arith, lookup-modify, lookup-insert, known))

  child_other :
      (j : ℕ) → j < s.next → j ≢ c → lookup j (array_child s c i).contexts ≡ lookup j s.contexts
  unfolding array_child base_child
  child_other j lt ne = rw (e, base_child) (grind (arith, lookup-modify, lookup-insert, lt, ne))

-- Contexts that are there stay as they are, but for the parent.
kept :
    (elem c i : ℕ) (vs : List ℕ) (s : Runtime) (x : ResolverContext)
    → lookup c s.execution.contexts ≡ some x
    → c < s.execution.next
    → (j : ℕ) → j < s.execution.next
    → j ≢ c
    → lookup j (with_elements elem c i vs s).execution.contexts ≡ lookup j s.execution.contexts
kept elem c i [] s x e known j lt ne = refl
kept elem c i (v ∷ vs) s x e known j lt ne =
    let size = child_next s.execution c i x e known in
    kept elem c (suc i) vs (with_element elem c i v s) (opened x)
      (child_parent s.execution c i x e known) (omega (arith, size, known)) j
      (omega (arith, size, lt)) ne
    ∙ child_other s.execution c i x e known j lt ne

-- The indexes, from those of the elements after the first.
placed :
    (at : ℕ → Option ℕ) (a b i n : ℕ)
    → b ≡ suc a
    → at a ≡ some ((i + 1) % 2 ^ 32)
    → ((k : ℕ) → k < n → at (b + k) ≡ some ((suc i + k + 1) % 2 ^ 32))
    → (k : ℕ) → k < suc n
    → at (a + k) ≡ some ((i + k + 1) % 2 ^ 32)
placed at a b i n e first later zero lt =
    ap at (omega arith) ∙ first ∙ ap (λ m. some (m % 2 ^ 32)) (omega arith)
placed at a b i n e first later (suc k) lt =
    ap at (omega (arith, e))
    ∙ later k (omega (arith, lt))
    ∙ ap (λ m. some (m % 2 ^ 32)) (omega arith)

with_elements-Elements :
    (elem c i : ℕ) (vs : List ℕ) (s : Runtime) (x : ResolverContext)
    → lookup c s.execution.contexts ≡ some x
    → c < s.execution.next
    → Elements elem i vs s (with_elements elem c i vs s)
with_elements-Elements elem c i [] s x e known = record {
  next = omega arith;
  pool = sym (append-nil s.pool);
  indexes = λ k lt. absurd (omega (arith, lt));
}
with_elements-Elements elem c i (v ∷ vs) s x e known =
    let t = with_element elem c i v s in
    let size = child_next s.execution c i x e known in
    let parent = child_parent s.execution c i x e known in
    let inside : c < t.execution.next = omega (arith, size, known) in
    let rest = with_elements-Elements elem c (suc i) vs t (opened x) parent inside in
    record {
      next = omega (arith, size, rest.next);
      pool =
          rest.pool
          ∙ ap (λ a. s.pool ++ start elem s.execution.next v ∷ [] ++ starts elem a vs) size
          ∙ append_assoc s.pool (start elem s.execution.next v ∷ [])
              (starts elem (suc s.execution.next) vs);
      indexes =
          placed (λ j. index_of (lookup j (with_elements elem c (suc i) vs t).execution.contexts))
            s.execution.next t.execution.next i (length vs) size
            (ap index_of (
                kept elem c (suc i) vs t (opened x) parent inside s.execution.next
                  (omega (arith, size)) (λ k. omega (arith, k, known)))
              ∙ child_index s.execution c i x e known)
            rest.indexes;
    }

-- The values of the elements of `v` from `i` on, of which there are `count`.
abbrev pub values_from : Values → ℕ → ℕ → ℕ → List ℕ
values_from r v i zero = []
values_from r v i (suc count) = r.index v i ∷ values_from r v (suc i) count

-- The newest goroutine of the pool.
abbrev pub newest : Task → List Task → Task
newest t [] = t
newest t (u ∷ us) = newest u us

abbrev pub without_newest : List Task → List Task
without_newest [] = []
without_newest (t ∷ []) = []
without_newest (t ∷ u ∷ us) = t ∷ without_newest (u ∷ us)

-- The loop of a channel that receives the values one after the other: a round puts the loop that goes on
-- behind the pool.
abbrev pub listen : List ℕ → Task → Runtime → Ran Task
listen [] t s = ran t s
listen (v ∷ vs) (chan_loop elem c i) s = elim (chan_round elem c i (received v) s) [
  | ran a u ↦
      listen vs (newest (chan_loop elem c i) u.pool) (record u { pool = without_newest u.pool })
  | _ ↦ panicked
]
listen (v ∷ vs) t s = panicked

newest-append : (d t : Task) (ts : List Task) → newest d (ts ++ t ∷ []) ≡ t
newest-append d t [] = refl
newest-append d t (u ∷ us) = newest-append u t us

without_newest-append : (t : Task) (ts : List Task) → without_newest (ts ++ t ∷ []) ≡ ts
without_newest-append t [] = refl
without_newest-append t (u ∷ []) = refl
without_newest-append t (u ∷ w ∷ us) = ap (λ xs. u ∷ xs) (without_newest-append t (w ∷ us))

listen_elements :
    (elem c : ℕ) (vs : List ℕ) (i : ℕ) (s : Runtime)
    → listen vs (chan_loop elem c i) s
      ≡ ran (chan_loop elem c (i + length vs)) (with_elements elem c i vs s)
unfolding chan_round go
listen_elements elem c [] i s = ap (λ j. ran (chan_loop elem c j) s) (omega arith)
listen_elements elem c (v ∷ vs) i s =
    let t = with_element elem c i v s in
    ap
      (λ x.
        listen vs x (record t { pool = without_newest (t.pool ++ chan_loop elem c (suc i) ∷ []) }))
      (newest-append (chan_loop elem c i) (chan_loop elem c (suc i)) t.pool)
    ∙ ap (λ p. listen vs (chan_loop elem c (suc i)) (record t { pool = p }))
        (without_newest-append (chan_loop elem c (suc i)) t.pool)
    ∙ listen_elements elem c vs (suc i) t
    ∙ ap (λ j. ran (chan_loop elem c j) (with_elements elem c (suc i) vs t)) (omega arith)

-- On a context that is there: the values that the loop of a channel receives one after the other are
-- resolved each in a goroutine of its own, in order, at the children with the indexes that follow the
-- loop's, and the loop goes on behind them.
pub listen-Elements :
    (elem c i : ℕ) (vs : List ℕ) (s : Runtime) (x : ResolverContext)
    → lookup c s.execution.contexts ≡ some x
    → c < s.execution.next
    → (u : Runtime) × (listen vs (chan_loop elem c i) s ≡ ran (chan_loop elem c (i + length vs)) u)
      × Elements elem i vs s u
listen-Elements elem c i vs s x e known = (
  with_elements elem c i vs s,
  listen_elements elem c vs i s,
  with_elements-Elements elem c i vs s x e known,
)
