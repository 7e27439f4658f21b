-- ===== src/Execution/Context/Counts.antt =====
-- The count of pending children and when it finalizes a context (execution/resolver_ctx.go).
use magellan.Base.{
  ℕ, suc, ◌-◌, ◌<◌, ◌≤◌, ◌≡◌, refl, Bool, true, false, Option, none, some, lookup, arith, subst,
  ◌∙◌, lookup-modify, lookup-nil, nat_key, Option-cases, inl, inr, ◌==◌, opt_map,
}
use magellan.Execution.Context.{
  PathComponent, ResolverContext, ResolverValue, Execution, on, closed, finalized, base_child,
  field_child, set_primitive_kind, set_query_node, purge, mark_child_final, mark_final, write,
  new_root_resolver_context,
}
use magellan.Execution.Context.Finality.{
  WellFormed, Ok, on-WellFormed, base_child-WellFormed, mark_child_final_Ok, mark_final_Ok,
}

-- One operation on the contexts.
pub data Step (s : Execution) : Execution → Type 0 where
  opens : (r : ℕ) (path : Option PathComponent) → Step s (base_child s r path)
  kinds : (r : ℕ) (kind : _) → Step s (set_primitive_kind s r kind)
  fields : (r qnode id : ℕ) → Step s (field_child s r qnode id)
  moves : (r qnode : ℕ) → Step s (set_query_node s r qnode)
  purges : (r : ℕ) → Step s (purge s r)
  writes : (v : ResolverValue) → Step s (write s v)
  marks : {t : Execution} (r : ℕ) → mark_final s r ≡ some t → Step s t

-- The executions that a query's resolvers can bring about, in any order of their operations.
pub data Reach : Execution → Type 0 where
  starts : (serial : Bool) (qnode : ℕ) → Reach (new_root_resolver_context serial qnode)
  steps : {s t : Execution} → Reach s → Step s t → Reach t

starts-WellFormed :
    (serial : Bool) (qnode : ℕ) → WellFormed (new_root_resolver_context serial qnode)
unfolding new_root_resolver_context lookup
starts-WellFormed serial qnode = record {
  fresh = λ j d e. grind (arith, lookup-nil j);
  up = λ j q d e p. grind (arith, lookup-nil j);
}

marked-WellFormed :
    (s t : Execution) (r : ℕ) → WellFormed s → mark_final s r ≡ some t → WellFormed t
marked-WellFormed s t r h e = subst (λ x. WellFormed x) (cc (o.returns, e)) o.valid
  where
    o : Ok s r (mark_final s r)
    o = mark_final_Ok s r h

Step-WellFormed : {s t : Execution} → Step s t → WellFormed s → WellFormed t
unfolding field_child set_primitive_kind set_query_node purge
Step-WellFormed {s} (opens r path) h = base_child-WellFormed s r path h
Step-WellFormed {s} (fields r qnode id) h =
    on-WellFormed (base_child s r _) s.next _ (λ c. refl) (base_child-WellFormed s r _ h)
Step-WellFormed {s} (kinds r kind) h = on-WellFormed s r _ (λ c. refl) h
Step-WellFormed {s} (moves r qnode) h = on-WellFormed s r _ (λ c. refl) h
Step-WellFormed {s} (purges r) h = on-WellFormed s r _ (λ c. refl) h
Step-WellFormed {s} (writes v) h = record { fresh = h.fresh; up = h.up }
Step-WellFormed {s} {t} (marks r e) h = marked-WellFormed s t r h e

pub Reach-WellFormed : {s : Execution} → Reach s → WellFormed s
Reach-WellFormed (starts serial qnode) = starts-WellFormed serial qnode
Reach-WellFormed (steps r s) = Step-WellFormed s (Reach-WellFormed r)

-- In every execution that the resolvers can bring about `MarkFinal` returns, on any context, and
-- it leaves the contexts that were made after that one as they are.
pub mark_final_returns : {s : Execution} → Reach s → (r : ℕ) → Ok s r (mark_final s r)
mark_final_returns {s} h r = mark_final_Ok s r (Reach-WellFormed h)

abbrev pub active_of : Option ResolverContext → Option ℕ
active_of x = opt_map (λ c. c.active_children) x

abbrev pub final_of : Option ResolverContext → Option Bool
final_of x = opt_map (λ c. c.is_final) x

-- What a context's end does: the context is final, its path parent `q` has one pending child
-- less, and is final exactly if none is left; while one is left nothing else changes.
pub record Closes (s : Execution) (r q n : ℕ) : Type 0 where
  pub state : Execution
  pub returns : mark_final s r ≡ some state
  pub child : final_of (lookup r state.contexts) ≡ some true
  pub count : active_of (lookup q state.contexts) ≡ some (n - 1)
  pub parent : final_of (lookup q state.contexts) ≡ some (n == 1)
  pub others :
      1 < n → (j : ℕ) → ¬ (j ≡ r) → ¬ (j ≡ q) → lookup j state.contexts ≡ lookup j s.contexts

module _ (s : Execution) (h : WellFormed s) (r q : ℕ) (c d : ResolverContext)
    (er : lookup r s.contexts ≡ some c) (eq : lookup q s.contexts ≡ some d)
    (p : c.path_parent ≡ some q) (fc : c.is_final ≡ false) (fd : d.is_final ≡ false)
    (pos : 1 ≤ d.active_children) where
  child_set : Execution
  child_set = on s r finalized

  older : q < r
  older = h.up r q c er p

  child_at : lookup r child_set.contexts ≡ some (finalized c)
  unfolding child_set
  child_at = grind (arith, lookup-modify)

  parent_at : lookup q child_set.contexts ≡ some d
  unfolding child_set
  parent_at = grind (arith, lookup-modify, older)

  rises : mark_final s r ≡ mark_child_final (suc s.next) child_set q
  unfolding mark_final child_set
  rises = rw (er, fc, p, mark_final) refl

  some_left : ¬ (d.active_children ≡ 1) → Closes s r q d.active_children
  unfolding mark_child_final child_set
  some_left ne = record {
    state = on child_set q closed;
    returns = rises ∙ rw (parent_at, fd, mark_child_final) (grind (arith, ne, pos));
    child = grind (arith, lookup-modify, child_at, older);
    count = grind (arith, lookup-modify, parent_at, older);
    parent = grind (arith, lookup-modify, parent_at, older, ne);
    others = λ lt j a b. grind (arith, lookup-modify, a, b);
  }

  parent_set : Execution
  parent_set = on child_set q (λ c. finalized (closed c))

  -- The last child: the end rises to an older context than `q`, or stops.
  none_left :
      d.active_children ≡ 1
      → (t : Execution) → mark_child_final (suc s.next) child_set q ≡ some t
      → ((j : ℕ) → q ≤ j → lookup j t.contexts ≡ lookup j parent_set.contexts)
      → Closes s r q d.active_children
  unfolding child_set parent_set
  none_left one t e same = record {
    state = t;
    returns = rises ∙ e;
    child = grind (arith, lookup-modify, same r, er, older);
    count = grind (arith, lookup-modify, same q, eq, older);
    parent = grind (arith, lookup-modify, same q, eq, older);
    others = λ lt j a b. grind (arith);
  }

  parent_set-WellFormed : WellFormed parent_set
  unfolding parent_set child_set
  parent_set-WellFormed =
      on-WellFormed child_set q (λ c. finalized (closed c)) (λ c. refl)
        (on-WellFormed s r finalized (λ c. refl) h)

  last_rises :
      (x : ℕ) → d.path_parent ≡ some x → d.active_children ≡ 1 → Closes s r q d.active_children
  unfolding mark_child_final child_set parent_set
  last_rises x g one =
      let o =
        mark_child_final_Ok s.next x parent_set parent_set-WellFormed
          (omega (arith, h.up q x d eq g, h.fresh q d eq)) in
      none_left one o.state (rw (parent_at, fd, one, g, mark_child_final) o.returns)
        (λ j le. o.later j (omega (arith, h.up q x d eq g, le)))

  last_stops : d.path_parent ≡ none → d.active_children ≡ 1 → Closes s r q d.active_children
  unfolding mark_child_final child_set parent_set
  last_stops g one =
      none_left one parent_set (rw (parent_at, fd, one, g, mark_child_final) refl) (λ j le. refl)

  -- In a well-formed execution, if the context `r` is not final, and its path parent `q` is not final
  -- and has pending children: `MarkFinal` on `r` returns, then `r` is final, `q` has one pending child
  -- less and is final exactly if it had one, and if it had more no other context has changed.
  pub mark_final_closes : Closes s r q d.active_children
  mark_final_closes = elim (nat_key.dec d.active_children 1) [
    | no ne ↦ some_left ne
    | yes one ↦ elim (Option-cases d.path_parent) [
      | inl g ↦ last_stops g one
      | inr (x, g) ↦ last_rises x g one
    ]
  ]
