-- ===== src/Execution/Context/Virtual.antt =====
-- Contexts that `VirtualChild` makes (execution/resolver_ctx.go): where their fields are counted.
use magellan.Base.{
  ℕ, suc, ◌<◌, ◌≡◌, refl, true, false, Option, none, some, lookup, arith, ◌∙◌, ap, subst,
  lookup-modify, lookup-insert, nat_key,
}
use magellan.Execution.Context.{
  PathComponent, ResolverContext, Execution, opened, base_child, virtual_child, field_child,
  mark_final, new_child, path_parent_for,
}
use magellan.Execution.Context.Finality.{
  WellFormed, Ok, on-WellFormed, base_child-WellFormed, mark_final_Ok,
}
use magellan.Execution.Context.Counts.{Closes, mark_final_closes, final_of}

abbrev moved : ℕ → ResolverContext → ResolverContext
moved m c = record c { qnode = some m }

abbrev field_path : ℕ → PathComponent
field_path m = record { query_node_id = m; array_index = 0; pos_identifier = 0 }

module _ (s : Execution) (h : WellFormed s) (r : ℕ) (c : ResolverContext)
    (er : lookup r s.contexts ≡ some c) where
  known : r < s.next
  known = h.fresh r c er

  base_child_parent :
      (path : Option PathComponent) → lookup r (base_child s r path).contexts ≡ some (opened c)
  unfolding base_child
  base_child_parent path =
      rw (er, base_child) (grind (arith, lookup-modify, lookup-insert, er, known))

  base_child_new :
      (path : Option PathComponent)
      → lookup s.next (base_child s r path).contexts ≡ some (new_child r c path)
  unfolding base_child
  base_child_new path = rw (er, base_child) (grind (arith, lookup-modify, lookup-insert, known))

  base_child_other :
      (path : Option PathComponent) (j : ℕ)
      → j < s.next
      → ¬ (j ≡ r)
      → lookup j (base_child s r path).contexts ≡ lookup j s.contexts
  unfolding base_child
  base_child_other path j lt ne =
      rw (er, base_child) (grind (arith, lookup-modify, lookup-insert, lt, ne))

  base_child_next : (path : Option PathComponent) → (base_child s r path).next ≡ suc s.next
  unfolding base_child
  base_child_next path = rw (er, base_child) refl

-- A field `a` of `v`: an open field, counted at `v`, in a state that is as before elsewhere.
record Opens (s : Execution) (v : ℕ) (c : ResolverContext) (t : Execution) : Type 0 where
  valid : WellFormed t
  size : t.next ≡ suc s.next
  child :
      (x : ResolverContext) × (lookup s.next t.contexts ≡ some x)
      × (x.path_parent ≡ path_parent_for v c)
      × (x.is_final ≡ false)
  parent : lookup v t.contexts ≡ some (opened c)
  others : (j : ℕ) → j < s.next → ¬ (j ≡ v) → lookup j t.contexts ≡ lookup j s.contexts

field_child-Opens :
    (s : Execution)
    → WellFormed s
    → (v m : ℕ) (c : ResolverContext) → lookup v s.contexts ≡ some c
    → Opens s v c (field_child s v m m)
unfolding field_child new_child
field_child-Opens s h v m c ev = record {
  valid =
      on-WellFormed (base_child s v (some (field_path m))) s.next (moved m) (λ c. refl)
        (base_child-WellFormed s v (some (field_path m)) h);
  size = base_child_next s h v c ev (some (field_path m));
  child = (
    moved m (new_child v c (some (field_path m))),
    grind (arith, lookup-modify, base_child_new s h v c ev (some (field_path m))),
    refl,
    refl,
  );
  parent =
      grind (
        arith,
        lookup-modify,
        base_child_parent s h v c ev (some (field_path m)),
        known s h v c ev,
      );
  others = λ j lt ne.
      grind (arith, lookup-modify, base_child_other s h v c ev (some (field_path m)) j lt ne);
}

module _ (s : Execution) (h : WellFormed s) (r m n : ℕ) (c : ResolverContext) (path : PathComponent)
    (er : lookup r s.contexts ≡ some c) (ep : c.path_component ≡ some path)
    (ez : c.active_children ≡ 0) where
  abbrev virtual : ResolverContext
  virtual = new_child r c none

  virtual_parent : virtual.path_parent ≡ some r
  unfolding new_child
  virtual_parent = rw ep refl

  abbrev opened_virtual : Execution
  opened_virtual = virtual_child s r

  virtual-WellFormed : WellFormed opened_virtual
  unfolding virtual_child
  virtual-WellFormed = base_child-WellFormed s r none h

  virtual_at : lookup s.next opened_virtual.contexts ≡ some virtual
  unfolding virtual_child
  virtual_at = base_child_new s h r c er none

  counted_at : lookup r opened_virtual.contexts ≡ some (opened c)
  unfolding virtual_child
  counted_at = base_child_parent s h r c er none

  virtual_size : opened_virtual.next ≡ suc s.next
  unfolding virtual_child
  virtual_size = base_child_next s h r c er none

  abbrev one_field : Execution
  one_field = field_child opened_virtual s.next m m

  first : Opens opened_virtual s.next virtual one_field
  first = field_child-Opens opened_virtual virtual-WellFormed s.next m virtual virtual_at

  abbrev two_fields : Execution
  two_fields = field_child one_field s.next n n

  second : Opens one_field s.next (opened virtual) two_fields
  second = field_child-Opens one_field first.valid s.next n (opened virtual) first.parent

  first_at : lookup (suc s.next) two_fields.contexts ≡ some first.child.0
  first_at =
      second.others (suc s.next) (omega (arith, first.size, virtual_size)) (omega arith)
      ∙ grind (arith, virtual_size, first.child.1)

  second_at : lookup (suc (suc s.next)) two_fields.contexts ≡ some second.child.0
  second_at = grind (arith, virtual_size, first.size, second.child.1)

  still_counted : lookup r two_fields.contexts ≡ some (opened c)
  still_counted = grind (
    arith,
    virtual_size,
    first.size,
    known s h r c er,
    second.others r,
    first.others r,
    counted_at,
  )

  one_pending : (opened c).active_children ≡ 1
  one_pending = rw ez refl

  closes : Closes two_fields (suc s.next) r (opened c).active_children
  unfolding new_child
  closes =
      mark_final_closes two_fields second.valid (suc s.next) r first.child.0 (opened c) first_at
        still_counted (first.child.2 ∙ virtual_parent) first.child.3 refl
        (omega (arith, one_pending))

  ends : Ok two_fields (suc s.next) (mark_final two_fields (suc s.next))
  ends = mark_final_Ok two_fields (suc s.next) second.valid

  same_end : ends.state ≡ closes.state
  same_end = cc (ends.returns, closes.returns)

  pending_at : lookup (suc (suc s.next)) closes.state.contexts ≡ some second.child.0
  pending_at =
      subst (λ (x : Execution). lookup (suc (suc s.next)) x.contexts ≡ some second.child.0) same_end
        (ends.later (suc (suc s.next)) (omega arith) ∙ second_at)

  -- If `r` has a path and no pending children, then after `VirtualChild` on `r` and two calls of
  -- `FieldChild` on its result, `MarkFinal` on the first field returns, and in its result `r` is
  -- final while the second field is not.
  pub virtual_child_miscounts :
      (t : Execution) × (mark_final two_fields (suc s.next) ≡ some t)
      × (final_of (lookup r t.contexts) ≡ some true)
      × (final_of (lookup (suc (suc s.next)) t.contexts) ≡ some false)
  virtual_child_miscounts = (
    closes.state,
    closes.returns,
    closes.parent ∙ rw one_pending refl,
    ap final_of pending_at ∙ ap some second.child.3,
  )
