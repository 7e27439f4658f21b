-- ===== src/Qtree/VarStore/Invariant.antt =====
-- The store stays well formed, and a reference that is held keeps its variable.
use magellan.Base.{
  ℕ, suc, ◌+◌, ◌^◌, ◌<◌, ◌≤◌, ◌≡◌, true, false, Option, none, some, List, [], lookup, arith,
  nat_key, IsMap, insert-IsMap, retain-IsMap, lookup-retain, when, delete, insert, Bool, Bool-cases,
  Option-cases, inl, inr, lookup-nil, lookup-insert, lookup-delete,
}
use magellan.Qtree.VarStore.{
  Variable, VariableReference, VariableStore, AstVariable, new_variable, put_at, put,
  has_references, add_reference, get, unsubscribe, is_used, garbage_collect, new_variable_store,
}

-- The parts of the variable at an address.
abbrev pub refs_of : List (ℕ × Variable) → ℕ → List (ℕ × ℕ)
refs_of vars p = elim (lookup p vars) [ none ↦ [] | some v ↦ v.references ]

abbrev pub ctr_of : List (ℕ × Variable) → ℕ → ℕ
ctr_of vars p = elim (lookup p vars) [ none ↦ 0 | some v ↦ v.reference_ctr ]

abbrev pub id_of : List (ℕ × Variable) → ℕ → Option ℕ
id_of vars p = elim (lookup p vars) [ none ↦ none | some v ↦ some v.id ]

abbrev pub status : List (ℕ × VariableReference) → ℕ → Option (ℕ × ℕ × Bool)
status refs r = elim (lookup r refs) [ none ↦ none | some vr ↦ some (vr.vb, vr.ref_id, vr.is_done) ]

pub record IsValid (vs : VariableStore) : Type 0 where
  pub is_map : IsMap vs.variables
  pub fresh_vars : (p : ℕ) (v : Variable) → lookup p vs.vars ≡ some v → p < vs.next
  pub fresh_refs : (r : ℕ) (vr : VariableReference) → lookup r vs.refs ≡ some vr → r < vs.next
  pub stored : (id p : ℕ) → lookup id vs.variables ≡ some p → id_of vs.vars p ≡ some id
  pub counted : (p i r : ℕ) → lookup i (refs_of vs.vars p) ≡ some r → i ≤ ctr_of vs.vars p
  -- What is registered with a variable is a live reference to it.
  pub registered :
      (p i r : ℕ) → lookup i (refs_of vs.vars p) ≡ some r → status vs.refs r ≡ some (p, i, false)
  -- A live reference is registered with its variable, and the variable with the store.
  pub live :
      (r : ℕ) (vr : VariableReference)
      → lookup r vs.refs ≡ some vr
      → vr.is_done ≡ false
      → (lookup vr.ref_id (refs_of vs.vars vr.vb) ≡ some r)
        × (lookup vr.id vs.variables ≡ some vr.vb)

put_at-IsValid :
    (vs : VariableStore) (varb : AstVariable) (p : ℕ) (vb : Variable)
    → IsValid vs
    → lookup p vs.vars ≡ some vb
    → lookup varb.id vs.variables ≡ some p
    → IsValid (put_at vs varb p vb)
unfolding put_at
put_at-IsValid vs varb p vb h e f = record {
  is_map = insert-IsMap varb.id p vs.variables h.is_map;
  fresh_vars = λ q v g. grind (arith, lookup-insert, h.fresh_vars);
  fresh_refs = h.fresh_refs;
  stored = λ id q g. grind (arith, lookup-insert, h.stored id q, h.stored varb.id p);
  counted = λ q i r g. grind (arith, lookup-insert, h.counted q i r);
  registered = λ q i r g. grind (arith, lookup-insert, h.registered q i r, h.registered p i r);
  live = λ r vr g d. grind (arith, lookup-insert, h.live r vr);
}

pub new_variable_store-IsValid : IsValid new_variable_store
unfolding new_variable_store
new_variable_store-IsValid = record {
  is_map = tt;
  fresh_vars = λ p v g. grind (arith, lookup-nil);
  fresh_refs = λ r vr g. grind (arith, lookup-nil);
  stored = λ id p g. grind (arith, lookup-nil);
  counted = λ p i r g. grind (arith, lookup-nil);
  registered = λ p i r g. grind (arith, lookup-nil);
  live = λ r vr g d. grind (arith, lookup-nil);
}

-- The state between the allocation of a variable and the write of its value.
module _ (vs : VariableStore) (varb : AstVariable) (h : IsValid vs) where
  put_new-IsValid :
      lookup varb.id vs.variables ≡ none
      → IsValid (put_at (record vs { next = suc vs.next }) varb vs.next (new_variable varb.id))
  unfolding put_at new_variable
  put_new-IsValid e = record {
    is_map = insert-IsMap varb.id vs.next vs.variables h.is_map;
    fresh_vars = λ q v g. grind (arith, lookup-insert, h.fresh_vars);
    fresh_refs = λ r vr g. grind (arith, h.fresh_refs);
    stored = λ id q g. grind (arith, lookup-insert, h.stored id q, h.fresh_vars);
    counted = λ q i r g. grind (arith, lookup-insert, lookup-nil, h.counted q i r);
    registered = λ q i r g. grind (arith, lookup-insert, lookup-nil, h.registered q i r);
    live =
        λ r vr g d. grind (arith, lookup-insert, h.live r vr, h.stored vr.id vr.vb, h.fresh_vars);
  }

  pub put-IsValid : IsValid (put vs varb)
  unfolding put
  put-IsValid = elim (Option-cases (lookup varb.id vs.variables)) [
    | inl e ↦ rw (e, put) (put_new-IsValid e)
    | inr (p, e) ↦ elim (Option-cases (lookup p vs.vars)) [
      | inl f ↦ rw (e, put, f) h
      | inr (vb, f) ↦ rw (e, put, f) (put_at-IsValid vs varb p vb h f e)
    ]
  ]

module _ (vs : VariableStore) (h : IsValid vs) where
  add_reference-IsValid :
      (p : ℕ) (v : Variable)
      → lookup p vs.vars ≡ some v
      → lookup v.id vs.variables ≡ some p
      → v.reference_ctr + 1 < 2 ^ 32
      → IsValid (add_reference vs p v).0
  unfolding add_reference
  add_reference-IsValid p v e f small = record {
    is_map = h.is_map;
    fresh_vars = λ q w g. grind (arith, lookup-insert, h.fresh_vars);
    fresh_refs = λ r vr g. grind (arith, lookup-insert, h.fresh_refs);
    stored = λ id q g. grind (arith, lookup-insert, h.stored id q);
    counted = λ q i r g. grind (arith, lookup-insert, h.counted q i r);
    registered = λ q i r g.
        grind (arith, lookup-insert, h.registered q i r, h.registered p i r, h.fresh_refs r);
    live = λ r vr g d. grind (arith, lookup-insert, h.live r vr, h.counted vr.vb vr.ref_id r);
  }

  pub get-IsValid : (id : ℕ) → ((p : ℕ) → ctr_of vs.vars p + 1 < 2 ^ 32) → IsValid (get vs id).0
  unfolding get
  get-IsValid id small = elim (Option-cases (lookup id vs.variables)) [
    | inl e ↦ rw (e, get) h
    | inr (p, e) ↦ elim (Option-cases (lookup p vs.vars)) [
      | inl f ↦ rw (e, get, f) h
      | inr (v, f) ↦
          rw (e, get, f)
            (add_reference-IsValid p v f (grind (arith, h.stored id p)) (ground (arith, small p)))
    ]
  ]

  -- The state after the flag is set and the reference leaves its variable.
  unsubscribe_live :
      (r : ℕ) (vr : VariableReference) (v : Variable)
      → lookup r vs.refs ≡ some vr
      → vr.is_done ≡ false
      → lookup vr.vb vs.vars ≡ some v
      → IsValid (record vs {
        refs = insert r (record vr { is_done = true }) vs.refs;
        vars = insert vr.vb (record v { references = delete vr.ref_id v.references }) vs.vars;
      })
  unsubscribe_live r vr v e d f = record {
    is_map = h.is_map;
    fresh_vars = λ q w g. grind (arith, lookup-insert, h.fresh_vars);
    fresh_refs = λ s vs' g. grind (arith, lookup-insert, h.fresh_refs);
    stored = λ id q g. grind (arith, lookup-insert, h.stored id q);
    counted = λ q i s g. grind (arith, lookup-insert, lookup-delete, h.counted q i s);
    registered = λ q i s g.
        grind (arith, lookup-insert, lookup-delete, h.registered q i s, h.registered vr.vb i s);
    live = λ s w g c. grind (arith, lookup-insert, lookup-delete, h.live s w, h.live r vr);
  }

  pub unsubscribe-IsValid : (r : ℕ) → IsValid (unsubscribe vs r)
  unfolding unsubscribe
  unsubscribe-IsValid r = elim (Option-cases (lookup r vs.refs)) [
    | inl e ↦ rw (e, unsubscribe) h
    | inr (vr, e) ↦ elim (Bool-cases vr.is_done) [
      | inl d ↦ rw (e, unsubscribe, d) h
      | inr d ↦ elim (Option-cases (lookup vr.vb vs.vars)) [
        | inl f ↦ rw (e, unsubscribe, d, f) h
        | inr (v, f) ↦ rw (e, unsubscribe, d, f) (unsubscribe_live r vr v e d f)
      ]
    ]
  ]

  pub lookup-garbage_collect :
      (id : ℕ)
      → lookup id (garbage_collect vs).variables ≡ when (is_used vs) (lookup id vs.variables)
  unfolding garbage_collect
  lookup-garbage_collect id = lookup-retain (is_used vs) id vs.variables h.is_map

  is_used_of_live : (r i p : ℕ) → lookup i (refs_of vs.vars p) ≡ some r → is_used vs p ≡ true
  unfolding is_used has_references
  is_used_of_live r i p e = grind (arith, lookup-nil)

  pub garbage_collect-IsValid : IsValid (garbage_collect vs)
  unfolding garbage_collect
  garbage_collect-IsValid = record {
    is_map = retain-IsMap (is_used vs) vs.variables h.is_map;
    fresh_vars = h.fresh_vars;
    fresh_refs = h.fresh_refs;
    stored = λ id q g. grind (arith, lookup-garbage_collect id, h.stored id q);
    counted = h.counted;
    registered = h.registered;
    live = λ r vr g d.
        grind (arith, lookup-garbage_collect vr.id, h.live r vr, is_used_of_live r vr.ref_id vr.vb);
  }
