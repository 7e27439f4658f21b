-- ===== src/Qtree/VarStore/References.antt =====
-- What a query node can rely on: the reference that it holds, and the variable behind it.
use magellan.Base.{
  ℕ, ◌+◌, ◌^◌, ◌%◌, ◌<◌, ◌≡◌, refl, ◌↔◌, true, false, some, List, [], ◌∷◌, lookup, arith, nat_key,
  lookup-insert, is_some, Option-cases, inl, inr,
}
use mathlib.Core.Logic.{∥∥₁_elim}
use magellan.Qtree.VarStore.{
  Variable, VariableReference, VariableStore, AstVariable, new_variable, put_at, put, unpack_value,
  has_references, add_reference, get, unsubscribe, is_used, garbage_collect,
}
use magellan.Qtree.VarStore.Invariant.{
  IsValid, ctr_of, put-IsValid, get-IsValid, unsubscribe-IsValid, garbage_collect-IsValid,
  lookup-garbage_collect,
}

-- One call of the store's interface. A variable gives out fewer than 2 ^ 32 references.
pub data Step (vs : VariableStore) : VariableStore → Type 0 where
  puts : (varb : AstVariable) → Step vs (put vs varb)
  gets : (id : ℕ) → ((p : ℕ) → ctr_of vs.vars p + 1 < 2 ^ 32) → Step vs (get vs id).0
  unsubscribes : (r : ℕ) → Step vs (unsubscribe vs r)
  collects : Step vs (garbage_collect vs)

pub data Reach (vs : VariableStore) : VariableStore → Type 0 where
  here : Reach vs vs
  next : {ws xs : VariableStore} → Reach vs ws → Step ws xs → Reach vs xs

Step-IsValid : {vs ws : VariableStore} → Step vs ws → IsValid vs → IsValid ws
Step-IsValid {vs} (puts varb) h = put-IsValid vs varb h
Step-IsValid {vs} (gets id small) h = get-IsValid vs h id small
Step-IsValid {vs} (unsubscribes r) h = unsubscribe-IsValid vs h r
Step-IsValid {vs} collects h = garbage_collect-IsValid vs h

-- After any calls on a valid store, in each of which a variable gives out fewer than 2 ^ 32
-- references, the store is valid.
pub Reach-IsValid : {vs ws : VariableStore} → Reach vs ws → IsValid vs → IsValid ws
Reach-IsValid here h = h
Reach-IsValid (next r s) h = Step-IsValid s (Reach-IsValid r h)

-- A reference to the variable `id` that was not unsubscribed.
abbrev pub Held : VariableStore → ℕ → Type 0
Held vs id =
    (r : ℕ) × (vr : VariableReference) × (lookup r vs.refs ≡ some vr)
    × (vr.is_done ≡ false)
    × (vr.id ≡ id)

refs-put : (vs : VariableStore) (varb : AstVariable) → (put vs varb).refs ≡ vs.refs
unfolding put put_at
refs-put vs varb = ground arith

first_bound :
    (m : List (ℕ × ℕ))
    → elim m [ [] ↦ false | _ ↦ true ] ≡ true
    → (i : ℕ) × (r : ℕ) × (lookup i m ≡ some r)
unfolding lookup
first_bound [] h = cc
first_bound ((i, r) ∷ m) h = (i, r, ground arith)

module _ (vs : VariableStore) (h : IsValid vs) where
  used_live : (id p : ℕ) → lookup id vs.variables ≡ some p → is_used vs p ≡ true → Held vs id
  unfolding is_used has_references
  used_live id p e u = elim (Option-cases (lookup p vs.vars)) [
    | inl f ↦ absurd (ground arith)
    | inr (v, f) ↦
        let (i, r, b) = first_bound v.references (ground arith) in
        elim (Option-cases (lookup r vs.refs)) [
          | inl g ↦ absurd (ground (arith, h.registered p i r))
          | inr (vr, g) ↦ (
            r,
            vr,
            g,
            ground (arith, h.registered p i r),
            ground (arith, h.registered p i r, h.live r vr, h.stored id p, h.stored vr.id p),
          )
        ]
  ]

  -- After a collection of a valid store an id is bound exactly if a reference to it is held that was
  -- not unsubscribed.
  pub collect_iff :
      (id : ℕ) → (is_some (lookup id (garbage_collect vs).variables) ≡ true) ↔ ∥ Held vs id ∥₁
  unfolding garbage_collect
  collect_iff id = (kept, λ t. ∥∥₁_elim t (hlevel) held)
    where
      kept : is_some (lookup id (garbage_collect vs).variables) ≡ true → ∥ Held vs id ∥₁
      kept e = elim (Option-cases (lookup id vs.variables)) [
        | inl f ↦ absurd (ground (arith, lookup-garbage_collect vs h id))
        | inr (p, f) ↦ ∣ used_live id p f (ground (arith, lookup-garbage_collect vs h id)) ∣₁
      ]

      held : Held vs id → is_some (lookup id (garbage_collect vs).variables) ≡ true
      held (r, vr, e, d, f) = ground (arith, (garbage_collect-IsValid vs h).live r vr e d)

  bound_put :
      (varb : AstVariable)
      → (p : ℕ) × (v : Variable) × (lookup varb.id (put vs varb).variables ≡ some p)
        × (lookup p (put vs varb).vars ≡ some v)
        × (v.id ≡ varb.id)
        × (v.value ≡ unpack_value varb.value)
  unfolding put put_at new_variable
  bound_put varb = elim (Option-cases (lookup varb.id vs.variables)) [
    | inl e ↦ (
      vs.next,
      record (new_variable varb.id) { value = unpack_value varb.value },
      rw (e, put) (ground (arith, lookup-insert varb.id varb.id vs.next vs.variables)),
      rw (e, put) (grind (arith, lookup-insert)),
      refl,
      refl,
    )
    | inr (p, e) ↦ elim (Option-cases (lookup p vs.vars)) [
      | inl f ↦ absurd (ground (arith, h.stored varb.id p))
      | inr (vb, f) ↦ (
        p,
        record vb { value = unpack_value varb.value },
        rw (e, put, f) (ground (arith, lookup-insert varb.id varb.id p vs.variables)),
        rw (e, put, f) (grind (arith, lookup-insert)),
        ground (arith, h.stored varb.id p),
        refl,
      )
    ]
  ]

  -- In a valid store a write of a variable leaves the references as they are, and a reference that is
  -- taken after it is live and holds the id and the value that were written.
  pub get-put :
      (varb : AstVariable)
      → ((put vs varb).refs ≡ vs.refs)
        × ((r : ℕ) × (vr : VariableReference) × ((get (put vs varb) varb.id).1 ≡ some r)
            × (lookup r (get (put vs varb) varb.id).0.refs ≡ some vr)
            × (vr.id ≡ varb.id)
            × (vr.value ≡ unpack_value varb.value)
            × (vr.is_done ≡ false))
  unfolding get add_reference
  get-put varb =
      let (p, v, e, f, i, w) = bound_put varb in
      (
        refs-put vs varb,
        (
          (put vs varb).next,
          record {
            id = v.id;
            value = v.value;
            ref_id = (v.reference_ctr + 1) % 2 ^ 32;
            vb = p;
            is_done = false;
          },
          ground arith,
          rw (e, get, f) (grind (arith, lookup-insert)),
          i,
          w,
          refl,
        ),
      )
