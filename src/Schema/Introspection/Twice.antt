-- ===== src/Schema/Introspection/Twice.antt =====
-- A second `ApplyIntrospection` on the same schema.
use magellan.Base.{
  ℕ, String, ◌≡◌, refl, ap, sym, ◌∙◌, Bool, true, Option, none, some, List, [], ◌∷◌, ◌++◌, lookup,
  insert, delete, lookup-insert, string_key, nat_key, is_some, Bool-cases, Option-cases, inl, inr,
  arith,
}
use magellan.Ast.{
  FieldDefinition, ObjectDefinition, Definition, object, schema, union, enum, scalar, interface,
  input_object, operation_definition, fragment_definition, other,
}
use magellan.Schema.{AstParts, apply, apply_one}
use magellan.Schema.Introspection.{
  Schema, schema_field, has_schema_field, with_schema_field, add_primitives, add_system, on_root,
  apply_introspection,
}

abbrev named_at : String → AstParts → Bool
named_at n pts = is_some (lookup n pts.all_named)

apply_one-named :
    (at_address : ℕ → Option Definition) (n name : String) (a : ℕ) (pts : AstParts)
    → (apply_one at_address name a pts).all_named ≡ insert name a pts.all_named
unfolding apply_one
apply_one-named at_address n name a pts = ground arith

apply_one-root :
    (at_address : ℕ → Option Definition) (name : String) (a : ℕ) (pts : AstParts)
    → (apply_one at_address name a pts).root_query ≡ pts.root_query
unfolding apply_one
apply_one-root at_address name a pts = ground arith

apply-root :
    (at_address : ℕ → Option Definition) (xs : List (String × ℕ)) (pts : AstParts)
    → (apply at_address xs pts).root_query ≡ pts.root_query
unfolding apply
apply-root at_address [] pts = refl
apply-root at_address ((name, a) ∷ xs) pts =
    apply-root at_address xs (apply_one at_address name a pts)
    ∙ apply_one-root at_address name a pts

-- A name stays, and the names of the list are added.
apply-keeps :
    (at_address : ℕ → Option Definition) (n : String) (xs : List (String × ℕ)) (pts : AstParts)
    → named_at n pts ≡ true
    → named_at n (apply at_address xs pts) ≡ true
unfolding apply
apply-keeps at_address n [] pts h = h
apply-keeps at_address n ((name, a) ∷ xs) pts h =
    apply-keeps at_address n xs (apply_one at_address name a pts)
      (rw (apply_one-named at_address n name a pts) (grind (arith, lookup-insert)))

apply-adds :
    (at_address : ℕ → Option Definition) (n : String) (xs : List (String × ℕ)) (pts : AstParts)
    → is_some (lookup n xs) ≡ true
    → named_at n (apply at_address xs pts) ≡ true
unfolding apply lookup
apply-adds at_address n [] pts h = cc h
apply-adds at_address n ((name, a) ∷ xs) pts h = elim (string_key.dec name n) [
  | yes e ↦
      apply-keeps at_address n xs (apply_one at_address name a pts)
        (rw (apply_one-named at_address n name a pts) (grind (arith, lookup-insert)))
  | no e ↦ apply-adds at_address n xs (apply_one at_address name a pts) (grind arith)
]

add_primitives-root :
    (xs : List (String × ℕ)) (pts : AstParts) → (add_primitives xs pts).root_query ≡ pts.root_query
unfolding add_primitives
add_primitives-root [] pts = refl
add_primitives-root ((name, a) ∷ xs) pts = add_primitives-root xs _

has_schema_field-append :
    (fs : List FieldDefinition) → has_schema_field (fs ++ schema_field ∷ []) ≡ true
unfolding has_schema_field
has_schema_field-append [] = refl
has_schema_field-append (f ∷ fs) = grind (arith, has_schema_field-append fs)

has-with_schema_field :
    (o : ObjectDefinition) → has_schema_field (with_schema_field o).fields ≡ true
unfolding with_schema_field
has-with_schema_field o = elim (Bool-cases (has_schema_field o.fields)) [
  | inl e ↦ rw (e, with_schema_field) e
  | inr e ↦ rw (e, with_schema_field) (has_schema_field-append o.fields)
]

schema_field_kept :
    (o : ObjectDefinition) → has_schema_field o.fields ≡ true → with_schema_field o ≡ o
unfolding with_schema_field
schema_field_kept o e = rw (e, with_schema_field) refl

with_schema_field_twice :
    (o : ObjectDefinition) → with_schema_field (with_schema_field o) ≡ with_schema_field o
with_schema_field_twice o = schema_field_kept (with_schema_field o) (has-with_schema_field o)

delete_twice : (k : ℕ) (m : List (ℕ × Definition)) → delete k (delete k m) ≡ delete k m
unfolding delete
delete_twice k [] = refl
delete_twice k ((j, v) ∷ m) = ground (arith, delete_twice k m)

insert_twice :
    (k : ℕ) (v : Definition) (m : List (ℕ × Definition)) → insert k v (insert k v m) ≡ insert k v m
unfolding insert delete
insert_twice k v m = ap (λ xs. (k, v) ∷ xs) (grind (arith, delete_twice k m))

inserted : (k : ℕ) (v : Definition) (m : List (ℕ × Definition)) → lookup k (insert k v m) ≡ some v
inserted k v m = grind (arith, lookup-insert)

schema_ext :
    {p q : AstParts} {h k : List (ℕ × Definition)}
    → p ≡ q
    → h ≡ k
    → ◌≡◌ {A = Schema} (record { parts = p; heap = h }) (record { parts = q; heap = k })
schema_ext e f = cc (e, f)

module _ (primitives system : List (String × ℕ))
    (declared : is_some (lookup "__Schema" system) ≡ true) where
  add_system-root :
      (heap : List (ℕ × Definition)) (pts : AstParts)
      → (add_system primitives system heap pts).root_query ≡ pts.root_query
  unfolding add_system
  add_system-root heap pts = elim (Bool-cases (named_at "__Schema" pts)) [
    | inl e ↦ rw (e, add_system) refl
    | inr e ↦
        rw (e, add_system)
          (apply-root (λ a. lookup a heap) system (add_primitives primitives pts)
            ∙ add_primitives-root primitives pts)
  ]

  add_system-named :
      (heap : List (ℕ × Definition)) (pts : AstParts)
      → named_at "__Schema" (add_system primitives system heap pts) ≡ true
  unfolding add_system
  add_system-named heap pts = elim (Bool-cases (named_at "__Schema" pts)) [
    | inl e ↦ rw (e, add_system) e
    | inr e ↦
        rw (e, add_system)
          (apply-adds (λ a. lookup a heap) "__Schema" system (add_primitives primitives pts)
            declared)
  ]

  add_system_again :
      (heap : List (ℕ × Definition)) (pts : AstParts)
      → named_at "__Schema" pts ≡ true
      → add_system primitives system heap pts ≡ pts
  unfolding add_system
  add_system_again heap pts e = rw (e, add_system) refl

  abbrev from : Schema → Option ℕ → Schema
  from s root = elim root [ none ↦ s | some a ↦ on_root primitives system s a (lookup a s.heap) ]

  applies :
      (s : Schema) (a : ℕ) (def : Option Definition)
      → s.parts.root_query ≡ some a
      → lookup a s.heap ≡ def
      → apply_introspection primitives system s ≡ on_root primitives system s a def
  unfolding apply_introspection
  applies s a def e f = ap (from s) e ∙ ap (on_root primitives system s a) f

  on_root_twice :
      (s : Schema) (a : ℕ) (o : ObjectDefinition)
      → s.parts.root_query ≡ some a
      → apply_introspection primitives system (on_root primitives system s a (some (object o)))
        ≡ on_root primitives system s a (some (object o))
  unfolding on_root
  on_root_twice s a o e =
      let heap = insert a (object (with_schema_field o)) s.heap in
      let once = on_root primitives system s a (some (object o)) in
      applies once a (some (object (with_schema_field o))) (add_system-root heap s.parts ∙ e)
        (inserted a (object (with_schema_field o)) s.heap)
      ∙ schema_ext (add_system_again _ once.parts (add_system-named heap s.parts)) (
          ap (λ x. insert a (object x) heap) (with_schema_field_twice o)
          ∙ insert_twice a (object (with_schema_field o)) s.heap)

  no_root : (s : Schema) → s.parts.root_query ≡ none → apply_introspection primitives system s ≡ s
  unfolding apply_introspection
  no_root s e = ap (from s) e

  settles :
      (s : Schema)
      → apply_introspection primitives system s ≡ s
      → apply_introspection primitives system (apply_introspection primitives system s)
        ≡ apply_introspection primitives system s
  settles s e = ap (apply_introspection primitives system) e

  twice_at :
      (s : Schema) (a : ℕ)
      → s.parts.root_query ≡ some a
      → (def : Option Definition) → lookup a s.heap ≡ def
      → apply_introspection primitives system (apply_introspection primitives system s)
        ≡ apply_introspection primitives system s
  unfolding on_root
  twice_at s a e none f = settles s (applies s a none e f)
  twice_at s a e (some (schema ops)) f = settles s (applies s a _ e f)
  twice_at s a e (some (union n)) f = settles s (applies s a _ e f)
  twice_at s a e (some (object o)) f =
      let r = applies s a (some (object o)) e f in
      ap (apply_introspection primitives system) r ∙ on_root_twice s a o e ∙ sym r
  twice_at s a e (some (enum n vs)) f = settles s (applies s a _ e f)
  twice_at s a e (some (scalar n)) f = settles s (applies s a _ e f)
  twice_at s a e (some (interface n)) f = settles s (applies s a _ e f)
  twice_at s a e (some (input_object n)) f = settles s (applies s a _ e f)
  twice_at s a e (some (operation_definition n)) f = settles s (applies s a _ e f)
  twice_at s a e (some (fragment_definition n)) f = settles s (applies s a _ e f)
  twice_at s a e (some other) f = settles s (applies s a _ e f)

  -- If the introspection document defines `__Schema`: on every schema, `ApplyIntrospection` twice is
  -- `ApplyIntrospection` once.
  pub apply_introspection_twice :
      (s : Schema)
      → apply_introspection primitives system (apply_introspection primitives system s)
        ≡ apply_introspection primitives system s
  apply_introspection_twice s = elim (Option-cases s.parts.root_query) [
    | inl e ↦ settles s (no_root s e)
    | inr (a, e) ↦ twice_at s a e (lookup a s.heap) refl
  ]
