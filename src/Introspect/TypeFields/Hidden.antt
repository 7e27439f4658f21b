-- ===== src/Introspect/TypeFields/Hidden.antt =====
-- The fields that introspection hides (introspect/introspect.go) are those that `ApplyIntrospection` of
-- schema/ast.go adds.
use mathlib.Core.Path.{subst}
use magellan.Base.{
  ℕ, ◌≡◌, refl, String, false, Bool-cases, Option-cases, Option, none, some, inl, inr, List, [],
  ◌∷◌, ◌++◌, All, lookup, nat_key, has_prefix, lookup-insert, arith,
}
use magellan.Ast.{definition, FieldDefinition, ObjectDefinition, Definition, object}
use magellan.Schema.{lookup_type}
use magellan.Schema.Introspection.{
  Schema, schema_field, with_schema_field, on_root, apply_introspection,
}
use magellan.Introspect.{AstLookup, TypeResolver, type_resolver, FieldResolver}
use magellan.Introspect.Field.{field_name}
use magellan.Introspect.TypeFields.{definition_of, is_hidden, field_resolvers, fields}

-- A schema's lookup.
abbrev pub lookup_of : Schema → AstLookup
lookup_of s = record { lookup_type = lookup_type s.parts; definition_at = λ a. lookup a s.heap }

field_resolvers-schema_field :
    (fs : List FieldDefinition) → field_resolvers (fs ++ schema_field ∷ []) ≡ field_resolvers fs
unfolding field_resolvers is_hidden has_prefix
field_resolvers-schema_field [] = refl
field_resolvers-schema_field (f ∷ fs) = ground (arith, field_resolvers-schema_field fs)

field_resolvers-with_schema_field :
    (o : ObjectDefinition) → field_resolvers (with_schema_field o).fields ≡ field_resolvers o.fields
unfolding with_schema_field
field_resolvers-with_schema_field o = ground (arith, field_resolvers-schema_field o.fields)

-- The fields of a definition.
abbrev shown : Option Definition → Option (List FieldResolver)
shown (some (object o)) = some (field_resolvers o.fields)
shown _ = none

on_root-fields :
    (primitives system : List (String × ℕ)) (s : Schema) (b a : ℕ) (d : Option Definition)
    → lookup b s.heap ≡ d
    → shown (lookup a (on_root primitives system s b d).heap) ≡ shown (lookup a s.heap)
unfolding on_root
on_root-fields primitives system s b a (some (object o)) e =
    let h = lookup-insert a b (object (with_schema_field o)) s.heap in
    ground (arith, e, h, field_resolvers-with_schema_field o)
on_root-fields primitives system s b a _ e = refl

-- Introspection does not show what it adds: at each address the type has the same fields, before and
-- after `apply_introspection`.
pub fields-apply_introspection :
    (primitives system : List (String × ℕ)) (s : Schema) (a : ℕ)
    → fields (lookup_of (apply_introspection primitives system s)) (type_resolver (definition a))
      ≡ fields (lookup_of s) (type_resolver (definition a))
unfolding apply_introspection fields
fields-apply_introspection primitives system s a = elim (Option-cases s.parts.root_query) [
  | inl e ↦ ground (arith, e)
  | inr (b, e) ↦ ground (arith, e, on_root-fields primitives system s b a (lookup b s.heap) refl)
]

-- A field that is shown has a name, and a visible one.
abbrev pub HasVisibleName : FieldResolver → Type 0
HasVisibleName r = (n : String) × (field_name r ≡ some n) × (is_hidden n ≡ false)

field_resolvers-HasVisibleName :
    (fs : List FieldDefinition) → All HasVisibleName (field_resolvers fs)
unfolding field_resolvers field_name
field_resolvers-HasVisibleName [] = tt
field_resolvers-HasVisibleName (f ∷ fs) =
    let rest = field_resolvers-HasVisibleName fs in
    elim (Option-cases f.name) [
      | inl e ↦ subst (All HasVisibleName) (ground (arith, e)) rest
      | inr (n, e) ↦ elim (Bool-cases (is_hidden n)) [
        | inl h ↦ subst (All HasVisibleName) (ground (arith, e, h)) rest
        | inr h ↦
            let shows : record { ast = f } ∷ field_resolvers fs ≡ field_resolvers (f ∷ fs) =
              ground (arith, e, h) in
            subst (All HasVisibleName) shows ((n, e, h), rest)
      ]
    ]

-- Each field that a type shows has a name, so that `Name` does not panic, and it is not hidden.
pub fields-HasVisibleName :
    (l : AstLookup) (r : TypeResolver) (rs : List FieldResolver)
    → fields l r ≡ some rs
    → All HasVisibleName rs
unfolding fields
fields-HasVisibleName l r rs e = elim (Option-cases (definition_of l r)) [
  | inl h ↦ absurd (ground (arith, e, h))
  | inr (d, h) ↦ of_definition d (ground (arith, e, h))
]
  where
    of_definition : (d : Definition) → shown (some d) ≡ some rs → All HasVisibleName rs
    of_definition (object o) k =
        let same : field_resolvers o.fields ≡ rs = cc k in
        subst (All HasVisibleName) same (field_resolvers-HasVisibleName o.fields)
    of_definition _ k = absurd (cc k)
