-- ===== src/Introspect/Wrappers.antt =====
-- Which types the resolvers of introspect/introspect.go lead to.
use magellan.Base.{
  ℕ, ◌≡◌, refl, ap, ◌↔◌, String, none, some, Option-cases, inl, inr, List, [], ◌∷◌, map, get_elem?,
  codes, trim_suffix, arith,
}
use magellan.Ast.{TypeRef, definition}
use magellan.Introspect.{
  AstLookup, TypeResolver, type_resolver, SchemaResolver, ObjectResolver, FieldResolver,
  InputValueResolver, object_type, query_type, mutation_type, subscription_type, schema_types,
}
use magellan.Introspect.TypeFields.{kind, name, interfaces, possible_types, of_type}
use magellan.Introspect.Field.{field_type, input_value_type}

-- The types that a client can reach, but for those of input values.
pub data Reached (l : AstLookup) : TypeResolver → Type 0 where
  of_object : (o : ObjectResolver) → Reached l (object_type o)
  of_query : (s : SchemaResolver) (r : TypeResolver) → query_type s ≡ some r → Reached l r
  of_mutation : (s : SchemaResolver) (r : TypeResolver) → mutation_type s ≡ some r → Reached l r
  of_subscription :
      (s : SchemaResolver) (r : TypeResolver) → subscription_type s ≡ some r → Reached l r
  of_schema :
      (s : SchemaResolver) (i : ℕ) (r : TypeResolver)
      → get_elem? (schema_types s) i ≡ some r
      → Reached l r
  of_field : (f : FieldResolver) (r : TypeResolver) → field_type l f ≡ some r → Reached l r
  of_element :
      (r : TypeResolver) (s : TypeResolver) → Reached l r → of_type l r ≡ some s → Reached l s
  of_interfaces :
      (r : TypeResolver) (i : ℕ) (s : TypeResolver)
      → get_elem? (interfaces r) i ≡ some s
      → Reached l s
  of_possible :
      (r : TypeResolver) (i : ℕ) (s : TypeResolver)
      → get_elem? (possible_types r) i ≡ some s
      → Reached l s
  named : (r : TypeResolver) → Reached l r → Reached l (name l r).1

abbrev IsDefinition : TypeResolver → Type 0
IsDefinition r = (a : ℕ) × (r.ast ≡ definition a)

of_type-definition : (l : AstLookup) (r : TypeResolver) → IsDefinition r → of_type l r ≡ none
unfolding of_type
of_type-definition l r h = ground (arith, h.1)

map-IsDefinition :
    (types : List (String × ℕ)) (i : ℕ) (r : TypeResolver)
    → get_elem? (map (λ e. type_resolver (definition e.1)) types) i ≡ some r
    → IsDefinition r
map-IsDefinition [] i r e = absurd (cc e)
map-IsDefinition ((n, a) ∷ types) ℕ.zero r e = (a, ground (arith, e))
map-IsDefinition ((n, a) ∷ types) (ℕ.suc i) r e = map-IsDefinition types i r e

Reached-IsDefinition : (l : AstLookup) (r : TypeResolver) → Reached l r → IsDefinition r
unfolding object_type query_type mutation_type subscription_type schema_types field_type interfaces
    possible_types name
Reached-IsDefinition l _ (of_object o) = (o.ast, refl)
Reached-IsDefinition l _ (of_query s r e) = elim (Option-cases s.root_query) [
  | inl h ↦ absurd (ground (arith, e, h))
  | inr (a, h) ↦ (a, ground (arith, e, h))
]
Reached-IsDefinition l _ (of_mutation s r e) = absurd (cc e)
Reached-IsDefinition l _ (of_subscription s r e) = absurd (cc e)
Reached-IsDefinition l _ (of_schema s i r e) = map-IsDefinition s.named_types i r e
Reached-IsDefinition l _ (of_field f r e) = elim (Option-cases (l.lookup_type f.ast.type)) [
  | inl h ↦ absurd (ground (arith, e, h))
  | inr (a, h) ↦ (a, ground (arith, e, h))
]
Reached-IsDefinition l _ (of_element r s h e) =
    absurd (ground (arith, e, of_type-definition l r (Reached-IsDefinition l r h)))
Reached-IsDefinition l _ (of_interfaces r i s e) = absurd (cc e)
Reached-IsDefinition l _ (of_possible r i s e) = absurd (cc e)
Reached-IsDefinition l _ (named r h) =
    let (a, k) = Reached-IsDefinition l r h in (a, ground (arith, k))

-- A type that is reached is a definition, so that its kind does not panic and its `ofType` is empty:
-- no list and no non-null type is ever shown.
pub Reached-of_type :
    (l : AstLookup) (upper : ℕ → ℕ) (get_kind : TypeRef → List ℕ) (r : TypeResolver)
    → Reached l r
    → (of_type l r ≡ none) × ((k : List ℕ) × (kind upper get_kind r ≡ some k))
unfolding kind
Reached-of_type l upper get_kind r h =
    let (a, d) = Reached-IsDefinition l r h in
    (
      of_type-definition l r (a, d),
      (
        map upper (trim_suffix (get_kind (definition a)) (codes "Definition")),
        ap (λ n. kind upper get_kind (record r { ast = n })) d,
      ),
    )

-- The kind of an input value's type panics exactly if the lookup finds no type, where the type of a
-- field is left out.
pub input_value_type-panics :
    (l : AstLookup) (upper : ℕ → ℕ) (get_kind : TypeRef → List ℕ) (r : InputValueResolver)
    (f : FieldResolver)
    → f.ast.type ≡ r.ast.type
    → (kind upper get_kind (input_value_type l r) ≡ none) ↔ (field_type l f ≡ none)
unfolding kind input_value_type field_type
input_value_type-panics l upper get_kind r f e = elim (Option-cases (l.lookup_type r.ast.type)) [
  | inl h ↦ ground (arith, e, h)
  | inr (a, h) ↦ ground (arith, e, h)
]
