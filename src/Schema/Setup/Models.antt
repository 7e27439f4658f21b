-- ===== src/Schema/Setup/Models.antt =====
-- What `SetResolvers` of schema/schema.go leaves.
use magellan.Base.{
  ℕ, ◌≡◌, ◌≢◌, refl, sym, ap, ◌∙◌, Bool, true, false, Option-cases, inl, inr, Option, none, some,
  List, [], ◌∷◌, nat_key, arith,
}
use magellan.Ast.Nodes.{Syntax}
use magellan.Execution.Reflect.{Reflect}
use magellan.Execution.Model.{Built, built, failed, unfinished, panicked}
use magellan.Execution.Model.Build.{Model, build_model}
use magellan.Execution.Model.Build.Complete.{build_model-IsComplete}
use magellan.Schema.Introspection
use magellan.Schema.Setup.{
  Schema, BuiltModel, Outcome, done, SetError, model_error, root_query_undefined,
  root_mutation_undefined, TreeError, no_root_query, no_root_mutation, tree_panics, named_object,
  set_model, set_query, set_mutation, set_both, set_resolvers, root_tree, build_query_tree,
}

-- A root that passes the check of `set_resolvers` is an object.
named_object-root_tree :
    (d : Introspection.Schema) (e : TreeError) (root : Option ℕ) (a : ℕ)
    → named_object d root ≡ some a
    → root_tree d e root ≢ tree_panics
unfolding named_object root_tree
named_object-root_tree d e none a h = absurd (cc h)
named_object-root_tree d e (some b) a h = ground arith

-- A half that succeeds has built a model for its type and its mode.
pub record Made (d : Introspection.Schema) (root : Option ℕ) (serial : Bool) (t : ℕ)
    (b : BuiltModel) : Type 0 where
  pub address : ℕ
  pub is_object : named_object d root ≡ some address
  pub type : b.model.root_resolver_type ≡ t
  pub serial_only : b.model.serial_only ≡ serial

set_model-done :
    (r : Reflect) (syn : Syntax) (fuel : ℕ) (d : Introspection.Schema) (root : Option ℕ)
    (serial : Bool) (u : SetError) (t : ℕ) (keep : BuiltModel → Schema) (s s' : Schema)
    → set_model r syn fuel d root serial u t keep s ≡ (done, s')
    → (b : BuiltModel) × Made d root serial t b × (keep b ≡ s')
unfolding set_model
set_model-done r syn fuel d root serial u t keep s s' h =
    elim (Option-cases (named_object d root)) [
      | inl e ↦ absurd (ground (arith, e, h))
      | inr (a, e) ↦ ended a e (build_model r syn fuel (some a) (some t) serial) refl (
          ap
            (λ x. elim x [
              | none ↦ (Outcome.failed u, s)
              | some a ↦ ending (build_model r syn fuel (some a) (some t) serial)
            ])
            (sym e)
          ∙ h)
    ]
  where
    ending : Built Model → Outcome × Schema
    ending x = elim x [
      | built m b ↦ (done, keep (record { model = m; builder = b }))
      | failed e ↦ (Outcome.failed (model_error e), s)
      | unfinished ↦ (Outcome.unfinished, s)
      | panicked ↦ (Outcome.panicked, s)
    ]

    ended :
        (a : ℕ)
        → named_object d root ≡ some a
        → (x : Built Model) → build_model r syn fuel (some a) (some t) serial ≡ x
        → ending x ≡ (done, s')
        → (b : BuiltModel) × Made d root serial t b × (keep b ≡ s')
    ended a e (built m b) k q =
        let c = build_model-IsComplete r syn fuel a t serial m b k in
        (
          record { model = m; builder = b },
          record { address = a; is_object = e; type = c.2; serial_only = c.3 },
          ap (λ x. x.1) q,
        )
    ended a e (failed x) k q = absurd (cc q)
    ended a e unfinished k q = absurd (cc q)
    ended a e panicked k q = absurd (cc q)

-- The schema's model of an operation, which has been built for the type `t`.
abbrev pub HasModel : Introspection.Schema → Option ℕ → Bool → ℕ → Option BuiltModel → Type 0
HasModel d root serial t m = (b : BuiltModel) × (m ≡ some b) × Made d root serial t b

mutation_half :
    (r : Reflect) (syn : Syntax) (fuel : ℕ) (d : Introspection.Schema) (tm : ℕ) (s s' : Schema)
    → set_mutation r syn fuel d (some tm) s ≡ (done, s')
    → HasModel d d.parts.root_mutation true tm s'.mutation_model
      × (s'.query_model ≡ s.query_model)
      × (s'.definitions ≡ s.definitions)
unfolding set_mutation
mutation_half r syn fuel d tm s s' h =
    let (b, made, k) =
      set_model-done r syn fuel d d.parts.root_mutation true root_mutation_undefined tm
        (λ m. record s { mutation_model = some m }) s s' h in
    (
      (b, ap (λ x. x.mutation_model) (sym k), made),
      ap (λ x. x.query_model) (sym k),
      ap (λ x. x.definitions) (sym k),
    )

halves :
    (r : Reflect) (syn : Syntax) (fuel : ℕ) (d : Introspection.Schema) (mutation : Option ℕ)
    (x : Outcome × Schema) (s' : Schema)
    → set_both r syn fuel d mutation x ≡ (done, s')
    → (s : Schema) × (x ≡ (done, s)) × (set_mutation r syn fuel d mutation s ≡ (done, s'))
unfolding set_both
halves r syn fuel d mutation (done, s) s' h = (s, refl, h)
halves r syn fuel d mutation (Outcome.unfinished, s) s' h = absurd (cc h)
halves r syn fuel d mutation (Outcome.panicked, s) s' h = absurd (cc h)
halves r syn fuel d mutation (Outcome.failed e, s) s' h = absurd (cc h)

-- If `set_resolvers` succeeds for two resolver objects, the schema has been parsed, and it has a model
-- of the query for the first one's type and a serial model of the mutation for the second one's, whose
-- roots are objects with names.
pub set_resolvers-HasModel :
    (r : Reflect) (syn : Syntax) (fuel : ℕ) (s s' : Schema) (tq tm : ℕ)
    → set_resolvers r syn fuel s (some tq) (some tm) ≡ (done, s')
    → (d : Introspection.Schema) × (s.definitions ≡ some d)
      × (s'.definitions ≡ some d)
      × HasModel d d.parts.root_query false tq s'.query_model
      × HasModel d d.parts.root_mutation true tm s'.mutation_model
unfolding set_resolvers set_query
set_resolvers-HasModel r syn fuel s s' tq tm h = elim (Option-cases s.definitions) [
  | inl e ↦ absurd (ground (arith, e, h))
  | inr (d, e) ↦ with_definitions d e (by_schemas d e d.parts.schemas refl)
]
  where
    by_schemas :
        (d : Introspection.Schema)
        → s.definitions ≡ some d
        → (l : List ℕ) → d.parts.schemas ≡ l
        → set_both r syn fuel d (some tm) (set_query r syn fuel d (some tq) s) ≡ (done, s')
    by_schemas d e [] q = absurd (ground (arith, e, h, q))
    by_schemas d e (x ∷ l) q = ground (arith, e, h, q)

    with_definitions :
        (d : Introspection.Schema)
        → s.definitions ≡ some d
        → set_both r syn fuel d (some tm) (set_query r syn fuel d (some tq) s) ≡ (done, s')
        → (d : Introspection.Schema) × (s.definitions ≡ some d)
          × (s'.definitions ≡ some d)
          × HasModel d d.parts.root_query false tq s'.query_model
          × HasModel d d.parts.root_mutation true tm s'.mutation_model
    with_definitions d e k =
        let (s1, q, m) = halves r syn fuel d (some tm) (set_query r syn fuel d (some tq) s) s' k in
        let (b, made, p) =
          set_model-done r syn fuel d d.parts.root_query false root_query_undefined tq
            (λ m. record s { query_model = some m }) s s1 q in
        let (has, query, defs) = mutation_half r syn fuel d tm s1 s' m in
        (
          d,
          e,
          defs ∙ ap (λ x. x.definitions) (sym p) ∙ e,
          (b, query ∙ ap (λ x. x.query_model) (sym p), made),
          has,
        )

-- The tree of an operation that has a model is built, or its root is missing.
pub query-builds :
    (s : Schema) (d : Introspection.Schema) (t : ℕ) (m : Option BuiltModel)
    → s.definitions ≡ some d
    → HasModel d d.parts.root_query false t m
    → build_query_tree s "query" ≢ tree_panics
unfolding build_query_tree
query-builds s d t m e (b, k, made) h =
    named_object-root_tree d no_root_query d.parts.root_query made.address made.is_object
      (ground (arith, e, h))

pub mutation-builds :
    (s : Schema) (d : Introspection.Schema) (t : ℕ) (m : Option BuiltModel)
    → s.definitions ≡ some d
    → HasModel d d.parts.root_mutation true t m
    → build_query_tree s "mutation" ≢ tree_panics
unfolding build_query_tree
mutation-builds s d t m e (b, k, made) h =
    named_object-root_tree d no_root_mutation d.parts.root_mutation made.address made.is_object
      (ground (arith, e, h))
