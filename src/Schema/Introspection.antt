-- ===== src/Schema/Introspection.antt =====
-- `ApplyIntrospection` of schema/ast.go. The definitions are a heap by address. `primitives` is
-- `GraphQLPrimitivesAST` of types/primitive.go, `system` the named nodes of the introspection
-- document, both by name.
pub mod Twice
use magellan.Base.{
  ℕ, String, Bool, true, false, ◌||◌, Option, none, some, List, [], ◌∷◌, ◌++◌, lookup, insert,
  string_key, nat_key, is_some, if◌then◌else◌,
}
use text.Mathlib.Text.{◌==◌ as str_eq}
use magellan.Ast.{named, FieldDefinition, ObjectDefinition, Definition, object}
use magellan.Schema.{AstParts, apply}

pub record Schema : Type 0 where
  pub parts : AstParts
  pub heap : List (ℕ × Definition)

abbrev pub schema_field : FieldDefinition
schema_field = record { name = some "__schema"; type = named (some "__Schema"); arguments = [] }

is_schema_field : Option String → Bool
is_schema_field none = false
is_schema_field (some name) = str_eq name "__schema"

unfoldable pub has_schema_field : List FieldDefinition → Bool
unfolding is_schema_field
has_schema_field [] = false
has_schema_field (f ∷ fs) = is_schema_field f.name || has_schema_field fs

-- The append of the field to the root query.
unfoldable pub with_schema_field : ObjectDefinition → ObjectDefinition
unfolding has_schema_field
with_schema_field o =
    if has_schema_field o.fields then o else record o { fields = o.fields ++ schema_field ∷ [] }

unfoldable pub add_primitives : List (String × ℕ) → AstParts → AstParts
add_primitives [] pts = pts
add_primitives ((name, a) ∷ prims) pts =
    add_primitives prims
      (record pts { all_named = insert name a pts.all_named; types = insert name a pts.types })

unfoldable pub add_system :
    List (String × ℕ) → List (String × ℕ) → List (ℕ × Definition) → AstParts → AstParts
unfolding add_primitives
add_system primitives system heap pts =
    if is_some (lookup "__Schema" pts.all_named)
    then pts
    else apply (λ a. lookup a heap) system (add_primitives primitives pts)

-- What follows once the root query is the object `o` at `a`.
unfoldable pub on_root :
    List (String × ℕ) → List (String × ℕ) → Schema → ℕ → Option Definition → Schema
unfolding with_schema_field add_system
on_root primitives system s a (some (object o)) =
    let heap = insert a (object (with_schema_field o)) s.heap in
    record { parts = add_system primitives system heap s.parts; heap = heap }
on_root primitives system s a _ = s

unfoldable pub apply_introspection : List (String × ℕ) → List (String × ℕ) → Schema → Schema
unfolding on_root
apply_introspection primitives system s = elim s.parts.root_query [
  | none ↦ s
  | some a ↦ on_root primitives system s a (lookup a s.heap)
]
