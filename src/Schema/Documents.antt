-- ===== src/Schema/Documents.antt =====
-- Which definitions of a document the types of schema/ast.go are.
use magellan.Base.{
  ℕ, String, ◌≡◌, refl, ap, ◌∙◌, Bool, true, false, Option, none, some, List, [], ◌∷◌, lookup,
  lookup-insert, lookup-nil, string_key, if◌then◌else◌, arith,
}
use text.Mathlib.Text.{◌==◌ as str_eq}
use magellan.Ast.{
  Definition, schema, union, object, enum, scalar, interface, input_object, operation_definition,
  fragment_definition, other,
}
use magellan.Schema.{
  AstParts, empty_parts, name_of, classify, add_union, add_object, add_enum, add_operations,
  add_named, add_definitions, document_to_parts,
}

-- The name under which a definition is one of the document's types: that of a union, an object or an
-- enum, if it is not empty.
abbrev pub type_name : Definition → Option String
type_name (union name) = name
type_name (object o) = o.name
type_name (enum name values) = name
type_name _ = none

-- Whether a definition is the type `name`.
abbrev pub defines : String → Definition → Bool
defines name def = elim (type_name def) [
  | none ↦ false
  | some n ↦
      if str_eq n "" then false else elim (string_key.dec n name) [ no _ ↦ false | yes _ ↦ true ]
]

-- The last of a document's definitions that is the type `name`.
abbrev pub last_type : String → List (ℕ × Definition) → Option ℕ → Option ℕ
last_type name [] found = found
last_type name ((a, def) ∷ defs) found =
    last_type name defs (if defines name def then some a else found)

classify-types :
    (name : String) (a : ℕ) (def : Definition) (pts : AstParts)
    → lookup name (add_named a def (classify a def pts)).types
      ≡ (if defines name def then some a else lookup name pts.types)
unfolding add_named name_of classify add_union add_object add_enum add_operations
classify-types name a (schema ops) pts = refl
classify-types name a (union none) pts = refl
classify-types name a (union (some n)) pts = grind (arith, lookup-insert)
classify-types name a (object o) pts = grind (arith, lookup-insert)
classify-types name a (enum none values) pts = refl
classify-types name a (enum (some n) values) pts = grind (arith, lookup-insert)
classify-types name a (scalar none) pts = refl
classify-types name a (scalar (some n)) pts = refl
classify-types name a (interface none) pts = refl
classify-types name a (interface (some n)) pts = refl
classify-types name a (input_object none) pts = refl
classify-types name a (input_object (some n)) pts = refl
classify-types name a (operation_definition none) pts = refl
classify-types name a (operation_definition (some n)) pts = refl
classify-types name a (fragment_definition none) pts = refl
classify-types name a (fragment_definition (some n)) pts = refl
classify-types name a other pts = refl

add_definitions-types :
    (name : String) (defs : List (ℕ × Definition)) (pts : AstParts)
    → lookup name (add_definitions defs pts).types ≡ last_type name defs (lookup name pts.types)
unfolding add_definitions
add_definitions-types name [] pts = refl
add_definitions-types name ((a, def) ∷ defs) pts =
    add_definitions-types name defs (add_named a def (classify a def pts))
    ∙ ap (last_type name defs) (classify-types name a def pts)

-- A name is a type of a document's parts exactly if one of the document's unions, objects and enums
-- has that name and it is not empty, and the type is the last of those.
pub document_types :
    (doc : List (ℕ × Definition)) (name : String)
    → lookup name (document_to_parts doc).types ≡ last_type name doc none
unfolding document_to_parts
document_types doc name =
    add_definitions-types name doc empty_parts ∙ ap (last_type name doc) (lookup-nil name)
