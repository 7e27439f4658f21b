-- ===== src/Tests/Names.antt =====
-- Titles (util/case.go) and documents (schema/ast.go).
use magellan.Base.{
  ℕ, ◌≡◌, refl, none, some, List, [], ◌∷◌, ◌++◌, lookup, insert, delete, string_key, ◌-◌,
}
use magellan.Ast.{Definition, object, enum, named, non_null, schema}
use magellan.Case.{to_pascal_case, pascal_from}
use magellan.Case.Words.{split, capitalize, capitalized, to_pascal_case_words}
use magellan.Schema.{
  document_to_parts, add_definitions, classify, add_named, name_of, add_operations, lookup_type,
}
use magellan.Schema.Introspection.{Schema, apply_introspection}
use magellan.Schema.Introspection.Twice.{apply_introspection_twice}
use magellan.Schema.Documents.{last_type, document_types}

program : Unit {0}
unfolding to_pascal_case pascal_from document_to_parts add_definitions classify add_named name_of
    add_operations lookup_type lookup insert delete string_key
program = tt

-- Lower-case letters only.
abbrev upper : ℕ → ℕ
upper r = r - 32

-- `ab_c` becomes `AbC`.
pascal : to_pascal_case upper (97 ∷ 98 ∷ 95 ∷ 99 ∷ []) ≡ 65 ∷ 98 ∷ 67 ∷ []
unfolding program
pascal = refl

to_pascal_case_words_example :
    to_pascal_case upper (97 ∷ 95 ∷ 99 ∷ [])
    ≡ capitalize upper (split (97 ∷ 95 ∷ 99 ∷ [])).0
      ++ capitalized upper (split (97 ∷ 95 ∷ 99 ∷ [])).1
to_pascal_case_words_example = to_pascal_case_words upper (97 ∷ 95 ∷ 99 ∷ [])

abbrev document : List (ℕ × Definition)
document =
    (1, object (record { name = some "A"; fields = [] }))
    ∷ (2, enum (some "B") [])
    ∷ (3, schema (record { operation = "query"; type = non_null (named (some "A")) } ∷ []))
    ∷ (4, object (record { name = some "B"; fields = [] }))
    ∷ []

root_query_is_A : (document_to_parts document).root_query ≡ some 1
unfolding program
root_query_is_A = refl

document_types_example : lookup "B" (document_to_parts document).types ≡ last_type "B" document none
document_types_example = document_types document "B"

abbrev document_heap : List (ℕ × Definition)
document_heap =
    (1, object (record { name = some "A"; fields = [] }))
    ∷ (9, object (record { name = some "__Schema"; fields = [] }))
    ∷ []

abbrev before : Schema
before = record { parts = document_to_parts document; heap = document_heap }

apply_introspection_twice_example :
    apply_introspection
      (("Int", 8) ∷ [])
      (("__Schema", 9) ∷ [])
      (apply_introspection (("Int", 8) ∷ []) (("__Schema", 9) ∷ []) before)
    ≡ apply_introspection (("Int", 8) ∷ []) (("__Schema", 9) ∷ []) before
unfolding program
apply_introspection_twice_example =
    apply_introspection_twice (("Int", 8) ∷ []) (("__Schema", 9) ∷ []) refl before
