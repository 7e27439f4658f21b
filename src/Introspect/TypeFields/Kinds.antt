-- ===== src/Introspect/TypeFields/Kinds.antt =====
-- The kinds of introspect/introspect.go against the enum `__TypeKind` of schema/meta.go.
use magellan.Base.{
  ℕ, ◌-◌, ◌<◌, ◌≡◌, refl, ap, ◌∙◌, String, ◌&&◌, some, List, [], ◌∷◌, ◌++◌, map, All, codes,
  trim_suffix, trim_suffix-append, leb, if◌then◌else◌, arith,
}
use magellan.Ast.{
  TypeRef, definition, Definition, schema, union, object, enum, scalar, interface, input_object,
  operation_definition, fragment_definition, other,
}
use magellan.Introspect.{type_resolver}
use magellan.Introspect.TypeFields.{kind}

-- The word in the kind of a definition.
abbrev pub word : Definition → String
word (schema ops) = "Schema"
word (union n) = "Union"
word (object o) = "Object"
word (enum n values) = "Enum"
word (scalar n) = "Scalar"
word (interface n) = "Interface"
word (input_object n) = "InputObject"
word (operation_definition n) = "Operation"
word (fragment_definition n) = "Fragment"
word other = "Directive"

-- What `Kind` makes of the word: a value of `__TypeKind`, but for an input object, which that enum
-- calls `INPUT_OBJECT`.
abbrev pub shown_kind : Definition → String
shown_kind (schema ops) = "SCHEMA"
shown_kind (union n) = "UNION"
shown_kind (object o) = "OBJECT"
shown_kind (enum n values) = "ENUM"
shown_kind (scalar n) = "SCALAR"
shown_kind (interface n) = "INTERFACE"
shown_kind (input_object n) = "INPUTOBJECT"
shown_kind (operation_definition n) = "OPERATION"
shown_kind (fragment_definition n) = "FRAGMENT"
shown_kind other = "DIRECTIVE"

-- `unicode.ToUpper` on ASCII.
abbrev pub upper_ascii : ℕ → ℕ
upper_ascii c = if leb 97 c && leb c 122 then c - 32 else c

map-ascii :
    (upper : ℕ → ℕ) (s : List ℕ)
    → ((c : ℕ) → c < 128 → upper c ≡ upper_ascii c)
    → All (λ c. c < 128) s
    → map upper s ≡ map upper_ascii s
map-ascii upper [] h a = refl
map-ascii upper (c ∷ s) h (a, b) = cc (h c a, map-ascii upper s h b)

word-ascii : (d : Definition) → All (λ c. c < 128) (codes (word d))
word-ascii (schema ops) = ground arith
word-ascii (union n) = ground arith
word-ascii (object o) = ground arith
word-ascii (enum n values) = ground arith
word-ascii (scalar n) = ground arith
word-ascii (interface n) = ground arith
word-ascii (input_object n) = ground arith
word-ascii (operation_definition n) = ground arith
word-ascii (fragment_definition n) = ground arith
word-ascii other = ground arith

upper-word : (d : Definition) → map upper_ascii (codes (word d)) ≡ codes (shown_kind d)
upper-word (schema ops) = refl
upper-word (union n) = refl
upper-word (object o) = refl
upper-word (enum n values) = refl
upper-word (scalar n) = refl
upper-word (interface n) = refl
upper-word (input_object n) = refl
upper-word (operation_definition n) = refl
upper-word (fragment_definition n) = refl
upper-word other = refl

-- `Kind` of a definition whose node kind is its word followed by `Definition` is the word in capitals:
-- for a scalar, an object, an interface, a union and an enum the value of `__TypeKind`, for an input
-- object `INPUTOBJECT`, where `__TypeKind` has `INPUT_OBJECT`.
pub kind-shown_kind :
    (upper : ℕ → ℕ) (get_kind : TypeRef → List ℕ) (a : ℕ) (d : Definition)
    → ((c : ℕ) → c < 128 → upper c ≡ upper_ascii c)
    → get_kind (definition a) ≡ codes (word d) ++ codes "Definition"
    → kind upper get_kind (type_resolver (definition a)) ≡ some (codes (shown_kind d))
unfolding kind
kind-shown_kind upper get_kind a d h e = ap some (
    ap (λ k. map upper (trim_suffix k (codes "Definition"))) e
    ∙ ap (map upper) (trim_suffix-append (codes (word d)) (codes "Definition"))
    ∙ map-ascii upper (codes (word d)) h (word-ascii d)
    ∙ upper-word d)
