-- ===== src/Encoding/Encoder.antt =====
-- encoding/encoding.go: the values that the encoder writes for one result. A list of components is in
-- the source's order, from the value's context up to the path's root.
pub mod Frames
use magellan.Base.{
  ℕ, zero, suc, ◌+◌, Bool, true, false, not, Option, none, some, List, [], ◌∷◌, ◌++◌, String,
  lookup, nat_key, ◌==◌, if◌then◌else◌,
}
use magellan.Execution.Context.{PathComponent, ResolverContext, ResolverValue, Payload, Execution}
use magellan.Execution.Value.{Primitive}
use magellan.Encoding.PathCache.{Lru, PathCache, put, labelled, label_of}

-- `proto.RGQLValue` as it is marshalled: an error with an empty text is as none.
pub record RgqlValue : Type 0 where
  pub path : PathComponent
  pub value : Option Primitive
  pub error : String

-- The rewind from `r` to a labelled component or one without a path parent; a label is renewed in
-- the cache. `none` is a panic, or a chain longer than the fuel.
unfoldable pub rewind : {lru : Lru} → ℕ → PathCache lru → ℕ → Option (PathCache lru × List ℕ)
rewind zero p r = none
rewind (suc fuel) p r = elim (lookup r p.execution.contexts) [
  | none ↦ none
  | some c ↦ elim c.path_component [
    | none ↦ none
    | some path ↦
        if path.pos_identifier == 0
        then elim c.path_parent [
          | none ↦ some (p, r ∷ [])
          | some q ↦ elim (rewind fuel p q) [ none ↦ none | some (p', rs) ↦ some (p', r ∷ rs) ]
        ]
        else elim (put p r) [ none ↦ none | some (p', added, id) ↦ some (p', r ∷ []) ]
  ]
]

-- `labelPathComponents`: the first component that is not final, the last one aside, is put in the
-- cache.
unfoldable pub label_path_components : {lru : Lru} → PathCache lru → List ℕ → Option (PathCache lru)
label_path_components p [] = some p
label_path_components p (r ∷ []) = some p
label_path_components p (r ∷ q ∷ rs) =
    let rest = label_path_components p (q ∷ rs) in
    elim (lookup r p.execution.contexts) [
      | none ↦ none
      | some c ↦
          if c.is_final
          then rest
          else elim (put p r) [ none ↦ none | some (p', added, id) ↦ some p' ]
    ]

-- The path components, from the path's root down to the value.
unfoldable pub path_from_root :
    Execution → List ℕ → List PathComponent → Option (List PathComponent)
path_from_root s [] below = some below
path_from_root s (r ∷ rs) below = elim (lookup r s.contexts) [
  | none ↦ none
  | some c ↦ elim c.path_component [ none ↦ none | some path ↦ path_from_root s rs (path ∷ below) ]
]

unfoldable pub value_in : Payload → Option Primitive
value_in (Payload.value v) = some v
value_in (Payload.error e) = none

unfoldable pub error_in : Payload → String
error_in (Payload.value v) = ""
error_in (Payload.error e) = e

-- `pc.Error = …` or `pc.Value = …`
unfoldable pub carrying : PathComponent → Payload → RgqlValue
unfolding value_in error_in
carrying path v = record { path = path; value = value_in v; error = error_in v }

-- The value goes with the last component.
unfoldable pub frames : Payload → List PathComponent → List RgqlValue
unfolding carrying
frames v [] = []
frames v (path ∷ []) = carrying path v ∷ []
frames v (path ∷ p ∷ ps) = record { path = path; value = none; error = "" } ∷ frames v (p ∷ ps)

abbrev pub only_label : ℕ → PathComponent
only_label id = record { query_node_id = 0; array_index = 0; pos_identifier = id }

-- The loop that marshals: a labelled root is merged into the next component if that one has no
-- label (`mergePosIdentifier`), else it is written as its label alone. `none` is the panic on the
-- index -1, when the labelled root is the value's own component.
unfoldable pub encode : Payload → List PathComponent → Option (List RgqlValue)
unfolding frames
encode v [] = some []
encode v (root ∷ []) = if root.pos_identifier == 0 then some (frames v (root ∷ [])) else none
encode v (root ∷ next ∷ more) = some (
    frames v (
      if root.pos_identifier == 0
      then root ∷ next ∷ more
      else if next.pos_identifier == 0
      then labelled root.pos_identifier next ∷ more
      else only_label root.pos_identifier ∷ next ∷ more))

-- One pass of the loop of `Run`. The path is rewound in the state before the pass's own label and
-- marshalled after it.
unfoldable pub run_once :
    {lru : Lru} → PathCache lru → ResolverValue → Option (PathCache lru × List RgqlValue)
unfolding rewind label_path_components path_from_root encode
run_once p v = elim (rewind (suc p.execution.next) p v.context) [
  | none ↦ none
  | some (p', components) ↦ elim (label_path_components p' components) [
    | none ↦ none
    | some p'' ↦ elim (path_from_root p''.execution components []) [
      | none ↦ none
      | some path ↦ elim (encode v.payload path) [ none ↦ none | some values ↦ some (p'', values) ]
    ]
  ]
]
