-- ===== src/Tests/Encoding.antt =====
-- The encoder (encoding/) on a root, a field 1 of it and a field 2 of that, with a cache of two.
use magellan.Base.{
  ℕ, ◌≡◌, refl, false, Option, none, some, List, [], ◌∷◌, is_some, lookup, insert, delete, modify,
  nat_key, arith, if◌then◌else◌,
}
use magellan.Execution.Context.{
  PathComponent, ResolverValue, error, base_child, field_child, new_root_resolver_context,
}
use magellan.Encoding.PathCache.{
  Lru, PathCache, new_path_cache, label, on_evicted, evict, add_entry, put,
}
use magellan.Encoding.Encoder.{
  RgqlValue, rewind, label_path_components, path_from_root, value_in, error_in, carrying, frames,
  encode, run_once,
}
use magellan.Encoding.Encoder.Frames.{Place, decode, decode-encode_root, decode-encode_label}

program : Unit {0}
unfolding base_child field_child new_root_resolver_context new_path_cache label on_evicted evict
    add_entry put rewind label_path_components path_from_root value_in error_in carrying frames
    encode run_once lookup insert delete modify nat_key
program = tt

-- A cache of at most two entries, the newest first.
abbrev add_two : List (ℕ × ℕ) → ℕ → ℕ → List (ℕ × ℕ) × Option (ℕ × ℕ)
add_two ((i, a) ∷ (j, b) ∷ []) k v =
    if is_some (lookup k ((i, a) ∷ (j, b) ∷ []))
    then (insert k v ((i, a) ∷ (j, b) ∷ []), none)
    else ((k, v) ∷ (i, a) ∷ [], some (j, b))
add_two entries k v = (insert k v entries, none)

abbrev two : Lru
two = record { Cache = List (ℕ × ℕ); add = add_two }

abbrev start : PathCache two
start =
    new_path_cache two []
      (field_child (field_child (new_root_resolver_context false 0) 0 5 5) 1 6 6)

abbrev result : ℕ → ResolverValue
result r = record { context = r; payload = error "gone" }

abbrev place_at : ℕ → ℕ → PathComponent
place_at node id = record { query_node_id = node; array_index = 0; pos_identifier = id }

abbrev written : Option (PathCache two × List RgqlValue) → List RgqlValue
written none = []
written (some (p, values)) = values

-- The field is not final, so it gets the label 1.
labels_field :
    written (run_once start (result 2))
    ≡ record { path = place_at 5 0; value = none; error = "" }
      ∷ record { path = place_at 6 1; value = none; error = "gone" }
      ∷ []
unfolding program
labels_field = refl

abbrev again : Option (PathCache two × List RgqlValue) → Option (PathCache two × List RgqlValue)
again none = none
again (some (p, values)) = run_once p (result 2)

-- A second result of the same field panics.
second_result_panics : again (run_once start (result 2)) ≡ none
unfolding program
second_result_panics = refl

decode-encode_root_example :
    decode [] (encode (error "gone") (place_at 5 0 ∷ place_at 6 1 ∷ []))
    ≡ some ((5, 0) ∷ (6, 0) ∷ [], error "gone")
decode-encode_root_example =
    decode-encode_root [] (error "gone") (place_at 5 0) (place_at 6 1 ∷ []) refl refl

abbrev known : List (ℕ × List Place)
known = (1, (5, 0) ∷ (6, 0) ∷ []) ∷ []

decode-encode_label_example :
    decode known (encode (error "gone") (place_at 6 1 ∷ place_at 7 0 ∷ []))
    ≡ some ((5, 0) ∷ (6, 0) ∷ (7, 0) ∷ [], error "gone")
unfolding lookup nat_key
decode-encode_label_example =
    decode-encode_label known (error "gone") (place_at 6 1) (place_at 7 0) [] ((5, 0) ∷ (6, 0) ∷ [])
      refl (λ e. omega arith) refl refl
