-- ===== src/Encoding/Encoder/Frames.antt =====
-- What a client makes of the values of encoding/encoding.go: the path of a result and its payload.
use text.Mathlib.Text.{◌==◌ as str_eq}
use magellan.Base.{
  ℕ, ◌≡◌, ◌≢◌, refl, ap, sym, ◌∙◌, Bool, false, ◌&&◌, Option, none, some, List, [], ◌∷◌, ◌++◌, map,
  lookup, nat_key, ◌==◌, if◌then◌else◌, append-nil, append_assoc, Bool-cases, inl, inr, arith,
}
use magellan.Execution.Context.{PathComponent, Payload, value, error}
use magellan.Encoding.PathCache.{labelled}
use magellan.Encoding.Encoder.{RgqlValue, value_in, error_in, carrying, frames, only_label, encode}

-- A component without its label: the query node and the array index.
abbrev pub Place : Type 0
Place = ℕ × ℕ

abbrev pub place : PathComponent → Place
place c = (c.query_node_id, c.array_index)

abbrev pub is_nowhere : PathComponent → Bool
is_nowhere c = c.query_node_id == 0 && c.array_index == 0

-- The payload that a value carries.
abbrev pub payload_of : RgqlValue → Option Payload
payload_of m =
    if str_eq m.error ""
    then elim m.value [ none ↦ none | some v ↦ some (value v) ]
    else some (error m.error)

-- A value, or an error whose text is not empty.
abbrev pub IsShown : Payload → Type 0
IsShown (value v) = Unit
IsShown (error e) = str_eq e "" ≡ false

payload_of-carrying :
    (path : PathComponent) (v : Payload) → IsShown v → payload_of (carrying path v) ≡ some v
unfolding carrying value_in error_in
payload_of-carrying path (value v) h = refl
payload_of-carrying path (error e) h = rw h refl

abbrev pub delivered : List Place → Option Payload → Option (List Place × Payload)
delivered path none = none
delivered path (some v) = some (path, v)

-- The values after the first, each of which goes one step down.
abbrev pub follow : List Place → List RgqlValue → Option Payload → Option (List Place × Payload)
follow path [] last = delivered path last
follow path (m ∷ ms) last = follow (path ++ place m.path ∷ []) ms (payload_of m)

-- The first value starts at the root, or at the path that the client knows under its label; it may
-- be the label alone.
abbrev pub begin : List (ℕ × List Place) → PathComponent → Option (List Place)
begin known c =
    if c.pos_identifier == 0 then some (place c ∷ []) else elim (lookup c.pos_identifier known) [
      | none ↦ none
      | some path ↦ some (if is_nowhere c then path else path ++ place c ∷ [])
    ]

abbrev pub from_path :
    Option (List Place) → List RgqlValue → Option Payload → Option (List Place × Payload)
from_path none ms last = none
from_path (some path) ms last = follow path ms last

abbrev pub decode : List (ℕ × List Place) → Option (List RgqlValue) → Option (List Place × Payload)
decode known none = none
decode known (some []) = none
decode known (some (m ∷ ms)) = from_path (begin known m.path) ms (payload_of m)

follow-frames :
    (path : List Place) (v : Payload) (p : PathComponent) (ps : List PathComponent)
    (last : Option Payload)
    → IsShown v
    → follow path (frames v (p ∷ ps)) last ≡ some (path ++ place p ∷ map place ps, v)
unfolding frames carrying
follow-frames path v p [] last h = ap (delivered (path ++ place p ∷ [])) (payload_of-carrying p v h)
follow-frames path v p (q ∷ ps) last h =
    follow-frames (path ++ place p ∷ []) v q ps none h
    ∙ ap (λ (x : List Place). some (x, v))
        (append_assoc path (place p ∷ []) (place q ∷ map place ps))

begin_root :
    (known : List (ℕ × List Place)) (c : PathComponent)
    → c.pos_identifier ≡ 0
    → begin known c ≡ some (place c ∷ [])
begin_root known c z = grind (arith, z)

by_eq : (n : ℕ) → n ≢ 0 → n == 0 ≡ false
by_eq n ne = grind (arith, ne)

begin_label :
    (known : List (ℕ × List Place)) (c : PathComponent) (path : List Place)
    → c.pos_identifier ≢ 0
    → lookup c.pos_identifier known ≡ some path
    → begin known c ≡ some (if is_nowhere c then path else path ++ place c ∷ [])
begin_label known c path nz f = rw (by_eq c.pos_identifier nz, f) refl

abbrev merged : ℕ → PathComponent → List PathComponent → List PathComponent
merged id next more =
    if next.pos_identifier == 0 then labelled id next ∷ more else only_label id ∷ next ∷ more

from_path-frames :
    (known : List (ℕ × List Place)) (path : List Place) (v : Payload) (p : PathComponent)
    (ps : List PathComponent)
    → IsShown v
    → begin known p ≡ some path
    → decode known (some (frames v (p ∷ ps))) ≡ some (path ++ map place ps, v)
unfolding frames carrying
from_path-frames known path v p [] h e =
    ap (λ b. from_path b [] (payload_of (carrying p v))) e
    ∙ ap (delivered path) (payload_of-carrying p v h)
    ∙ ap (λ (x : List Place). some (x, v)) (sym (append-nil path))
from_path-frames known path v p (q ∷ ps) h e =
    ap (λ b. from_path b (frames v (q ∷ ps)) none) e ∙ follow-frames path v q ps none h

-- For a value, and for an error whose text is not empty: if the path of a result starts at a component without a label, the encoder does not panic, and the
-- client gets the whole path and the payload.
pub decode-encode_root :
    (known : List (ℕ × List Place)) (v : Payload) (root : PathComponent) (more : List PathComponent)
    → IsShown v
    → root.pos_identifier ≡ 0
    → decode known (encode v (root ∷ more)) ≡ some (place root ∷ map place more, v)
unfolding encode
decode-encode_root known v root [] h z =
    ap (λ x. decode known (if x == 0 then some (frames v (root ∷ [])) else none)) z
    ∙ from_path-frames known (place root ∷ []) v root [] h (begin_root known root z)
decode-encode_root known v root (next ∷ more) h z =
    ap
      (λ x.
        decode known (some (frames v (if x == 0 then root ∷ next ∷ more else merged x next more))))
      z
    ∙ from_path-frames known (place root ∷ []) v root (next ∷ more) h (begin_root known root z)

-- For a value, and for an error whose text is not empty: if it starts at a component with a label that the client knows for a path, and the next component
-- has a query node or an array index: the encoder does not panic, and the client gets that path,
-- the components after the labelled one and the payload.
pub decode-encode_label :
    (known : List (ℕ × List Place)) (v : Payload) (root next : PathComponent)
    (more : List PathComponent) (path : List Place)
    → IsShown v
    → root.pos_identifier ≢ 0
    → lookup root.pos_identifier known ≡ some path
    → is_nowhere next ≡ false
    → decode known (encode v (root ∷ next ∷ more)) ≡ some (path ++ map place (next ∷ more), v)
unfolding encode
decode-encode_label known v root next more path h nz f placed =
    elim (Bool-cases (next.pos_identifier == 0)) [
      | inl e ↦
          rw (encode, by_eq root.pos_identifier nz, e)
            (from_path-frames known (path ++ place next ∷ []) v (labelled root.pos_identifier next)
                more h
                (begin_label known (labelled root.pos_identifier next) path nz f ∙ rw placed refl)
              ∙ ap (λ (x : List Place). some (x, v))
                  (append_assoc path (place next ∷ []) (map place more)))
      | inr e ↦
          rw (encode, by_eq root.pos_identifier nz, e)
            (from_path-frames known path v (only_label root.pos_identifier) (next ∷ more) h
              (begin_label known (only_label root.pos_identifier) path nz f))
    ]
