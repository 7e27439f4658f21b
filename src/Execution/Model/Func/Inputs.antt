-- ===== src/Execution/Model/Func/Inputs.antt =====
-- Which place an input of a method takes in its resolver (execution/resolve_func.go).
use magellan.Base.{ℕ, ◌≡◌, String, true, Bool-cases, some, List, [], ◌⊎◌, inl, inr, arith}
use magellan.Ast.Nodes.{FieldNode, Syntax}
use magellan.Execution.Reflect.{Reflect, kind_of, elem_of, same_kind, chan, struct}
use magellan.Execution.Model.{FuncArgField, FuncResolver, Builder, built}
use magellan.Execution.Model.Grows.{bind-built}
use magellan.Execution.Model.Func.{
  Scan, is_context, is_args, is_output_chan, match_fields, take_args, take_output, scan_arg,
}

-- `fields` are the fields of the struct `t` for the arguments of `field`.
pub Matched : Reflect → Syntax → FieldNode → ℕ → List (String × FuncArgField) → Type 0
Matched r syn field t fields =
    (s u : Builder) × (match_fields r syn t field.arguments [] s ≡ built fields u)

-- What an input's place is taken by: the context, the arguments' struct or the output channel.
unfoldable pub Taken : Reflect → Syntax → FieldNode → ℕ → ℕ → FuncResolver → FuncResolver → Type 0
Taken r syn field i t f g =
    ((f.context_arg ≡ 0)
      × ((r.type_at t).implements_context ≡ true)
      × (g ≡ record f { context_arg = i }))
    ⊎ (((f.args_arg ≡ 0)
          × (same_kind (kind_of r (elem_of r t)) struct ≡ true)
          × (fields : List (String × FuncArgField)) × Matched r syn field (elem_of r t) fields
          × (g ≡ record f { args_arg = i; args_type = some (elem_of r t); args_fields = fields }))
        ⊎ ((f.output_chan_arg ≡ 0)
            × (same_kind (kind_of r t) chan ≡ true)
            × (g ≡ record f { output_chan_arg = i })))

is_context-true :
    (r : Reflect) (f : FuncResolver) (t : ℕ)
    → is_context r f t ≡ true
    → (f.context_arg ≡ 0) × ((r.type_at t).implements_context ≡ true)
unfolding is_context
is_context-true r f t h = ground arith

is_args-true :
    (r : Reflect) (f : FuncResolver) (t : ℕ)
    → is_args r f t ≡ true
    → (f.args_arg ≡ 0) × (same_kind (kind_of r (elem_of r t)) struct ≡ true)
unfolding is_args
is_args-true r f t h = ground arith

is_output_chan-true :
    (r : Reflect) (f : FuncResolver) (t : ℕ)
    → is_output_chan r f t ≡ true
    → (f.output_chan_arg ≡ 0) × (same_kind (kind_of r t) chan ≡ true)
unfolding is_output_chan
is_output_chan-true r f t h = ground arith

take_args-built :
    (r : Reflect) (syn : Syntax) (field : FieldNode) (i t : ℕ) (x y : Scan) (s u : Builder)
    → take_args r syn field i t x s ≡ built y u
    → (fields : List (String × FuncArgField)) × Matched r syn field (elem_of r t) fields
      × (y.resolver ≡ record x.resolver {
        args_arg = i;
        args_type = some (elem_of r t);
        args_fields = fields;
      })
unfolding take_args Matched
take_args-built r syn field i t x y s u h =
    let (fields, v, e, k) =
      bind-built (match_fields r syn (elem_of r t) field.arguments []) _ s y u h in
    (fields, (s, v, e), cc k)

take_output-built :
    (r : Reflect) (i t : ℕ) (x y : Scan) (s u : Builder)
    → take_output r i t x s ≡ built y u
    → y.resolver ≡ record x.resolver { output_chan_arg = i }
unfolding take_output
take_output-built r i t x y s u h = ground arith

pub scan_arg-Taken :
    (r : Reflect) (syn : Syntax) (field : FieldNode) (i t : ℕ) (x y : Scan) (s u : Builder)
    → scan_arg r syn field i t x s ≡ built y u
    → Taken r syn field i t x.resolver y.resolver
unfolding scan_arg Taken
scan_arg-Taken r syn field i t x y s u h = elim (Bool-cases (is_context r x.resolver t)) [
  | inl c ↦ let (e, p) = is_context-true r x.resolver t c in inl (e, p, ground arith)
  | inr c ↦ elim (Bool-cases (is_args r x.resolver t)) [
    | inl a ↦
        let (e, p) = is_args-true r x.resolver t a in
        let k : take_args r syn field i t x s ≡ built y u = ground arith in
        let (fields, matched, l) = take_args-built r syn field i t x y s u k in
        inr (inl (e, p, fields, matched, l))
    | inr a ↦ elim (Bool-cases (is_output_chan r x.resolver t)) [
      | inl o ↦
          let (e, p) = is_output_chan-true r x.resolver t o in
          let k : take_output r i t x s ≡ built y u = ground arith in
          inr (inr (e, p, take_output-built r i t x y s u k))
      | inr o ↦ ground arith
    ]
  ]
]
