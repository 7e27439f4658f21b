-- ===== src/Execution/Model/Func.antt =====
-- execution/resolve_func.go: which method resolves a field, and which of its arguments and results
-- are what.
pub mod Scanned
pub mod Inputs
use magellan.Base.{
  codes, ℕ, suc, String, Bool, true, false, ◌&&◌, not, Option, none, some, List, [], ◌∷◌, ◌++◌,
  insert, string_key, ◌==◌, if◌then◌else◌,
}
use magellan.Ast.{TypeRef}
use magellan.Ast.Nodes.{ArgumentNode, FieldNode, Node, Syntax}
use magellan.Types.{GoKind, ast_primitive_kind}
use magellan.Case.{to_pascal_case}
use magellan.Execution.Reflect.{
  Kind, basic, ptr, chan, struct, interface, same_kind, ChanDir, send_dir, Method, StructField,
  Reflect, kind_of, elem_of,
}
use magellan.Execution.Model.{
  FuncArgField, FuncResolver, no_resolver_func, no_argument_field, argument_kind, output_direction,
  unexpected_argument, deferred_in_mutation, no_context, return_signature, Build, ◌>>=◌, return,
  fail,
}

-- `*T` for a struct `T`.
method_type : Reflect → ℕ → ℕ
method_type r t = if same_kind (kind_of r t) struct then r.ptr_to t else t

-- `findResolverFunc`
unfoldable pub find_resolver_func : Reflect → ℕ → String → Build Method
unfolding method_type
find_resolver_func r t name =
    let on = method_type r t in
    let pascal = to_pascal_case r.upper (codes name) in
    elim (r.method_by_name on pascal) [
      | some m ↦ return m
      | none ↦ elim (r.method_by_name on (codes "Get" ++ pascal)) [
        | some m ↦ return m
        | none ↦ fail (no_resolver_func name on)
      ]
    ]

-- A node as the type that the primitives are looked up by.
abbrev pub shallow : Option Node → TypeRef
shallow (some (Node.named name)) = TypeRef.named name
shallow _ = TypeRef.nil

dir_is_send : ChanDir → Bool
dir_is_send send_dir = true
dir_is_send _ = false

-- The kind of a field of the arguments' struct, without its pointer.
field_kind : Reflect → StructField → Kind
field_kind r f =
    if same_kind (kind_of r f.type) ptr then kind_of r (elem_of r f.type) else kind_of r f.type

wrong_kind : Option GoKind → Kind → Bool
wrong_kind none k = false
wrong_kind (some g) k = not (same_kind (basic g) k)

-- The loop over the field's arguments, with the struct `t` that takes them.
unfoldable pub match_fields :
    Reflect
    → Syntax
    → ℕ
    → List ArgumentNode
    → List (String × FuncArgField)
    → Build (List (String × FuncArgField))
unfolding field_kind wrong_kind
match_fields r syn t [] fields = return fields
match_fields r syn t (arg ∷ args) fields =
    elim (r.field_by_name t (to_pascal_case r.upper (codes arg.name))) [
      | none ↦ fail (no_argument_field arg.name t)
      | some f ↦
          let rest = match_fields r syn t args (
            insert arg.name (record { index = f.index; is_ptr = same_kind (kind_of r f.type) ptr })
              fields) in
          if wrong_kind (ast_primitive_kind (shallow (syn.node_at arg.type))) (field_kind r f)
          then fail (argument_kind arg.name t)
          else rest
    ]

-- A resolver that is being built, and `outputType`.
pub record Scan : Type 0 where
  pub resolver : FuncResolver
  pub output : Option ℕ

unfoldable pub start_scan : Method → String → Scan
start_scan m name = record {
  resolver = record {
    method = m.index;
    field_name = name;
    context_arg = 0;
    args_arg = 0;
    args_type = none;
    args_fields = [];
    output_chan_arg = 0;
    returns_error = false;
    result_type = 0;
    result_resolver = 0;
  };
  output = none;
}

is_context : Reflect → FuncResolver → ℕ → Bool
is_context r f t =
    f.context_arg == 0 && same_kind (kind_of r t) interface && (r.type_at t).implements_context

is_args : Reflect → FuncResolver → ℕ → Bool
is_args r f t =
    f.args_arg == 0 && same_kind (kind_of r t) ptr && same_kind (kind_of r (elem_of r t)) struct

is_output_chan : Reflect → FuncResolver → ℕ → Bool
is_output_chan r f t = f.output_chan_arg == 0 && same_kind (kind_of r t) chan

take_args : Reflect → Syntax → FieldNode → ℕ → ℕ → Scan → Build Scan
unfolding match_fields
take_args r syn field i t s = do
  fields ← match_fields r syn (elem_of r t) field.arguments []
  return (record s {
    resolver = record s.resolver {
      args_arg = i;
      args_type = some (elem_of r t);
      args_fields = fields;
    };
  })

take_output : Reflect → ℕ → ℕ → Scan → Build Scan
unfolding dir_is_send
take_output r i t s =
    if dir_is_send (r.type_at t).chan_dir
    then return (record {
      resolver = record s.resolver { output_chan_arg = i };
      output = some (r.recv_chan_of (elem_of r t));
    })
    else fail (output_direction i)

-- One round of the loop over the method's inputs: the input `i`, of type `t`.
unfoldable pub scan_arg : Reflect → Syntax → FieldNode → ℕ → ℕ → Scan → Build Scan
unfolding is_context is_args is_output_chan take_args take_output
scan_arg r syn field i t s =
    if is_context r s.resolver t
    then return (record s { resolver = record s.resolver { context_arg = i } })
    else if is_args r s.resolver t
    then take_args r syn field i t s
    else if is_output_chan r s.resolver t
    then take_output r i t s
    else fail (unexpected_argument i t)

unfoldable pub scan_args : Reflect → Syntax → FieldNode → ℕ → List ℕ → Scan → Build Scan
unfolding scan_arg
scan_args r syn field i [] s = return s
scan_args r syn field i (t ∷ ts) s = do
  s' ← scan_arg r syn field i t s
  scan_args r syn field (suc i) ts s'

-- The receiver is passed over.
abbrev pub without_receiver : List ℕ → List ℕ
without_receiver [] = []
without_receiver (t ∷ ts) = ts

-- What a method of a live field returns: an error alone.
live_result : Reflect → List ℕ → Scan → Build Scan
live_result r (e ∷ []) s =
    if e == r.error_type
    then return (record s { resolver = record s.resolver { returns_error = true } })
    else fail return_signature
live_result r _ s = fail return_signature

-- What any other returns: a result, or a result and an error.
plain_result : Reflect → List ℕ → Scan → Build Scan
plain_result r (t ∷ []) s =
    if t == r.error_type then fail return_signature else return (record s { output = some t })
plain_result r (t ∷ e ∷ []) s =
    if e == r.error_type
    then return (record { resolver = record s.resolver { returns_error = true }; output = some t })
    else fail return_signature
plain_result r _ s = fail return_signature

unfoldable pub check_result : Reflect → Bool → List ℕ → Scan → Build Scan
unfolding live_result plain_result
check_result r serial_only outputs s =
    if s.resolver.output_chan_arg == 0
    then plain_result r outputs s
    else if serial_only
    then fail deferred_in_mutation
    else if s.resolver.context_arg == 0
    then fail no_context
    else live_result r outputs s
