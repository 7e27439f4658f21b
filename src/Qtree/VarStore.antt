-- ===== src/Qtree/VarStore.antt =====
-- qtree/varstore.go: the client's variables, and the references that query nodes hold to them.
-- Variables and references are shared by pointer in the source: each has a heap here, and `next`
-- is the first address that neither uses. An int32 and a float64 are their bit patterns.
pub mod Invariant
pub mod References
use magellan.Base.{
  ℕ, suc, ◌+◌, ◌%◌, ◌^◌, String, Bool, true, false, Option, none, some, List, [], ◌∷◌, lookup,
  insert, delete, retain, if◌then◌else◌, nat_key,
}
use magellan.Types.{ProtoKind, kind_bool, kind_int, kind_float, kind_string}

-- `proto.RGQLPrimitive`
pub record Primitive : Type 0 where
  pub kind : ProtoKind
  pub bool_value : Bool
  pub int_value : ℕ
  pub float_value : ℕ
  pub string_value : String

-- What an `interface{}` of a variable holds.
pub data Value : Type 0 where
  nil : Value
  bool : Bool → Value
  int : ℕ → Value
  float : ℕ → Value
  string : String → Value

unpack_kind : ProtoKind → Primitive → Value
unpack_kind kind_bool prim = bool prim.bool_value
unpack_kind kind_int prim = int prim.int_value
unpack_kind kind_float prim = float prim.float_value
unpack_kind kind_string prim = string prim.string_value
unpack_kind _ prim = nil

unfoldable pub unpack_value : Primitive → Value
unfolding unpack_kind
unpack_value prim = unpack_kind prim.kind prim

-- `proto.ASTVariable`
pub record AstVariable : Type 0 where
  pub id : ℕ
  pub value : Primitive

pub record Variable : Type 0 where
  pub id : ℕ
  pub value : Value
  pub references : List (ℕ × ℕ)
  pub reference_ctr : ℕ

-- `is_done` is the state of `once`.
pub record VariableReference : Type 0 where
  pub id : ℕ
  pub value : Value
  pub ref_id : ℕ
  pub vb : ℕ
  pub is_done : Bool

pub record VariableStore : Type 0 where
  pub variables : List (ℕ × ℕ)
  pub vars : List (ℕ × Variable)
  pub refs : List (ℕ × VariableReference)
  pub next : ℕ

unfoldable pub new_variable_store : VariableStore
new_variable_store = record { variables = []; vars = []; refs = []; next = 0 }

new_variable : ℕ → Variable
new_variable id = record { id = id; value = nil; references = []; reference_ctr = 0 }

-- The write of `vb.Value`, and of the map's entry.
put_at : VariableStore → AstVariable → ℕ → Variable → VariableStore
put_at vs varb p vb = record vs {
  vars = insert p (record vb { value = unpack_value varb.value }) vs.vars;
  variables = insert varb.id p vs.variables;
}

unfoldable pub put : VariableStore → AstVariable → VariableStore
unfolding put_at new_variable
put vs varb = elim (lookup varb.id vs.variables) [
  | none ↦ put_at (record vs { next = suc vs.next }) varb vs.next (new_variable varb.id)
  | some p ↦ elim (lookup p vs.vars) [ none ↦ vs | some vb ↦ put_at vs varb p vb ]
]

unfoldable pub has_references : Variable → Bool
has_references v = elim v.references [ [] ↦ false | _ ↦ true ]

-- The counter is a uint32.
unfoldable pub add_reference : VariableStore → ℕ → Variable → VariableStore × ℕ
add_reference vs p v =
    let id = (v.reference_ctr + 1) % 2 ^ 32 in
    (
      record vs {
        refs =
            insert vs.next
              (record { id = v.id; value = v.value; ref_id = id; vb = p; is_done = false }) vs.refs;
        vars =
            insert p (record v { reference_ctr = id; references = insert id vs.next v.references })
              vs.vars;
        next = suc vs.next;
      },
      vs.next,
    )

-- The address of the new reference, or nil.
unfoldable pub get : VariableStore → ℕ → VariableStore × Option ℕ
unfolding add_reference
get vs id = elim (lookup id vs.variables) [
  | none ↦ (vs, none)
  | some p ↦ elim (lookup p vs.vars) [
    | none ↦ (vs, none)
    | some v ↦ ((add_reference vs p v).0, some (add_reference vs p v).1)
  ]
]

-- `delete(vr.vb.References, vr.refId)`, once.
unfoldable pub unsubscribe : VariableStore → ℕ → VariableStore
unsubscribe vs r = elim (lookup r vs.refs) [
  | none ↦ vs
  | some vr ↦ if vr.is_done then vs else elim (lookup vr.vb vs.vars) [
    | none ↦ vs
    | some v ↦ record vs {
      refs = insert r (record vr { is_done = true }) vs.refs;
      vars = insert vr.vb (record v { references = delete vr.ref_id v.references }) vs.vars;
    }
  ]
]

unfoldable pub is_used : VariableStore → ℕ → Bool
unfolding has_references
is_used vs p = elim (lookup p vs.vars) [ none ↦ false | some v ↦ has_references v ]

unfoldable pub garbage_collect : VariableStore → VariableStore
unfolding is_used
garbage_collect vs = record vs { variables = retain (is_used vs) vs.variables }
