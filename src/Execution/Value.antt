-- ===== src/Execution/Value.antt =====
-- Go values as package reflect shows them, and `BuildResolverValue` of execution/resolver_ctx.go.
-- An integer is its 64-bit pattern and a float its 64-bit pattern.
use magellan.Base.{ℕ, ◌%◌, ◌^◌, String, Bool, false, Option, none, some}
use magellan.Types.{ProtoKind, kind_null, kind_int, kind_bool, kind_float, kind_string}

-- `reflect.Value`: `invalid` is the zero Value, `nil_ptr` a nil pointer, `other` any kind that the
-- wire format has no scalar for.
pub data GoValue : Type 0 where
  invalid : GoValue
  nil_ptr : GoValue
  bool : Bool → GoValue
  int : ℕ → GoValue
  float : ℕ → GoValue
  string : String → GoValue
  other : GoValue

-- `proto.RGQLPrimitive`. A kind is absent where the source leaves Go's zero.
pub record Primitive : Type 0 where
  pub kind : Option ProtoKind
  pub int_value : ℕ
  pub bool_value : Bool
  pub float_value : ℕ
  pub string_value : String

unfoldable pub empty_primitive : Option ProtoKind → Primitive
empty_primitive kind = record {
  kind = kind;
  int_value = 0;
  bool_value = false;
  float_value = 0;
  string_value = "";
}

-- `String()` formats a value that is no string as its type, so it does not panic.
unfoldable pub string_of : GoValue → String
string_of (string s) = s
string_of _ = "<T Value>"

-- The `switch` on the kind. `none` is the panic of `Int`, `Bool` or `Float` on another kind.
unfoldable pub fill : Option ProtoKind → GoValue → Option Primitive
unfolding empty_primitive string_of
fill (some kind_int) (int n) =
    some (record (empty_primitive (some kind_int)) { int_value = n % 2 ^ 32 })
fill (some kind_int) _ = none
fill (some kind_bool) (bool b) = some (record (empty_primitive (some kind_bool)) { bool_value = b })
fill (some kind_bool) _ = none
fill (some kind_float) (float x) =
    some (record (empty_primitive (some kind_float)) { float_value = x })
fill (some kind_float) _ = none
fill (some kind_string) v =
    some (record (empty_primitive (some kind_string)) { string_value = string_of v })
fill kind v = some (empty_primitive kind)

-- The value of `BuildResolverValue`; the context is kept by the caller.
unfoldable pub build_resolver_value : Option ProtoKind → GoValue → Option Primitive
unfolding fill empty_primitive
build_resolver_value kind invalid = some (empty_primitive (some kind_null))
build_resolver_value kind nil_ptr = some (empty_primitive (some kind_null))
build_resolver_value kind v = fill kind v
