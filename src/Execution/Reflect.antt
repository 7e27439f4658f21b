-- ===== src/Execution/Reflect.antt =====
-- Go's types as package reflect shows them to execution/: a type is known by an address, equal types
-- by equal addresses.
use magellan.Base.{ℕ, Bool, true, false, List, Option}
use magellan.Types.{GoKind}

-- `reflect.Kind`; `basic` are the kinds of the primitives.
pub data Kind : Type 0 where
  basic : GoKind → Kind
  ptr slice chan struct interface other_kind : Kind

GoKind-discrete : Discrete GoKind
GoKind-discrete = hlevel

pub Kind-discrete : Discrete Kind
Kind-discrete = hlevel

unfoldable pub same_kind : Kind → Kind → Bool
unfolding Kind-discrete
same_kind a b = elim (Kind-discrete a b) [ no _ ↦ false | yes _ ↦ true ]

pub data ChanDir : Type 0 where
  recv_dir send_dir both_dir : ChanDir

-- `reflect.Method`; the receiver is the first input.
pub record Method : Type 0 where
  pub index : ℕ
  pub inputs : List ℕ
  pub outputs : List ℕ

-- `reflect.StructField`
pub record StructField : Type 0 where
  pub index : List ℕ
  pub type : ℕ

pub record TypeInfo : Type 0 where
  pub kind : Kind
  pub elem : ℕ
  pub chan_dir : ChanDir
  pub implements_context : Bool

-- The functions of package reflect that the builders call, and the types that they name. `upper` is
-- `unicode.ToUpper`; a method or field is found by the code points of its name.
pub record Reflect : Type 0 where
  pub type_at : ℕ → TypeInfo
  pub ptr_to : ℕ → ℕ
  pub recv_chan_of : ℕ → ℕ
  pub convertible_to : ℕ → ℕ → Bool
  pub method_by_name : ℕ → List ℕ → Option Method
  pub field_by_name : ℕ → List ℕ → Option StructField
  pub basic_type : GoKind → ℕ
  pub error_type : ℕ
  pub object_resolver_type : ℕ
  pub upper : ℕ → ℕ

abbrev pub kind_of : Reflect → ℕ → Kind
kind_of r t = (r.type_at t).kind

abbrev pub elem_of : Reflect → ℕ → ℕ
elem_of r t = (r.type_at t).elem
