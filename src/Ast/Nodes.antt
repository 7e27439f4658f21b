-- ===== src/Ast/Nodes.antt =====
-- The syntax trees of graphql-go for code that compares nodes by pointer: a node is an address, and
-- `Syntax` reads what stands there. `lookup_type` is the interface `ASTLookup` of execution/model.go.
use magellan.Base.{ℕ, String, List, Option}

pub record ArgumentNode : Type 0 where
  pub name : String
  pub type : ℕ

pub record FieldNode : Type 0 where
  pub name : Option String
  pub type : ℕ
  pub arguments : List ArgumentNode

pub record ObjectNode : Type 0 where
  pub name : Option String
  pub fields : List FieldNode

-- `ast.Node`, in the kinds that `buildResolver` tells apart.
pub data Node : Type 0 where
  named : Option String → Node
  non_null : ℕ → Node
  list : ℕ → Node
  object : ObjectNode → Node
  enum : List String → Node
  other : Node

-- `string_ref` is the node `stringTypeRef` of execution/resolve_enum.go, whose name is `String`.
pub record Syntax : Type 0 where
  pub node_at : ℕ → Option Node
  pub lookup_type : ℕ → Option ℕ
  pub string_ref : ℕ
