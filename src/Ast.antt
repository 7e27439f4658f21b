-- ===== src/Ast.antt =====
-- The syntax trees of graphql-go (its package language/ast), as far as the source reads them.
-- A type definition is shared by pointer in the source, so it is named by its address here. A name
-- is absent where the source tests the pointer for nil.
pub mod Nodes
use magellan.Base.{ℕ, String, List, Option}

-- `ast.Type`. `definition` is a type definition in the place of a type; `nil` the nil interface.
pub data TypeRef : Type 0 where
  named : Option String → TypeRef
  non_null : TypeRef → TypeRef
  list : TypeRef → TypeRef
  definition : ℕ → TypeRef
  nil : TypeRef

pub record InputValueDefinition : Type 0 where
  pub name : String
  pub type : TypeRef
  pub default_value : Option String

pub record FieldDefinition : Type 0 where
  pub name : Option String
  pub type : TypeRef
  pub arguments : List InputValueDefinition

pub record ObjectDefinition : Type 0 where
  pub name : Option String
  pub fields : List FieldDefinition

-- `schema { query: T }` is one `OperationTypeDefinition`.
pub record OperationTypeDefinition : Type 0 where
  pub operation : String
  pub type : TypeRef

-- The nodes of a document.
pub data Definition : Type 0 where
  schema : List OperationTypeDefinition → Definition
  union : Option String → Definition
  object : ObjectDefinition → Definition
  enum : Option String → List String → Definition
  scalar : Option String → Definition
  interface : Option String → Definition
  input_object : Option String → Definition
  operation_definition : Option String → Definition
  fragment_definition : Option String → Definition
  other : Definition
