-- ===== src/Execution.antt =====
-- The execution of queries (execution/): the contexts that the resolvers share, and the resolvers
-- that are built from the schema and the Go types.
pub mod Value
pub mod Context
pub mod Reflect
pub mod Model
pub mod Run
