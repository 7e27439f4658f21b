-- ===== src/Qtree.antt =====
-- The query tree (qtree/): the variables, the nodes with their subscribers, and the operations on
-- the tree.
pub mod VarStore
pub mod Subs
pub mod Tree
pub mod AddChild
pub mod Dispose
pub mod Mutation
