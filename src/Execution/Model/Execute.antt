-- ===== src/Execution/Model/Execute.antt =====
-- `ValidateResolverInstance` and `Execute` of execution/model.go. A resolver instance is known by its
-- type, which the nil interface does not have.
use magellan.Base.{ℕ, Bool, Option, none, some, ◌==◌, if◌then◌else◌}
use magellan.Qtree.Tree.{Tree}
use magellan.Execution.Context.{Execution, new_root_resolver_context, set_query_node}
use magellan.Execution.Model.Build.{Model}

pub data Validation : Type 0 where
  valid : Validation
  mismatch : ℕ → ℕ → Validation
  panicked : Validation

-- The error names the type, which panics for the nil interface.
unfoldable pub validate_resolver_instance : Model → Option ℕ → Validation
validate_resolver_instance m none = panicked
validate_resolver_instance m (some t) =
    if t == m.root_resolver_type then valid else mismatch t m.root_resolver_type

-- `ExecutionContext`, with the tree of resolver contexts that stands for its writer's input.
-- `root_resolver` is the resolver that has been started on the root context.
pub record ExecutionContext : Type 0 where
  pub execution : Execution
  pub qnode_root : Tree
  pub root_resolver : ℕ

pub data Executed : Type 0 where
  started : ExecutionContext → Executed
  refused : ℕ → ℕ → Executed
  panicked : Executed

unfoldable pub execute : Model → Tree → Option ℕ → Bool → Executed
unfolding validate_resolver_instance
execute m tree instance serial = elim (validate_resolver_instance m instance) [
  | panicked ↦ panicked
  | mismatch t u ↦ refused t u
  | valid ↦ started (record {
    execution = set_query_node (new_root_resolver_context serial tree.root) 0 tree.root;
    qnode_root = tree;
    root_resolver = m.root_resolver;
  })
]
