-- ===== src/Tests/Query.antt =====
-- The query tree (qtree/qtree.go), on the schema of qtree/test/qtree_test.go.
use magellan.Base.{
  ℕ, zero, suc, ◌≡◌, ◌≢◌, refl, String, Bool, true, false, Option, none, some, List, [], ◌∷◌,
  lookup, nat_key, string_key, arith, insert, delete, retain, modify,
}
use magellan.Ast.{Definition, object, FieldDefinition, TypeRef, named, non_null, list}
use magellan.Types.{is_primitive, graphql_primitives}
use magellan.Qtree.VarStore
use magellan.Qtree.Subs.{next_change, send}
use magellan.Qtree.Tree.{
  SchemaResolver, id_exists, invalid_field, Tree, new_query_tree, next_update, set_error,
  mark_error, same_error, remove_child, erase, contains,
}
use magellan.Qtree.Tree.Shape.{view, alive_of}
use magellan.Qtree.AddChild.{
  QueryTreeNodeMsg, query_tree_node, end, child, add_child, prepare, prepare_at, conclude, is_taken,
  mint, select, classify, select_field, bind_arguments, ok, strip_list, strip_non_null,
}
use magellan.Qtree.AddChild.Shapes.{IsValid, add_child-IsValid}
use magellan.Qtree.AddChild.Outcomes
use magellan.Qtree.AddChild.Primitives
use magellan.Qtree.Dispose.{dispose, dispose_children, begin_dispose, end_dispose}
use magellan.Qtree.Dispose.Total
use magellan.Qtree.Dispose.Total.{dispose-Ends}
use magellan.Qtree.Mutation.{
  TreeMutation, subtree_add_child, subtree_delete, panicked, Applied, applied, sent, delete_at,
  add_at, apply_tree_mutation, apply_nodes, apply_node, put_all,
}
use magellan.Qtree.Mutation.Total.{Ends, new_query_tree-IsValid}

abbrev field : String → TypeRef → FieldDefinition
field name type = record { name = some name; type = type; arguments = [] }

abbrev person : Definition
person = object (record {
  name = some "Person";
  fields = field "name" (named (some "String")) ∷ field "height" (named (some "Int")) ∷ [];
})

abbrev root_query : Definition
root_query = object (record {
  name = some "RootQuery";
  fields = field "allPeople" (list (named (some "Person"))) ∷ [];
})

-- The root query stands at 0 and the person at 1.
abbrev definitions : ℕ → Option Definition
definitions zero = some root_query
definitions (suc zero) = some person
definitions _ = none

abbrev resolver : SchemaResolver
resolver = record { lookup_type = λ t. some 1; definition_at = definitions }

program : Unit {0}
unfolding add_child conclude prepare prepare_at is_taken mint select classify select_field
    bind_arguments lookup insert delete retain modify nat_key string_key next_update next_change
    send new_query_tree is_primitive graphql_primitives VarStore.new_variable_store set_error
    mark_error same_error dispose dispose_children begin_dispose end_dispose remove_child erase
    contains VarStore.garbage_collect sent delete_at add_at apply_tree_mutation apply_nodes
    apply_node put_all strip_list strip_non_null
program = tt

abbrev leaf : ℕ → String → QueryTreeNodeMsg
leaf id name = query_tree_node id name [] end

abbrev people : QueryTreeNodeMsg
people = query_tree_node 1 "allPeople" [] (child (leaf 2 "name") (child (leaf 3 "height") end))

abbrev tree : Tree
tree = (add_child resolver (new_query_tree 0) 0 people).0

basics : (add_child resolver (new_query_tree 0) 0 people).1 ≡ none
unfolding program
basics = refl

-- The error of the test for schema errors.
schema_errors :
    (add_child resolver
      (new_query_tree 0)
      0
      (query_tree_node 1 "allPeople" [] (child (leaf 2 "names") end))).0.err_ch
    ≡ record { query_node_id = 2; error = invalid_field "names" (some "Person") } ∷ []
unfolding program
schema_errors = refl

abbrev removal : TreeMutation
removal = record { variables = []; node_mutation = subtree_delete 1 ∷ [] }

tree-IsValid : IsValid tree
tree-IsValid = add_child-IsValid resolver (new_query_tree 0) 0 people (new_query_tree-IsValid 0)

abbrev ids : Applied → List (ℕ × ℕ)
ids (applied t) = t.root_node_map
ids _ = []

-- The deletion of node 1 leaves its second child in the map.
second_child_stays : ids (apply_tree_mutation resolver tree removal) ≡ (3, 3) ∷ (0, 0) ∷ []
unfolding program
second_child_stays = refl

abbrev alive_at : Applied → ℕ → Bool
alive_at (applied t) q = view alive_of t q
alive_at _ q = false

second_child_alive : alive_at (apply_tree_mutation resolver tree removal) 3 ≡ true
unfolding program
second_child_alive = refl

-- Below the root an id may come twice.
same_id_twice : (add_child resolver tree 1 (leaf 2 "height")).1 ≡ none
unfolding program
same_id_twice = refl

same_id_at_root : add_child resolver tree 0 (leaf 2 "allPeople") ≡ (tree, some (id_exists 2))
unfolding program
same_id_at_root = refl

-- A second tree of people is added before the first one goes, and the node of an addition may be missing.
abbrev additions : TreeMutation
additions = record {
  variables = [];
  node_mutation = subtree_add_child 0 (some (leaf 4 "allPeople")) ∷ subtree_delete 1 ∷ [];
}

abbrev unset : TreeMutation
unset = record { variables = []; node_mutation = subtree_add_child 0 none ∷ [] }

unset_panics : apply_tree_mutation resolver tree unset ≡ panicked
unfolding program
unset_panics = refl

add_child-IsValid_example : IsValid (add_child resolver (new_query_tree 0) 0 people).0
add_child-IsValid_example =
    add_child-IsValid resolver (new_query_tree 0) 0 people (new_query_tree-IsValid 0)

dispose-Ends_example : Total.Ends 0 1 4 tree
unfolding program
dispose-Ends_example = dispose-Ends 4 0 1 tree tree-IsValid (omega arith) refl (omega arith)

add_child_displaces_example :
    (lookup 2 (add_child resolver tree 1 (query_tree_node 2 "height" [] end)).0.root_node_map
      ≡ some 4)
    × ◌≢◌ {A = ℕ} 2 4
unfolding program
add_child_displaces_example =
    Outcomes.add_child_displaces resolver tree 1 2 "height" [] _ 2 refl refl refl (omega arith)

-- The fields of an object at 2.
abbrev counted : Definition
counted = object (record {
  name = some "Counted";
  fields =
      field "ids" (list (non_null (named (some "Int"))))
      ∷ field "sizes" (non_null (list (named (some "Int"))))
      ∷ [];
})

abbrev counter : SchemaResolver
counter = record { lookup_type = λ t. some 1; definition_at = λ a. some counted }

select_primitive_example :
    select counter (some 2) 4 "ids"
    ≡ ok (record { ast = none; is_primitive = true; primitive_name = "Int" })
unfolding program
select_primitive_example =
    Primitives.select_primitive counter "Int" refl 2 4 "ids" _ _ refl refl Primitives.required_list

select_required_list_example :
    select counter (some 2) 4 "sizes"
    ≡ ok (record { ast = some 1; is_primitive = false; primitive_name = "" })
unfolding program
select_required_list_example =
    Primitives.select_required_list counter "Int" refl 2 4 "sizes" _ _ refl refl 1 refl refl
