-- ===== src/Tests/Variables.antt =====
-- The store of variables (qtree/varstore.go).
use magellan.Base.{
  ℕ, ◌+◌, ◌^◌, ◌<◌, ◌≡◌, ◌↔◌, refl, true, false, none, some, lookup, nat_key, is_some, arith,
  insert, delete, retain,
}
use magellan.Types.{kind_int}
use magellan.Qtree.VarStore
use magellan.Qtree.VarStore.{AstVariable, VariableStore, VariableReference, Primitive}
use magellan.Qtree.VarStore.Invariant.{IsValid, ctr_of, new_variable_store-IsValid}
use magellan.Qtree.VarStore.References

abbrev seven : AstVariable
seven = record {
  id = 1;
  value = record {
    kind = kind_int;
    bool_value = false;
    int_value = 7;
    float_value = 0;
    string_value = "";
  };
}

program : Unit {0}
unfolding VarStore.put VarStore.get VarStore.unsubscribe VarStore.garbage_collect
    VarStore.new_variable_store lookup insert delete retain nat_key
program = tt

abbrev one_variable : VariableStore
one_variable = VarStore.put VarStore.new_variable_store seven

one_variable-IsValid : IsValid one_variable
one_variable-IsValid =
    References.Reach-IsValid (References.next References.here (References.puts seven))
      new_variable_store-IsValid

-- A variable without references goes; one with a reference stays.
collected : lookup 1 (VarStore.garbage_collect one_variable).variables ≡ none
unfolding program
collected = refl

kept : lookup 1 (VarStore.garbage_collect (VarStore.get one_variable 1).0).variables ≡ some 0
unfolding program
kept = refl

Reach-IsValid_example : IsValid (VarStore.garbage_collect one_variable)
Reach-IsValid_example =
    References.Reach-IsValid
      (References.next (References.next References.here (References.puts seven))
        References.collects)
      new_variable_store-IsValid

collect_iff_example :
    (is_some (lookup 1 (VarStore.garbage_collect one_variable).variables) ≡ true)
    ↔ ∥ References.Held one_variable 1 ∥₁
collect_iff_example = References.collect_iff one_variable one_variable-IsValid 1

get-put_example :
    ((VarStore.put one_variable seven).refs ≡ one_variable.refs)
    × ((r : ℕ) × (vr : VariableReference) × ((VarStore.get (VarStore.put one_variable seven) 1).1
          ≡ some r)
        × (lookup r (VarStore.get (VarStore.put one_variable seven) 1).0.refs ≡ some vr)
        × (vr.id ≡ 1)
        × (vr.value ≡ VarStore.unpack_value seven.value)
        × (vr.is_done ≡ false))
get-put_example = References.get-put one_variable one_variable-IsValid seven

small : (p : ℕ) → ctr_of one_variable.vars p + 1 < 2 ^ 32
unfolding program
small p = grind arith
