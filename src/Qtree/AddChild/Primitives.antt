-- ===== src/Qtree/AddChild/Primitives.antt =====
-- Which fields `AddChild` takes for primitives.
use magellan.Base.{ℕ, String, ◌≡◌, arith, true, false, none, some}
use magellan.Ast.{TypeRef, named, non_null, list, FieldDefinition, ObjectDefinition, object}
use magellan.Types.{is_primitive}
use magellan.Qtree.Tree.{SchemaResolver}
use magellan.Qtree.AddChild.{
  select_field, strip_list, strip_non_null, ok, classify, select_on, select_in, select,
}

-- A named type, with the list outside the non-null if both are there.
pub data Plain (n : String) : TypeRef → Type 0 where
  plain : Plain n (named (some n))
  required : Plain n (non_null (named (some n)))
  plain_list : Plain n (list (named (some n)))
  required_list : Plain n (list (non_null (named (some n))))

module _ (r : SchemaResolver) (n : String) (p : is_primitive n ≡ true) where
  classify_named :
      classify r (named (some n))
      ≡ ok (record { ast = none; is_primitive = true; primitive_name = n })
  unfolding classify
  classify_named = rw p

  stripped :
      (ty : TypeRef)
      → Plain n ty
      → classify r (strip_non_null (strip_list ty))
        ≡ ok (record { ast = none; is_primitive = true; primitive_name = n })
  unfolding strip_non_null strip_list
  stripped ty plain = classify_named
  stripped ty required = classify_named
  stripped ty plain_list = classify_named
  stripped ty required_list = classify_named

  module _ (a id : ℕ) (name : String) (od : ObjectDefinition) (f : FieldDefinition)
      (parent : r.definition_at a ≡ some (object od))
      (there : select_field name od.fields ≡ some f) where
    -- On a parent that is an object: a field whose type is a primitive's name, that name required, or a
    -- list of one of these, is selected as a primitive of that name.
    pub select_primitive :
        Plain n f.type
        → select r (some a) id name
          ≡ ok (record { ast = none; is_primitive = true; primitive_name = n })
    unfolding select select_in select_on
    select_primitive h = rw (select, parent, select_in, select_on, there) (stripped f.type h)

    -- On a parent that is an object: a field whose type is a required list of a primitive's name is not
    -- selected as a primitive; if the schema resolves the list to the definition `d`, the field's
    -- node gets `d`.
    pub select_required_list :
        (d : ℕ)
        → f.type ≡ non_null (list (named (some n)))
        → r.lookup_type (list (named (some n))) ≡ some d
        → select r (some a) id name
          ≡ ok (record { ast = some d; is_primitive = false; primitive_name = "" })
    unfolding select select_in select_on strip_non_null strip_list classify
    select_required_list d ty e =
        rw (select, parent, select_in, select_on, there, ty) (ground (arith, e))
