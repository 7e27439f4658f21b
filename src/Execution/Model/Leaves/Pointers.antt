-- ===== src/Execution/Model/Leaves/Pointers.antt =====
-- Where the loop over pointers of execution/resolve_primitive.go ends.
use magellan.Base.{
  ℕ, zero, suc, ◌≡◌, refl, true, Bool-cases, none, some, inl, inr, if◌then◌else◌, arith,
}
use magellan.Execution.Reflect.{Kind, ptr, same_kind, Reflect, kind_of, elem_of}
use magellan.Execution.Model.Leaves.{ptr_depth}

-- The loop looks at the same type in each round.
ptr_depth-none :
    (r : Reflect) (fuel value : ℕ) (k : Kind) (depth : ℕ)
    → same_kind k ptr ≡ true
    → same_kind (kind_of r (elem_of r value)) ptr ≡ true
    → ptr_depth r fuel value k depth ≡ none
unfolding ptr_depth
ptr_depth-none r zero value k depth h e = refl
ptr_depth-none r (suc fuel) value k depth h e =
    let rest = ptr_depth-none r fuel value (kind_of r (elem_of r value)) (suc depth) e e in
    ground (arith, h, rest)

-- Two rounds are enough for the loop over pointers: a type that is not a pointer has depth 0, and a
-- pointer to one has depth 1. For a pointer to a pointer the loop never ends, however many rounds it
-- has.
pub ptr_depth-terminates :
    (r : Reflect) (more value : ℕ)
    → ptr_depth r (suc (suc more)) value (kind_of r value) 0 ≡ (
        if same_kind (kind_of r value) ptr
        then if same_kind (kind_of r (elem_of r value)) ptr
          then none
          else some (1, kind_of r (elem_of r value))
        else some (0, kind_of r value))
unfolding ptr_depth
ptr_depth-terminates r more value =
    elim (Bool-cases (same_kind (kind_of r (elem_of r value)) ptr)) [
      | inl e ↦ ground (arith, e, ptr_depth-none r more value (kind_of r (elem_of r value)) 2 e e)
      | inr e ↦ ground (arith, e)
    ]
