-- ===== src/Execution/Model/Func/Scanned.antt =====
-- What is true of a resolver of execution/resolve_func.go once its signature has been checked.
use magellan.Base.{
  codes, ℕ, suc, String, ◌≡◌, ◌≢◌, ◌∙◌, Bool, true, false, Option-cases, inl, inr, List, [], ◌∷◌,
  insert, string_key, arith,
}
use magellan.Case.{to_pascal_case}
use magellan.Ast.Nodes.{ArgumentNode, FieldNode, Syntax}
use magellan.Execution.Reflect.{Reflect, elem_of, kind_of, same_kind, ptr}
use magellan.Execution.Model.{FuncArgField, Builder, built, Build, ◌>>=◌}
use magellan.Execution.Model.Grows.{bind-built}
use magellan.Execution.Model.Func.{
  find_resolver_func, match_fields, Scan, take_args, take_output, scan_arg, scan_args, live_result,
  plain_result, check_result,
}

-- A builder that leaves the state as it is.
abbrev pub Reads : {A : Type 0} → Build A → Type 0
Reads {A = A} m = (s : Builder) (a : A) (t : Builder) → m s ≡ built a t → t ≡ s

bind-Reads :
    {A B : Type 0} (m : Build A) (f : A → Build B)
    → Reads m
    → ((a : A) → Reads (f a))
    → Reads (m >>= f)
bind-Reads m f p q s b u h = let (a, t, e, k) = bind-built m f s b u h in q a t b u k ∙ p s a t e

pub find_resolver_func-Reads :
    (r : Reflect) (t : ℕ) (name : String) → Reads (find_resolver_func r t name)
unfolding find_resolver_func
find_resolver_func-Reads r t name s a u h = ground arith

match_fields-Reads :
    (r : Reflect) (syn : Syntax) (t : ℕ) (args : List ArgumentNode)
    (fields : List (String × FuncArgField))
    → Reads (match_fields r syn t args fields)
unfolding match_fields
match_fields-Reads r syn t [] fields s a u h = cc h
match_fields-Reads r syn t (arg ∷ args) fields s a u h =
    elim (Option-cases (r.field_by_name t (to_pascal_case r.upper (codes arg.name)))) [
      | inl e ↦ ground arith
      | inr (f, e) ↦
          let rest =
            match_fields-Reads r syn t args
              (insert arg.name
                (record { index = f.index; is_ptr = same_kind (kind_of r f.type) ptr }) fields)
              s a u in
          ground (arith, rest)
    ]

take_args-Reads :
    (r : Reflect) (syn : Syntax) (field : FieldNode) (i t : ℕ) (x : Scan)
    → Reads (take_args r syn field i t x)
unfolding take_args
take_args-Reads r syn field i t x =
    bind-Reads (match_fields r syn (elem_of r t) field.arguments []) _
      (match_fields-Reads r syn (elem_of r t) field.arguments []) (λ fields s a u h. cc h)

scan_arg-Reads :
    (r : Reflect) (syn : Syntax) (field : FieldNode) (i t : ℕ) (x : Scan)
    → Reads (scan_arg r syn field i t x)
unfolding scan_arg take_output
scan_arg-Reads r syn field i t x s a u h = ground (arith, take_args-Reads r syn field i t x s a u)

pub scan_args-Reads :
    (r : Reflect) (syn : Syntax) (field : FieldNode) (i : ℕ) (ts : List ℕ) (x : Scan)
    → Reads (scan_args r syn field i ts x)
unfolding scan_args
scan_args-Reads r syn field i [] x = λ s a u h. cc h
scan_args-Reads r syn field i (t ∷ ts) x =
    bind-Reads (scan_arg r syn field i t x) _ (scan_arg-Reads r syn field i t x)
      (λ y. scan_args-Reads r syn field (suc i) ts y)

-- A signature that passes: the state stays, and a live method has a context, an error for its only
-- result and no place in a mutation.
pub check_result-built :
    (r : Reflect) (serial : Bool) (outputs : List ℕ) (x y : Scan) (s t : Builder)
    → check_result r serial outputs x s ≡ built y t
    → (t ≡ s)
      × (y.resolver.output_chan_arg ≢ 0
          → (y.resolver.context_arg ≢ 0) × (y.resolver.returns_error ≡ true) × (serial ≡ false))
unfolding check_result live_result plain_result
check_result-built r serial [] x y s t h = ground arith
check_result-built r serial (a ∷ []) x y s t h = ground arith
check_result-built r serial (a ∷ b ∷ []) x y s t h = ground arith
check_result-built r serial (a ∷ b ∷ c ∷ cs) x y s t h = ground arith
