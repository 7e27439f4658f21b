-- ===== src/Execution/Model/Fields/Sound.antt =====
-- The builders of fields and objects keep the state of the model builder sound.
use mathlib.Core.Path.{subst}
use magellan.Base.{
  ℕ, ◌<◌, ◌≡◌, ◌≢◌, refl, sym, ap, ◌∙◌, true, false, Bool-cases, Option-cases, none, inl, inr, List,
  [], ◌∷◌, String, All, modify, string_key, nat_key, arith, if◌then◌else◌,
}
use magellan.Ast.Nodes.{FieldNode, Syntax}
use magellan.Execution.Reflect.{Method, Reflect}
use magellan.Execution.Model.{
  TypeResolverPair, ObjectResolver, func, Builder, built, ◌>>=◌, ◌>>◌, write, return,
}
use magellan.Execution.Model.Grows.{HasResolver, MemoBelow, Grows, Sound, bind-built}
use magellan.Execution.Model.Chains.{then_alloc}
use magellan.Execution.Model.Func.{
  find_resolver_func, Scan, start_scan, scan_args, without_receiver, check_result,
}
use magellan.Execution.Model.Func.Scanned.{
  find_resolver_func-Reads, scan_args-Reads, check_result-built,
}
use magellan.Execution.Model.Leaves.{Call, pair_of, serial_only}
use magellan.Execution.Model.Leaves.Sound.{SoundCall}
use magellan.Execution.Model.Fields.Filled.{
  Standing, Filled, Bound, Filled-same, Filled-trans, Filled-other, Filled-set_field,
  Filled-mark_array,
}
use magellan.Execution.Model.Fields.{
  result_of, build_func, is_list_field, set_field, mark_array, field_owner, build_field, field_name,
  build_fields,
}

module _ (r : Reflect) (syn : Syntax) (call : Call) (sound : SoundCall syn call) where
  result_of-Sound :
      (u : ℕ) (x : Scan) (s : Builder) (a : ℕ) (t : Builder)
      → (x.resolver.output_chan_arg ≢ 0
          → (x.resolver.context_arg ≢ 0)
            × (x.resolver.returns_error ≡ true)
            × (s.serial_only ≡ false))
      → MemoBelow s
      → result_of call u x s ≡ built a t
      → Grows syn none s t × (a < t.next)
  unfolding result_of
  result_of-Sound u x s a t c below h = elim (Option-cases x.output) [
    | inl e ↦ absurd (ground arith)
    | inr (out, e) ↦
        then_alloc syn (call (pair_of u out))
          (λ f. func (record x.resolver { result_type = out; result_resolver = f })) s a t
          (sound (pair_of u out)) (λ f n k. (k, c)) below (ground (arith, h))
  ]

  build_func-Sound :
      (m : Method) (name : String) (field : FieldNode)
      → Sound syn (build_func r syn call m name field)
  unfolding build_func
  build_func-Sound m name field s a t below h =
      let (x, s1, p1, h1) =
        bind-built (scan_args r syn field 1 (without_receiver m.inputs) (start_scan m name))
          (λ x. serial_only >>= λ b. check_result r b m.outputs x >>= result_of call field.type) s a
          t h in
      let (y, s2, p2, h2) =
        bind-built (check_result r s1.serial_only m.outputs x) (result_of call field.type) s1 a t
          h1 in
      let e1 : s1 ≡ s =
        scan_args-Reads r syn field 1 (without_receiver m.inputs) (start_scan m name) s x s1 p1 in
      let (e2, c) = check_result-built r s1.serial_only m.outputs x y s1 s2 p2 in
      let e3 : s2 ≡ s = e2 ∙ e1 in
      result_of-Sound field.type y s a t
        (λ l. let (d, f, g) = c l in (d, f, ap (λ z. z.serial_only) (sym e1) ∙ g)) below
        (ap (λ z. result_of call field.type y z) (sym e3) ∙ h2)

  -- What follows the field's resolver `f`.
  mark-Filled :
      (a : ℕ) (field : FieldNode) (name : String) (f : ℕ) (o : ObjectResolver) (s : Builder)
      (x : Unit {0}) (t : Builder)
      → Standing a o s
      → f < s.next
      → (write a (set_field name f)
            >> (if is_list_field syn field.type then write a (mark_array name) else return tt))
          s
        ≡ built x t
      → (p : ObjectResolver) × Filled syn a o p s t × Bound p name
  unfolding write
  mark-Filled a field name f o s x t h below e =
      let s1 : Builder = record s { heap = modify a (set_field name f) s.heap } in
      let (p, y, b) = Filled-set_field syn a o name f s s1 h below refl in
      elim (Bool-cases (is_list_field syn field.type)) [
        | inl l ↦
            let (q, z) = Filled-mark_array syn a p name s1 t y.stands (ground (arith, e, l)) in
            (q, Filled-trans syn a o p q s s1 t h.below y z, z.keeps name b)
        | inr l ↦ Filled-set_field syn a o name f s t h below (ground (arith, e, l))
      ]

  build_field-Filled :
      (pair : TypeResolverPair) (a : ℕ) (field : FieldNode) (name : String) (o : ObjectResolver)
      (s : Builder) (x : Unit {0}) (t : Builder)
      → Standing a o s
      → MemoBelow s
      → build_field r syn call pair a field name s ≡ built x t
      → (p : ObjectResolver) × Filled syn a o p s t × Bound p name
  unfolding build_field
  build_field-Filled pair a field name o s x t h memo e =
      let (m, s1, p1, e1) =
        bind-built (find_resolver_func r (field_owner r pair name) name) _ s x t e in
      let (f, s2, p2, e2) = bind-built (build_func r syn call m name field) _ s1 x t e1 in
      let q : s1 ≡ s = find_resolver_func-Reads r (field_owner r pair name) name s m s1 p1 in
      let (g, below) =
        build_func-Sound m name field s f s2 memo
          (ap (build_func r syn call m name field) (sym q) ∙ p2) in
      let y : Filled syn a o o s s2 = Filled-other syn a o s s2 h g in
      let (q, z, b) = mark-Filled a field name f o s2 x t y.stands below e2 in
      (q, Filled-trans syn a o o q s s2 t h.below y z, b)

  pub build_fields-Filled :
      (pair : TypeResolverPair) (a : ℕ) (fields : List FieldNode) (o : ObjectResolver) (s : Builder)
      (x : Unit {0}) (t : Builder)
      → Standing a o s
      → MemoBelow s
      → build_fields r syn call pair a fields s ≡ built x t
      → (p : ObjectResolver) × Filled syn a o p s t × All (HasResolver p.field_resolvers) fields
  unfolding build_fields
  build_fields-Filled pair a [] o s x t h memo e =
      let k : s ≡ t = cc e in (o, subst (Filled syn a o o s) k (Filled-same syn a o s h), tt)
  build_fields-Filled pair a (field ∷ fields) o s x t h memo e =
      elim (Option-cases (field_name field)) [
        | inl n ↦
            let (p, y, has) =
              build_fields-Filled pair a fields o s x t h memo (ground (arith, e, n)) in
            (p, y, ((λ name k. absurd (ground (arith, n, k))), has))
        | inr (name, n) ↦
            let (u, s1, p1, e1) =
              bind-built (build_field r syn call pair a field name)
                (λ _. build_fields r syn call pair a fields) s x t (ground (arith, e, n)) in
            let (p, y, b) = build_field-Filled pair a field name o s u s1 h memo p1 in
            let (q, z, has) =
              build_fields-Filled pair a fields p s1 x t y.stands (y.grows.memo memo) e1 in
            (
              q,
              Filled-trans syn a o p q s s1 t h.below y z,
              ((λ name' k. ground (arith, z.keeps name b, n, k)), has),
            )
      ]
