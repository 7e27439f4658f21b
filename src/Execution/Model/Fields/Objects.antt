-- ===== src/Execution/Model/Fields/Objects.antt =====
-- The builder of objects keeps the state of the model builder sound.
use mathlib.Core.Path.{subst}
use magellan.Base.{
  ℕ, ◌≡◌, true, Option-cases, some, inl, inr, List, [], ◌∷◌, String, All, lookup, is_some,
  string_key, nat_key, lookup-insert, lookup-nil, arith,
}
use magellan.Ast.Nodes.{FieldNode, ObjectNode, Node, Syntax}
use magellan.Execution.Reflect.{Reflect}
use magellan.Execution.Model.{
  TypeResolverPair, ObjectResolver, object, Builder, alloc, write, remember,
}
use magellan.Execution.Model.Grows.{
  HasResolver, MemoBelow, CompleteAt, Sound, Grows-close, bind-built,
}
use magellan.Execution.Model.Chains.{opened, MemoBelow-opened}
use magellan.Execution.Model.Leaves.{Call, build_primitive}
use magellan.Execution.Model.Leaves.Sound.{SoundCall, build_primitive-Sound}
use magellan.Types.{go_string}
use magellan.Execution.Model.Fields.Sound.{build_fields-Filled}
use magellan.Execution.Model.Fields.Filled.{
  Standing, Filled, Bound, Filled-trans, Filled-other, Filled-set_field,
}
use magellan.Execution.Model.Fields.{build_fields, build_named_object, build_object}

HasResolver-keeps :
    (m n : List (String × ℕ)) (fields : List FieldNode)
    → ((name : String) → is_some (lookup name m) ≡ true → is_some (lookup name n) ≡ true)
    → All (HasResolver m) fields
    → All (HasResolver n) fields
HasResolver-keeps m n [] h a = tt
HasResolver-keeps m n (f ∷ fs) h (a, b) =
    ((λ name k. h name (a name k)), HasResolver-keeps m n fs h b)

-- A resolver that is filled is complete, if it has its fields and `__typename`.
closed :
    (syn : Syntax) (a : ℕ) (o p : ObjectResolver) (d : ObjectNode) (s t : Builder)
    → Filled syn a o p s t
    → syn.node_at o.pair.type ≡ some (Node.object d)
    → All (HasResolver p.field_resolvers) d.fields
    → Bound p "__typename"
    → CompleteAt syn t a
closed syn a o p d s t f e has b = (
  object p,
  f.stands.at,
  (
    f.stands.refs,
    (λ d' k.
        let same : d ≡ d' = ground (arith, e, k, f.pair) in
        subst (λ x. All (HasResolver p.field_resolvers) x.fields) same has),
    b,
  ),
)

abbrev empty_object : TypeResolverPair → String → ObjectResolver
empty_object pair name = record {
  pair = pair;
  type_name = name;
  field_resolvers = [];
  array_fields = [];
}

module _ (r : Reflect) (syn : Syntax) (call : Call) (sound : SoundCall syn call) where
  build_named_object-Sound :
      (fuel : ℕ) (pair : TypeResolverPair) (d : ObjectNode) (name : String)
      → syn.node_at pair.type ≡ some (Node.object d)
      → Sound syn (build_named_object r syn fuel call pair d name)
  unfolding build_named_object alloc remember write
  build_named_object-Sound fuel pair d name node s a t below h =
      let o : ObjectResolver = empty_object pair name in
      let s1 : Builder = opened pair (object o) s in
      let stands : Standing s.next o s1 = record {
        at = ground (arith, lookup-insert s.next s.next (object o) s.heap);
        below = omega arith;
        refs = λ n x e. absurd (ground (arith, e, lookup-nil {V = ℕ} n));
      } in
      let (x, s2, p1, e1) = bind-built (build_fields r syn call pair s.next d.fields) _ s1 a t h in
      let (f, s3, p2, e2) =
        bind-built (build_primitive r fuel call (r.basic_type go_string) syn.string_ref "String") _
          s2 a t e1 in
      let memo : MemoBelow s1 = MemoBelow-opened pair (object o) s below in
      let (p, y, has) =
        build_fields-Filled r syn call sound pair s.next d.fields o s1 x s2 stands memo p1 in
      let (g, old) =
        build_primitive-Sound r syn call sound fuel (r.basic_type go_string) syn.string_ref "String"
          s2 f s3 (y.grows.memo memo) p2 in
      let y2 : Filled syn s.next p p s2 s3 = Filled-other syn s.next p s2 s3 y.stands g in
      let (q, z, b) = Filled-set_field syn s.next p "__typename" f s3 t y2.stands old (cc e2) in
      let all : Filled syn s.next o q s1 t =
        Filled-trans syn s.next o p q s1 s2 t stands.below y
          (Filled-trans syn s.next p p q s2 s3 t y.stands.below y2 z) in
      let k : a ≡ s.next = cc e2 in
      (
        Grows-close syn pair (object o) s t all.grows (
            closed syn s.next o q d s1 t all node
              (HasResolver-keeps p.field_resolvers q.field_resolvers d.fields z.keeps has) b),
        ground (arith, k, all.stands.below),
      )

  pub build_object-Sound :
      (fuel : ℕ) (pair : TypeResolverPair) (d : ObjectNode)
      → syn.node_at pair.type ≡ some (Node.object d)
      → Sound syn (build_object r syn fuel call pair d)
  unfolding build_object
  build_object-Sound fuel pair d node s a t below h = elim (Option-cases d.name) [
    | inl e ↦ absurd (ground arith)
    | inr (name, e) ↦
        build_named_object-Sound fuel pair d name node s a t below (ground (arith, h, e))
  ]
