-- ===== src/Execution/Model/Build/Complete.antt =====
-- What stands once execution/model.go has built a model, and what `buildResolver` remembers.
use mathlib.Core.Path.{subst}
use magellan.Base.{
  ℕ, zero, suc, ◌<◌, ◌≡◌, refl, sym, ap, ◌∙◌, Bool, Bool-cases, Option-cases, Option, none, some,
  inl, inr, ◌⊎◌, String, lookup, insert, string_key, nat_key, lookup-insert, lookup-nil, arith,
}
use magellan.Ast.{TypeRef}
use magellan.Ast.Nodes.{Node, Syntax}
use magellan.Types.{is_ast_primitive}
use magellan.Execution.Reflect.{Reflect}
use magellan.Execution.Model.{
  TypeResolverPair, pair_key, Resolver, Builder, built, ◌>>◌, remember, return,
}
use magellan.Execution.Model.Grows.{
  IsComplete, MemoBelow-remember, Grows, Sound, Grows-same, bind-built,
}
use magellan.Execution.Model.Leaves.{Call, pair_of}
use magellan.Execution.Model.Leaves.Sound.{
  SoundCall, build_primitive-Sound, build_list-Sound, build_enum-Sound,
}
use magellan.Execution.Model.Fields.Objects.{build_object-Sound}
use magellan.Execution.Model.Build.{
  follow_type, build_follow, by_node, build_step, build, new_builder, Model, build_model,
}

-- A pair is remembered, or the switch has built it.
build_step-cases :
    (r : Reflect) (syn : Syntax) (fuel : ℕ) (call : Call) (pair : TypeResolverPair) (s : Builder)
    (a : ℕ) (t : Builder)
    → build_step r syn fuel call pair s ≡ built a t
    → ((lookup pair s.resolvers ≡ some a) × (t ≡ s))
      ⊎ ((u : Builder) × (by_node r syn fuel call pair (syn.node_at pair.type) s ≡ built a u)
          × (t ≡ record u { resolvers = insert pair a u.resolvers }))
unfolding build_step remember
build_step-cases r syn fuel call pair s a t h = elim (Option-cases (lookup pair s.resolvers)) [
  | inr (b, e) ↦ let j : b ≡ a = ground (arith, h, e) in inl (e ∙ ap some j, ground (arith, h, e))
  | inl e ↦
      let (b, u, p, q) =
        bind-built (by_node r syn fuel call pair (syn.node_at pair.type))
          (λ b. remember pair b >> return b) s a t (ground (arith, h, e)) in
      let j : b ≡ a = cc q in
      let k : record u { resolvers = insert pair b u.resolvers } ≡ t = cc q in
      inr (
        u,
        p ∙ ap (λ x. built x u) j,
        sym k ∙ ap (λ x. record u { resolvers = insert pair x u.resolvers }) j,
      )
]

module _ (r : Reflect) (syn : Syntax) (call : Call) (sound : SoundCall syn call) where
  follow_type-Sound :
      (name : Option String) (pair : TypeResolverPair) → Sound syn (follow_type syn call name pair)
  unfolding follow_type
  follow_type-Sound name pair s a t below h = elim (Option-cases (syn.lookup_type pair.type)) [
    | inl e ↦ absurd (ground arith)
    | inr (u, e) ↦ sound (pair_of u pair.resolver_type) s a t below (ground (arith, h, e))
  ]

  build_follow-Sound :
      (fuel : ℕ) (pair : TypeResolverPair) (name : Option String)
      → Sound syn (build_follow r syn fuel call pair name)
  unfolding build_follow
  build_follow-Sound fuel pair none s a t below h = follow_type-Sound none pair s a t below h
  build_follow-Sound fuel pair (some name) s a t below h =
      elim (Bool-cases (is_ast_primitive (TypeRef.named (some name)))) [
        | inl e ↦
            build_primitive-Sound r syn call sound fuel pair.resolver_type pair.type name s a t
              below (ground (arith, h, e))
        | inr e ↦ follow_type-Sound (some name) pair s a t below (ground (arith, h, e))
      ]

  by_node-Sound :
      (fuel : ℕ) (pair : TypeResolverPair) (node : Option Node)
      → syn.node_at pair.type ≡ node
      → Sound syn (by_node r syn fuel call pair node)
  unfolding by_node
  by_node-Sound fuel pair none e = λ s a t below h. absurd (cc h)
  by_node-Sound fuel pair (some (Node.named name)) e = build_follow-Sound fuel pair name
  by_node-Sound fuel pair (some (Node.non_null u)) e = sound (pair_of u pair.resolver_type)
  by_node-Sound fuel pair (some (Node.list u)) e = build_list-Sound r syn call sound pair u
  by_node-Sound fuel pair (some (Node.object d)) e =
      build_object-Sound r syn call sound fuel pair d e
  by_node-Sound fuel pair (some (Node.enum values)) e =
      build_enum-Sound r syn call sound pair.resolver_type values
  by_node-Sound fuel pair (some Node.other) e = λ s a t below h. absurd (cc h)

  build_step-Sound :
      (fuel : ℕ) (pair : TypeResolverPair) → Sound syn (build_step r syn fuel call pair)
  unfolding build_step remember
  build_step-Sound fuel pair s a t below h = elim (build_step-cases r syn fuel call pair s a t h) [
    | inl (e, k) ↦ (
      subst (Grows syn none s) (sym k) (Grows-same syn none s),
      ground (arith, k, below pair a e),
    )
    | inr (u, p, k) ↦
        let (g, old) = by_node-Sound fuel pair (syn.node_at pair.type) refl s a u below p in
        (
          subst (Grows syn none s) (sym k) (record {
            serial = g.serial;
            more = g.more;
            kept = g.kept;
            made = g.made;
            memo = λ m. MemoBelow-remember pair a u old (g.memo m);
          }),
          ground (arith, k, old),
        )
  ]

build-Sound :
    (r : Reflect) (syn : Syntax) (fuel : ℕ) (pair : TypeResolverPair)
    → Sound syn (build r syn fuel pair)
unfolding build
build-Sound r syn zero pair = λ s a t below h. absurd (cc h)
build-Sound r syn (suc fuel) pair =
    build_step-Sound r syn (build r syn fuel) (build-Sound r syn fuel) (suc fuel) pair

-- Every resolver of a model that `build_model` returns is complete: it refers only to resolvers that
-- stand, a list has the resolver of its elements, an object one for each named field of its
-- definition and for `__typename`, a method with an output channel has a context and gives an error,
-- and a serial model has no such method, no channel of values and no list from a channel. The root is
-- one of them, and the model has the type and the mode that it was built for.
pub build_model-IsComplete :
    (r : Reflect) (syn : Syntax) (fuel : ℕ) (node t : ℕ) (serial : Bool) (m : Model) (u : Builder)
    → build_model r syn fuel (some node) (some t) serial ≡ built m u
    → (m.root_resolver < u.next)
      × ((a : ℕ)
          → a < u.next
          → (x : Resolver) × (lookup a u.heap ≡ some x) × IsComplete syn serial u.next x)
      × (m.root_resolver_type ≡ t)
      × (m.serial_only ≡ serial)
unfolding build_model
build_model-IsComplete r syn fuel node t serial m u h =
    let (a, v, p, q) =
      bind-built (build r syn fuel (pair_of node t)) _ (new_builder serial) m u h in
    let (g, below) =
      build-Sound r syn fuel (pair_of node t) (new_builder serial) a v
        (λ pair b e. absurd (ground (arith, e, lookup-nil {V = ℕ} pair))) p in
    let k : v ≡ u = cc q in
    let j : record { root_resolver = a; root_resolver_type = t; serial_only = serial } ≡ m = cc q in
    (
      ground (arith, k, j, below),
      (λ b l.
          let (x, at, c) = g.made b (omega arith) (ground (arith, k, l)) in
          (
            x,
            ap (λ y. lookup b y.heap) (sym k) ∙ at,
            subst (λ y. IsComplete syn serial y.next x) k
                (subst (λ y. IsComplete syn y v.next x) g.serial c),
          )),
      ground (arith, j),
      ground (arith, j),
    )

-- A pair that has been built is built again as the same resolver, with any fuel, and the state stays
-- as it is.
pub build-again :
    (r : Reflect) (syn : Syntax) (fuel more : ℕ) (pair : TypeResolverPair) (s t : Builder) (a : ℕ)
    → build r syn fuel pair s ≡ built a t
    → build r syn (suc more) pair t ≡ built a t
unfolding build build_step
build-again r syn zero more pair s t a h = absurd (cc h)
build-again r syn (suc fuel) more pair s t a h =
    let known : lookup pair t.resolvers ≡ some a =
      elim (build_step-cases r syn (suc fuel) (build r syn fuel) pair s a t h) [
        | inl (e, k) ↦ ap (λ x. lookup pair x.resolvers) k ∙ e
        | inr (u, p, k) ↦ ground (arith, k, lookup-insert pair pair a u.resolvers)
      ] in
    ground (arith, known)
