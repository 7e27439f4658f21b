-- ===== src/Execution/Model/Leaves/Sound.antt =====
-- The builders of lists, enums, channels and primitives keep the state of the model builder sound.
use magellan.Base.{
  ℕ, ◌<◌, ◌≡◌, refl, Bool-cases, Option-cases, none, some, inl, inr, List, String, lookup,
  string_key, arith,
}
use magellan.Ast.Nodes.{Syntax}
use magellan.Types.{
  go_int, go_string, GoKind, ProtoKind, graphql_primitives, graphql_primitives_types,
  graphql_primitives_proto_kinds,
}
use magellan.Execution.Reflect.{Kind, Reflect, basic, chan, slice, ptr, same_kind, kind_of, elem_of}
use magellan.Execution.Model.{
  TypeResolverPair, EnumResolver, Resolver, list, chan_list, enum, chan_value, primitive, Builder,
  built, alloc, remember,
}
use magellan.Execution.Model.Grows.{IsComplete, MemoBelow, Grows, Sound}
use magellan.Execution.Model.Chains.{alloc-Sound, then_alloc, fill-Sound}
use magellan.Execution.Model.Leaves.{
  Call, pair_of, strip_ptr, dir_is_recv, live_value, build_chan_value, ptr_depth, make_primitive,
  count_ptrs, build_primitive, set_elem, fill_list, wrong_direction, chan_or_slice, build_list,
  fill_enum, by_name, by_index, build_enum,
}

abbrev pub SoundCall : Syntax → Call → Type 0
SoundCall syn call = (pair : TypeResolverPair) → Sound syn (call pair)

module _ (r : Reflect) (syn : Syntax) (call : Call) (sound : SoundCall syn call) where
  build_chan_value-Sound : (value gtyp : ℕ) → Sound syn (build_chan_value r call value gtyp)
  unfolding build_chan_value live_value
  build_chan_value-Sound value gtyp s a t below h = elim (Bool-cases s.serial_only) [
    | inl e ↦ absurd (ground arith)
    | inr e ↦ elim (Bool-cases (dir_is_recv (r.type_at value).chan_dir)) [
      | inl d ↦
          then_alloc syn (call (pair_of gtyp (elem_of r value))) chan_value s a t
            (sound (pair_of gtyp (elem_of r value))) (λ x n k. (k, e)) below (ground (arith, h))
      | inr d ↦ absurd (ground arith)
    ]
  ]

  make_primitive-Sound :
      (value : ℕ) (g k : GoKind) (p : ProtoKind) (depth : ℕ) (vkind : Kind)
      → Sound syn (make_primitive r value g k p depth vkind)
  unfolding make_primitive
  make_primitive-Sound value g k p depth vkind s a t below h =
      elim (Bool-cases (same_kind (basic g) vkind)) [
        | inl e ↦
            alloc-Sound syn
              (primitive (record { ptr_depth = depth; convert_to = none; prim_kind = p })) s a t
              (λ n. tt) (ground (arith, h))
        | inr e ↦ elim (Bool-cases (r.convertible_to value (r.basic_type k))) [
          | inl f ↦
              alloc-Sound syn
                (primitive
                  (record { ptr_depth = depth; convert_to = some (r.basic_type k); prim_kind = p }))
                s a t (λ n. tt) (ground (arith, h))
          | inr f ↦ absurd (ground arith)
        ]
      ]

  count_ptrs-Sound :
      (fuel value : ℕ) (g k : GoKind) (p : ProtoKind) → Sound syn (count_ptrs r fuel value g k p)
  unfolding count_ptrs
  count_ptrs-Sound fuel value g k p s a t below h =
      elim (Option-cases (ptr_depth r fuel value (kind_of r value) 0)) [
        | inl e ↦ absurd (ground arith)
        | inr (x, e) ↦ make_primitive-Sound value g k p x.0 x.1 s a t below (ground (arith, h))
      ]

  pub build_primitive-Sound :
      (fuel value gtyp : ℕ) (name : String)
      → Sound syn (build_primitive r fuel call value gtyp name)
  unfolding build_primitive
  build_primitive-Sound fuel value gtyp name s a t below h =
      elim (Bool-cases (same_kind (kind_of r value) chan)) [
        | inl e ↦ build_chan_value-Sound value gtyp s a t below (ground (arith, h))
        | inr e ↦ elim (Option-cases (lookup name graphql_primitives)) [
          | inl f ↦ absurd (ground arith)
          | inr (g, f) ↦ elim (Option-cases (lookup name graphql_primitives_types)) [
            | inl f' ↦ absurd (ground arith)
            | inr (k, f') ↦ elim (Option-cases (lookup name graphql_primitives_proto_kinds)) [
              | inl f'' ↦ absurd (ground arith)
              | inr (p, f'') ↦ count_ptrs-Sound fuel value g k p s a t below (ground (arith, h))
            ]
          ]
        ]
      ]

  fill_list-Sound :
      (pair : TypeResolverPair) (u elem : ℕ) (empty : Resolver) (s : Builder) (a : ℕ) (t : Builder)
      → ((e n : ℕ) → e < n → IsComplete syn s.serial_only n (set_elem e empty))
      → MemoBelow s
      → fill_list call pair u elem empty s ≡ built a t
      → Grows syn none s t × (a < t.next)
  unfolding fill_list alloc remember
  fill_list-Sound pair u elem empty s a t c below h =
      fill-Sound syn (call (pair_of u elem)) set_elem pair empty s a t (sound (pair_of u elem)) c
        below h

  pub build_list-Sound : (pair : TypeResolverPair) (u : ℕ) → Sound syn (build_list r call pair u)
  unfolding build_list chan_or_slice wrong_direction set_elem
  build_list-Sound pair u s a t below h =
      let rt : ℕ = strip_ptr r pair.resolver_type in
      let elem : ℕ = strip_ptr r (elem_of r rt) in
      elim (Bool-cases (same_kind (kind_of r rt) chan)) [
        | inl e ↦ elim (Bool-cases s.serial_only) [
          | inl f ↦ absurd (ground arith)
          | inr f ↦ elim (Bool-cases (dir_is_recv (r.type_at rt).chan_dir)) [
            | inl d ↦
                fill_list-Sound pair u elem (chan_list none) s a t (λ x n k. (x, refl, k, f)) below
                  (ground (arith, h))
            | inr d ↦ absurd (ground arith)
          ]
        ]
        | inr e ↦ elim (Bool-cases (same_kind (kind_of r rt) slice)) [
          | inl f ↦
              fill_list-Sound pair u elem (list (same_kind (kind_of r pair.resolver_type) ptr) none)
                s a t (λ x n k. (x, refl, k)) below (ground (arith, h))
          | inr f ↦ absurd (ground arith)
        ]
      ]

  fill_enum-Sound : (value : ℕ) (e : EnumResolver) → Sound syn (fill_enum syn call value e)
  unfolding fill_enum
  fill_enum-Sound value e s a t below h =
      then_alloc syn (call (pair_of syn.string_ref value))
        (λ v. enum (record e { value_resolver = v })) s a t (sound (pair_of syn.string_ref value))
        (λ x n k. k) below h

  pub build_enum-Sound :
      (value : ℕ) (values : List String) → Sound syn (build_enum r syn call value values)
  unfolding build_enum
  build_enum-Sound value values s a t below h =
      let to : ℕ = r.basic_type go_int in
      elim (Bool-cases (same_kind (kind_of r value) (basic go_string))) [
        | inl e ↦ fill_enum-Sound value (by_name values) s a t below (ground (arith, h))
        | inr e ↦ elim (Bool-cases (same_kind (kind_of r value) (basic go_int))) [
          | inl f ↦ fill_enum-Sound value (by_index values none) s a t below (ground (arith, h))
          | inr f ↦ elim (Bool-cases (r.convertible_to value to)) [
            | inl d ↦
                fill_enum-Sound value (by_index values (some to)) s a t below (ground (arith, h))
            | inr d ↦ absurd (ground arith)
          ]
        ]
      ]
