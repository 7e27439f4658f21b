-- ===== src/Execution/Model/Fields/Filled.antt =====
-- How the resolver of an object changes while its fields are built.
use mathlib.Core.Path.{subst}
use magellan.Base.{
  ℕ, ◌<◌, ◌≡◌, refl, sym, ◌∙◌, true, none, some, String, lookup, insert, modify, is_some,
  string_key, nat_key, lookup-insert, lookup-modify, arith,
}
use magellan.Ast.Nodes.{Syntax}
use magellan.Execution.Model.{ObjectResolver, object, Builder}
use magellan.Execution.Model.Grows.{Grows, Grows-same, Grows-pending, Grows-trans, Grows-write}
use magellan.Execution.Model.Fields.{set_field, mark_array}

-- The object resolver at `a` is `o`, and all that it refers to stands.
pub record Standing (a : ℕ) (o : ObjectResolver) (s : Builder) : Type 0 where
  pub at : lookup a s.heap ≡ some (object o)
  pub below : a < s.next
  pub refs : (name : String) (x : ℕ) → lookup name o.field_resolvers ≡ some x → x < s.next

-- The object resolver at `a`, which was `o`, has got more fields and is `p`.
pub record Filled (syn : Syntax) (a : ℕ) (o p : ObjectResolver) (s t : Builder) : Type 0 where
  pub stands : Standing a p t
  pub pair : p.pair ≡ o.pair
  pub keeps :
      (name : String)
      → is_some (lookup name o.field_resolvers) ≡ true
      → is_some (lookup name p.field_resolvers) ≡ true
  pub grows : Grows syn (some a) s t

pub Filled-same :
    (syn : Syntax) (a : ℕ) (o : ObjectResolver) (s : Builder)
    → Standing a o s
    → Filled syn a o o s s
Filled-same syn a o s h = record {
  stands = h;
  pair = refl;
  keeps = λ name e. e;
  grows = Grows-same syn (some a) s;
}

pub Filled-trans :
    (syn : Syntax) (a : ℕ) (o p q : ObjectResolver) (s t u : Builder)
    → a < s.next
    → Filled syn a o p s t
    → Filled syn a p q t u
    → Filled syn a o q s u
Filled-trans syn a o p q s t u below f g = record {
  stands = g.stands;
  pair = g.pair ∙ f.pair;
  keeps = λ name e. g.keeps name (f.keeps name e);
  grows = Grows-trans syn (some a) s t u (λ b e. ground (arith, e, below)) f.grows g.grows;
}

-- Other builders may run.
pub Standing-kept :
    (syn : Syntax) (a : ℕ) (o : ObjectResolver) (s t : Builder)
    → Standing a o s
    → Grows syn none s t
    → Standing a o t
Standing-kept syn a o s t h g = record {
  at = g.kept a h.below (λ e. absurd (cc e)) ∙ h.at;
  below = omega (arith, h.below, g.more);
  refs = λ name x e. omega (arith, g.more, h.refs name x e);
}

pub Filled-other :
    (syn : Syntax) (a : ℕ) (o : ObjectResolver) (s t : Builder)
    → Standing a o s
    → Grows syn none s t
    → Filled syn a o o s t
Filled-other syn a o s t h g = record {
  stands = Standing-kept syn a o s t h g;
  pair = refl;
  keeps = λ name e. e;
  grows = Grows-pending syn (some a) s t g;
}

abbrev pub Bound : ObjectResolver → String → Type 0
Bound o name = is_some (lookup name o.field_resolvers) ≡ true

pub Filled-set_field :
    (syn : Syntax) (a : ℕ) (o : ObjectResolver) (name : String) (f : ℕ) (s t : Builder)
    → Standing a o s
    → f < s.next
    → t ≡ record s { heap = modify a (set_field name f) s.heap }
    → (p : ObjectResolver) × Filled syn a o p s t × Bound p name
unfolding set_field
Filled-set_field syn a o name f s t h below e = (
  record o { field_resolvers = insert name f o.field_resolvers },
  record {
    stands = record {
      at = ground (arith, e, h.at, lookup-modify a a (set_field name f) s.heap);
      below = ground (arith, e, h.below);
      refs = λ n x k.
          ground (arith, e, k, below, h.refs n x, lookup-insert n name f o.field_resolvers);
    };
    pair = refl;
    keeps = λ n k. ground (arith, k, lookup-insert n name f o.field_resolvers);
    grows = subst (Grows syn (some a) s) (sym e) (Grows-write syn a (set_field name f) s h.below);
  },
  ground (arith, lookup-insert name name f o.field_resolvers),
)

pub Filled-mark_array :
    (syn : Syntax) (a : ℕ) (o : ObjectResolver) (name : String) (s t : Builder)
    → Standing a o s
    → t ≡ record s { heap = modify a (mark_array name) s.heap }
    → (p : ObjectResolver) × Filled syn a o p s t
unfolding mark_array
Filled-mark_array syn a o name s t h e = (
  record o { array_fields = insert name true o.array_fields },
  record {
    stands = record {
      at = ground (arith, e, h.at, lookup-modify a a (mark_array name) s.heap);
      below = ground (arith, e, h.below);
      refs = λ n x k. ground (arith, e, k, h.refs n x);
    };
    pair = refl;
    keeps = λ n e. e;
    grows = subst (Grows syn (some a) s) (sym e) (Grows-write syn a (mark_array name) s h.below);
  },
)
