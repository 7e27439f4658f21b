-- ===== src/Execution/Model/Grows.antt =====
-- How the state of the model builder changes: the resolvers that stand are kept, but for one that is
-- being built, and the new ones are complete.
use magellan.Base.{
  ℕ, ℕ_discrete, suc, ◌<◌, ◌≤◌, String, ◌≡◌, ◌≢◌, refl, sym, ◌∙◌, Bool, true, false, Option, none,
  some, List, lookup, insert, modify, nat_key, string_key, is_some, All, arith, lookup-insert,
  lookup-modify,
}
use mathlib.Core.Path.{subst}
use native.Mathlib.Decide.{dec_lt}
use magellan.Ast.Nodes.{FieldNode, ObjectNode, Node, Syntax}
use text.Mathlib.Text.{◌==◌ as str_eq}
use magellan.Execution.Model.{
  TypeResolverPair, pair_key, FuncResolver, ObjectResolver, Resolver, func, object, list, chan_list,
  enum, chan_value, primitive, Builder, Built, built, failed, unfinished, panicked, Build, ◌>>=◌,
}

-- The name of a field that has one.
abbrev pub FieldHasName : FieldNode → String → Type 0
FieldHasName field name = (field.name ≡ some name) × (str_eq name "" ≡ false)

abbrev pub HasResolver : List (String × ℕ) → FieldNode → Type 0
HasResolver m field = (name : String) → FieldHasName field name → is_some (lookup name m) ≡ true

-- A live method has a context and gives an error, and no mutation has one.
abbrev pub FuncIsComplete : Bool → ℕ → FuncResolver → Type 0
FuncIsComplete serial n f =
    (f.result_resolver < n)
    × (f.output_chan_arg ≢ 0 → (f.context_arg ≢ 0) × (f.returns_error ≡ true) × (serial ≡ false))

abbrev pub ObjectIsComplete : Syntax → ℕ → ObjectResolver → Type 0
ObjectIsComplete syn n o =
    ((name : String) (x : ℕ) → lookup name o.field_resolvers ≡ some x → x < n)
    × ((d : ObjectNode)
        → syn.node_at o.pair.type ≡ some (Node.object d)
        → All (HasResolver o.field_resolvers) d.fields)
    × (is_some (lookup "__typename" o.field_resolvers) ≡ true)

-- The resolvers that it refers to are below `n`, none of them is nil, an object has one for each of
-- its named fields, and a serial model has none that waits for a channel.
abbrev pub IsComplete : Syntax → Bool → ℕ → Resolver → Type 0
IsComplete syn serial n (func f) = FuncIsComplete serial n f
IsComplete syn serial n (object o) = ObjectIsComplete syn n o
IsComplete syn serial n (list p e) = (x : ℕ) × (e ≡ some x) × (x < n)
IsComplete syn serial n (chan_list e) = (x : ℕ) × (e ≡ some x) × (x < n) × (serial ≡ false)
IsComplete syn serial n (enum e) = e.value_resolver < n
IsComplete syn serial n (chan_value x) = (x < n) × (serial ≡ false)
IsComplete syn serial n (primitive p) = Unit

pub IsComplete-more :
    (syn : Syntax) (serial : Bool) (n m : ℕ) (r : Resolver)
    → n ≤ m
    → IsComplete syn serial n r
    → IsComplete syn serial m r
IsComplete-more syn serial n m (func f) h c = (omega (arith, h, c.0), c.1)
IsComplete-more syn serial n m (object o) h c =
    (λ name x e. omega (arith, h, c.0 name x e), c.1, c.2)
IsComplete-more syn serial n m (list p e) h c = (c.0, c.1, omega (arith, h, c.2))
IsComplete-more syn serial n m (chan_list e) h c = (c.0, c.1, omega (arith, h, c.2), c.3)
IsComplete-more syn serial n m (enum e) h c = omega (arith, h, c)
IsComplete-more syn serial n m (chan_value x) h c = (omega (arith, h, c.0), c.1)
IsComplete-more syn serial n m (primitive p) h c = tt

abbrev pub MemoBelow : Builder → Type 0
MemoBelow s = (pair : TypeResolverPair) (a : ℕ) → lookup pair s.resolvers ≡ some a → a < s.next

abbrev pub CompleteAt : Syntax → Builder → ℕ → Type 0
CompleteAt syn t b =
    (r : Resolver) × (lookup b t.heap ≡ some r) × IsComplete syn t.serial_only t.next r

-- `pending` is the resolver that is being built, if there is one.
pub record Grows (syn : Syntax) (pending : Option ℕ) (s t : Builder) : Type 0 where
  pub serial : t.serial_only ≡ s.serial_only
  pub more : s.next ≤ t.next
  pub kept : (b : ℕ) → b < s.next → pending ≢ some b → lookup b t.heap ≡ lookup b s.heap
  pub made : (b : ℕ) → s.next ≤ b → b < t.next → CompleteAt syn t b
  pub memo : MemoBelow s → MemoBelow t

abbrev pub Sound : Syntax → Build ℕ → Type 0
Sound syn m =
    (s : Builder) (a : ℕ) (t : Builder)
    → MemoBelow s
    → m s ≡ built a t
    → Grows syn none s t × (a < t.next)

pub Grows-same : (syn : Syntax) (p : Option ℕ) (s : Builder) → Grows syn p s s
Grows-same syn p s = record {
  serial = refl;
  more = omega arith;
  kept = λ b h k. refl;
  made = λ b h k. absurd (omega (arith, h, k));
  memo = λ h. h;
}

pub Grows-pending :
    (syn : Syntax) (p : Option ℕ) (s t : Builder) → Grows syn none s t → Grows syn p s t
Grows-pending syn p s t g = record {
  serial = g.serial;
  more = g.more;
  kept = λ b h k. g.kept b h (λ e. ground arith);
  made = g.made;
  memo = g.memo;
}

CompleteAt-kept :
    (syn : Syntax) (p : Option ℕ) (s t : Builder) (b : ℕ)
    → Grows syn p s t
    → b < s.next
    → p ≢ some b
    → CompleteAt syn s b
    → CompleteAt syn t b
CompleteAt-kept syn p s t b g below other c = (
  c.0,
  g.kept b below other ∙ c.1,
  subst (λ x. IsComplete syn x t.next c.0) (sym g.serial)
      (IsComplete-more syn s.serial_only s.next t.next c.0 g.more c.2),
)

-- Two steps in a row.
pub Grows-trans :
    (syn : Syntax) (p : Option ℕ) (s t u : Builder)
    → ((b : ℕ) → p ≡ some b → b < s.next)
    → Grows syn p s t
    → Grows syn p t u
    → Grows syn p s u
Grows-trans syn p s t u below g k = record {
  serial = k.serial ∙ g.serial;
  more = omega (arith, g.more, k.more);
  kept = λ b h o. k.kept b (omega (arith, g.more, h)) o ∙ g.kept b h o;
  made = λ b h l. elim (dec_lt b t.next) [
    | yes e ↦ CompleteAt-kept syn p t u b k e (λ o. omega (arith, h, below b o)) (g.made b h e)
    | no e ↦ k.made b (omega (arith, e)) l
  ];
  memo = λ h. k.memo (g.memo h);
}

-- `mb.Resolvers[pair] = resolver` for a resolver that stands.
pub MemoBelow-remember :
    (pair : TypeResolverPair) (a : ℕ) (s : Builder)
    → a < s.next
    → MemoBelow s
    → MemoBelow (record s { resolvers = insert pair a s.resolvers })
MemoBelow-remember pair a s below h q b e =
    ground (arith, lookup-insert q pair a s.resolvers, h q b)

-- A new resolver that is complete.
pub Grows-alloc :
    (syn : Syntax) (r : Resolver) (s : Builder)
    → IsComplete syn s.serial_only (suc s.next) r
    → Grows syn none s (record s { heap = insert s.next r s.heap; next = suc s.next })
Grows-alloc syn r s c = record {
  serial = refl;
  more = omega arith;
  kept = λ b h k. ground (arith, lookup-insert b s.next r s.heap);
  made = λ b h l. (r, ground (arith, lookup-insert b s.next r s.heap), c);
  memo = λ h q b e. omega (arith, h q b e);
}

-- A write to the resolver that is being built.
pub Grows-write :
    (syn : Syntax) (a : ℕ) (f : Resolver → Resolver) (s : Builder)
    → a < s.next
    → Grows syn (some a) s (record s { heap = modify a f s.heap })
Grows-write syn a f s below = record {
  serial = refl;
  more = omega arith;
  kept = λ b h k. grind (arith, lookup-modify);
  made = λ b h l. absurd (omega (arith, h, l));
  memo = λ h. h;
}

-- The resolver that was being built is complete.
pub Grows-close :
    (syn : Syntax) (pair : TypeResolverPair) (r : Resolver) (s t : Builder)
    → Grows syn
        (some s.next)
        (record s {
          resolvers = insert pair s.next s.resolvers;
          heap = insert s.next r s.heap;
          next = suc s.next;
        })
        t
    → CompleteAt syn t s.next
    → Grows syn none s t
Grows-close syn pair r s t g c = record {
  serial = g.serial;
  more = omega (arith, g.more);
  kept = λ b h k.
      g.kept b (omega (arith, h)) (λ e. ground arith)
      ∙ ground (arith, lookup-insert b s.next r s.heap);
  made = λ b h l. elim (ℕ_discrete b s.next) [
    | yes e ↦ subst (CompleteAt syn t) (sym e) c
    | no e ↦ g.made b (omega (arith, h, e)) l
  ];
  memo = λ h. g.memo (λ q b e. ground (arith, lookup-insert q pair s.next s.resolvers, h q b));
}

-- A chain of two builders ends if both do.
pub bind-built :
    {A B : Type 0} (m : Build A) (f : A → Build B) (s : Builder) (b : B) (u : Builder)
    → (m >>= f) s ≡ built b u
    → (a : A) × (t : Builder) × (m s ≡ built a t) × (f a t ≡ built b u)
bind-built {A = A} {B = B} m f s b u h = split (m s) refl h
  where
    split :
        (x : Built A)
        → m s ≡ x
        → elim x [
          | built a t ↦ f a t
          | failed e ↦ failed e
          | unfinished ↦ unfinished
          | panicked ↦ panicked
        ]
          ≡ built b u
        → (a : A) × (t : Builder) × (m s ≡ built a t) × (f a t ≡ built b u)
    split (built a t) e k = (a, t, e, k)
    split (failed x) e k = absurd (cc k)
    split unfinished e k = absurd (cc k)
    split panicked e k = absurd (cc k)
