-- ===== src/Execution/Model/Chains.antt =====
-- Chains of builders that keep the state of the model builder sound.
use mathlib.Core.Path.{subst}
use magellan.Base.{
  ℕ, suc, ◌<◌, ◌≡◌, sym, ◌∙◌, none, some, lookup, insert, modify, nat_key, arith, lookup-insert,
  lookup-modify,
}
use magellan.Ast.Nodes.{Syntax}
use magellan.Execution.Model.{
  TypeResolverPair, pair_key, Resolver, Builder, built, Build, ◌>>=◌, ◌>>◌, alloc, write, return,
}
use magellan.Execution.Model.Grows.{
  IsComplete, MemoBelow, CompleteAt, Grows, Sound, Grows-pending, Grows-trans, Grows-alloc,
  Grows-write, Grows-close, bind-built,
}

pub alloc-Sound :
    (syn : Syntax) (r : Resolver) (s : Builder) (a : ℕ) (t : Builder)
    → ((n : ℕ) → IsComplete syn s.serial_only n r)
    → alloc r s ≡ built a t
    → Grows syn none s t × (a < t.next)
unfolding alloc
alloc-Sound syn r s a t c h =
    let e : t ≡ record s { heap = insert s.next r s.heap; next = suc s.next } = cc h in
    let k : a ≡ s.next = cc h in
    (subst (Grows syn none s) (sym e) (Grows-alloc syn r s (c (suc s.next))), ground (arith, e, k))

-- A resolver that is allocated once the one that it refers to stands.
pub then_alloc :
    (syn : Syntax) (m : Build ℕ) (mk : ℕ → Resolver) (s : Builder) (a : ℕ) (t : Builder)
    → Sound syn m
    → ((e n : ℕ) → e < n → IsComplete syn s.serial_only n (mk e))
    → MemoBelow s
    → (m >>= λ e. alloc (mk e)) s ≡ built a t
    → Grows syn none s t × (a < t.next)
unfolding alloc
then_alloc syn m mk s a t sound c below h =
    let (e, u, p, q) = bind-built m (λ e. alloc (mk e)) s a t h in
    let (g, old) = sound s e u below p in
    let k : t ≡ record u { heap = insert u.next (mk e) u.heap; next = suc u.next } = cc q in
    let j : a ≡ u.next = cc q in
    let new : Grows syn none u t = subst (Grows syn none u) (sym k) (
      Grows-alloc syn (mk e) u (
        subst (λ x. IsComplete syn x (suc u.next) (mk e)) (sym g.serial)
          (c e (suc u.next) (omega (arith, old))))) in
    (Grows-trans syn none s u t (λ b x. absurd (cc x)) g new, ground (arith, k, j))

-- The state in which the resolver at `s.next` is being built.
abbrev pub opened : TypeResolverPair → Resolver → Builder → Builder
opened pair r s = record s {
  resolvers = insert pair s.next s.resolvers;
  heap = insert s.next r s.heap;
  next = suc s.next;
}

pub MemoBelow-opened :
    (pair : TypeResolverPair) (r : Resolver) (s : Builder)
    → MemoBelow s
    → MemoBelow (opened pair r s)
MemoBelow-opened pair r s below q b e =
    ground (arith, lookup-insert q pair s.next s.resolvers, below q b)

-- A resolver that is allocated before the one that it refers to is built.
pub fill-Sound :
    (syn : Syntax) (m : Build ℕ) (g : ℕ → Resolver → Resolver) (pair : TypeResolverPair)
    (r : Resolver) (s : Builder) (a : ℕ) (t : Builder)
    → Sound syn m
    → ((e n : ℕ) → e < n → IsComplete syn s.serial_only n (g e r))
    → MemoBelow s
    → (m >>= λ e. write s.next (g e) >> return s.next) (opened pair r s) ≡ built a t
    → Grows syn none s t × (a < t.next)
unfolding write
fill-Sound syn m g pair r s a t sound c below h =
    let (e, u, p, q) =
      bind-built m (λ e. write s.next (g e) >> return s.next) (opened pair r s) a t h in
    let (k, old) = sound (opened pair r s) e u (MemoBelow-opened pair r s below) p in
    let w : t ≡ record u { heap = modify s.next (g e) u.heap } = cc q in
    let j : a ≡ s.next = cc q in
    let grown : Grows syn (some s.next) (opened pair r s) t =
      Grows-trans syn (some s.next) (opened pair r s) u t (λ b x. ground arith)
        (Grows-pending syn (some s.next) (opened pair r s) u k)
        (subst (Grows syn (some s.next) u) (sym w)
          (Grows-write syn s.next (g e) u (omega (arith, k.more)))) in
    let at : lookup s.next u.heap ≡ some r =
      k.kept s.next (omega arith) (λ x. absurd (cc x))
      ∙ ground (arith, lookup-insert s.next s.next r s.heap) in
    let done : CompleteAt syn t s.next = (
      g e r,
      ground (arith, w, at, lookup-modify s.next s.next (g e) u.heap),
      subst (λ x. IsComplete syn x t.next (g e r)) (sym grown.serial)
          (c e t.next (ground (arith, w, old))),
    ) in
    (Grows-close syn pair r s t grown done, ground (arith, j, w, k.more))
