-- ===== src/Client/Refines/Message.antt =====
-- A whole message of magellan.go, against the map from ids to query trees.
use mathlib.Core.Path.{subst}
use magellan.Base.{
  ℕ, ◌≡◌, refl, sym, ap, ◌∙◌, ite, Option-cases, inl, inr, if_neg, Option, none, some, lookup,
  insert, delete, nat_key, lookup-insert, lookup-delete, arith,
}
use magellan.Qtree.Tree.{Tree}
use magellan.Qtree.Mutation.{TreeMutation, Applied, applied, apply_tree_mutation}
use magellan.Execution.Model.Execute.{ExecutionContext}
use magellan.Schema.Setup.{Schema}
use magellan.Client.{ClientInstance, QueryExecution}
use magellan.Client.Messages.{
  QueryInit, ClientMessage, Handled, handled, unfinished, blocked, panicked, ◌>>=◌,
  handle_init_query, resolver, with_tree, handle_mutate_tree, handle_finish_query, handle_message,
}
use magellan.Client.Serving.{Serves, Runs}
use magellan.Client.Handlers.{init_Goes}
use magellan.Client.Refines.{
  tree_of, live, spec_init, spec_mutate, spec_finish, spec_message, init-live,
}

spec_mutate-kept :
    (s : Schema) (id : ℕ) (m : TreeMutation) (j : ℕ) (o : Option Tree)
    → (id ≡ j → o ≡ none)
    → o ≡ spec_mutate s (some (id, m)) j o
spec_mutate-kept s id m j none h = refl
spec_mutate-kept s id m j (some t) h = elim (nat_key.dec id j) [
  | no k ↦ ground (arith, k)
  | yes k ↦ absurd (cc (h k))
]

spec_mutate-changed :
    (s : Schema) (id : ℕ) (m : TreeMutation) (j : ℕ) (o : Option Tree) (t u : Tree)
    → apply_tree_mutation (resolver s) t m ≡ applied u
    → (id ≡ j → o ≡ some t)
    → ite (nat_key.dec id j) (some u) o ≡ spec_mutate s (some (id, m)) j o
spec_mutate-changed s id m j o t u e h = elim (nat_key.dec id j) [
  | no k ↦ if_neg (nat_key.dec id j) k (some u) o ∙ spec_mutate-kept s id m j o (λ y. absurd (k y))
  | yes k ↦ ground (arith, k, e, h k)
]

-- The state in which the query `q` has the tree `u`.
mutated-live :
    (c : ClientInstance) (id j : ℕ) (q : QueryExecution) (ec : ExecutionContext) (u : Tree)
    → live
        (record c {
          queries = insert id (record q { ec = some (record ec { qnode_root = u }) }) c.queries;
        })
        j
      ≡ ite (nat_key.dec id j) (some u) (live c j)
mutated-live c id j q ec u = grind (arith, lookup-insert)

with_tree-live :
    (c d : ClientInstance) (id : ℕ) (q : QueryExecution) (ec : ExecutionContext) (a : Applied)
    (j : ℕ)
    → with_tree c id q ec a ≡ handled d
    → (u : Tree) × (a ≡ applied u) × (live d j ≡ ite (nat_key.dec id j) (some u) (live c j))
unfolding with_tree
with_tree-live c d id q ec Applied.panicked j h = absurd (cc h)
with_tree-live c d id q ec Applied.blocked j h = absurd (cc h)
with_tree-live c d id q ec Applied.unfinished j h = absurd (cc h)
with_tree-live c d id q ec (applied u) j h =
    let state : record c {
      queries = insert id (record q { ec = some (record ec { qnode_root = u }) }) c.queries;
    }
        ≡ d =
      cc h in
    (u, refl, ap (λ x. live x j) (sym state) ∙ mutated-live c id j q ec u)

mutate-live :
    (c d : ClientInstance) (id : ℕ) (m : TreeMutation) (j : ℕ)
    → Serves c
    → handle_mutate_tree c id m ≡ handled d
    → live d j ≡ spec_mutate c.schema (some (id, m)) j (live c j)
unfolding handle_mutate_tree
mutate-live c d id m j h e = elim (Option-cases (lookup id c.queries)) [
  | inl k ↦
      let same : c ≡ d = ground (arith, e, k) in
      ap (λ x. live x j) (sym same)
      ∙ spec_mutate-kept c.schema id m j (live c j) (λ y. ap (live c) (sym y) ∙ ap tree_of k)
  | inr (q, k) ↦
      let (ec, there, well, id_is) = h id q k in
      let (u, ends, state) =
        with_tree-live c d id q ec (apply_tree_mutation (resolver c.schema) ec.qnode_root m) j
          (ground (arith, e, k, there)) in
      state
      ∙ spec_mutate-changed c.schema id m j (live c j) ec.qnode_root u ends
          (λ y. ap (live c) (sym y) ∙ ground (arith, k, there))
]

finish-live :
    (c d : ClientInstance) (id j : ℕ)
    → handle_finish_query c id ≡ handled d
    → live d j ≡ spec_finish (some id) j (live c j)
unfolding handle_finish_query
finish-live c d id j e = elim (Option-cases (lookup id c.queries)) [
  | inl k ↦ let same : c ≡ d = ground (arith, e, k) in ap (λ x. live x j) (sym same) ∙ absent k
  | inr (q, k) ↦
      let same : record c { queries = delete id c.queries } ≡ d = ground (arith, e, k) in
      ap (λ x. live x j) (sym same) ∙ ground (arith, lookup-delete j id c.queries)
]
  where
    absent : lookup id c.queries ≡ none → live c j ≡ spec_finish (some id) j (live c j)
    absent k = elim (nat_key.dec id j) [
      | no n ↦ ground (arith, n)
      | yes n ↦ ap (live c) (sym n) ∙ ap tree_of k ∙ ground (arith, n)
    ]

handled-bind :
    (h : Handled) (g : ClientInstance → Handled) (d : ClientInstance)
    → (h >>= g) ≡ handled d
    → (c : ClientInstance) × (h ≡ handled c) × (g c ≡ handled d)
handled-bind (handled c) g d e = (c, refl, e)
handled-bind unfinished g d e = absurd (cc e)
handled-bind blocked g d e = absurd (cc e)
handled-bind panicked g d e = absurd (cc e)

-- The first part of a message.
init_part-live :
    (c d : ClientInstance) (o : Option QueryInit) (j : ℕ)
    → Serves c
    → Runs c "query"
    → Runs c "mutation"
    → elim o [ none ↦ handled c | some i ↦ handle_init_query c i ] ≡ handled d
    → (live d j ≡ spec_init c.schema o j (live c j)) × Serves d × (d.schema ≡ c.schema)
init_part-live c d none j h query mutation e =
    let k : c ≡ d = cc e in
    (ap (λ x. live x j) (sym k), subst Serves k h, ap (λ x. x.schema) (sym k))
init_part-live c d (some i) j h query mutation e = elim (init_Goes c i h query mutation) [
  | inr (ended, n) ↦ absurd (n d e)
  | inl n ↦
      let k : n.next ≡ d = cc (sym n.handles ∙ e) in
      (
        init-live c d i j h query mutation e,
        subst Serves k n.serves,
        ap (λ x. x.schema) (sym k) ∙ n.schema,
      )
]

mutate_part-live :
    (c d : ClientInstance) (o : Option (ℕ × TreeMutation)) (j : ℕ)
    → Serves c
    → elim o [ none ↦ handled c | some t ↦ handle_mutate_tree c t.0 t.1 ] ≡ handled d
    → live d j ≡ spec_mutate c.schema o j (live c j)
mutate_part-live c d none j h e = let k : c ≡ d = cc e in ap (λ x. live x j) (sym k)
mutate_part-live c d (some (id, t)) j h e = mutate-live c d id t j h e

finish_part-live :
    (c d : ClientInstance) (o : Option ℕ) (j : ℕ)
    → elim o [ none ↦ handled c | some f ↦ handle_finish_query c f ] ≡ handled d
    → live d j ≡ spec_finish o j (live c j)
finish_part-live c d none j e = let k : c ≡ d = cc e in ap (λ x. live x j) (sym k)
finish_part-live c d (some f) j e = finish-live c d f j e

-- `handle_message` implements a map from query ids to query trees: for a client that serves and for
-- which both operations run, a message that is handled does to each entry what its three parts say, in
-- this order: a new id gets the tree of its operation, if that can be built, and one that is taken
-- keeps its tree; a mutation is applied to the tree of its query alone; a finished query is dropped.
pub handle_message-refines :
    (c d : ClientInstance) (m : ClientMessage) (id : ℕ)
    → Serves c
    → Runs c "query"
    → Runs c "mutation"
    → handle_message c m ≡ handled d
    → live d id ≡ spec_message c.schema m id (live c id)
unfolding handle_message
handle_message-refines c d m id h query mutation e =
    let (c1, e1, k1) =
      handled-bind (elim m.init_query [ none ↦ handled c | some i ↦ handle_init_query c i ]) _ d
        e in
    let (c2, e2, k2) =
      handled-bind
        (elim m.mutate_tree [ none ↦ handled c1 | some t ↦ handle_mutate_tree c1 t.0 t.1 ]) _ d
        k1 in
    let (l1, serves, schema) = init_part-live c c1 m.init_query id h query mutation e1 in
    finish_part-live c2 d m.finish_query id k2
    ∙ ap (spec_finish m.finish_query id) (
        mutate_part-live c1 c2 m.mutate_tree id serves e2
        ∙ ap (λ s. spec_mutate s m.mutate_tree id (live c1 id)) schema
        ∙ ap (spec_mutate c.schema m.mutate_tree id) l1)
