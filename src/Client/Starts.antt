-- ===== src/Client/Starts.antt =====
-- The clients of a server that `FromSchema` of magellan.go has built.
use magellan.Base.{
  ℕ, ◌≡◌, refl, sym, ap, ◌∙◌, true, Option, none, some, List, nat_key, lookup-nil, arith,
}
use magellan.Ast.{Definition}
use magellan.Ast.Nodes.{Syntax}
use magellan.Execution.Reflect.{Reflect}
use magellan.Execution.Model.Execute.{validate_resolver_instance}
use magellan.Schema.Setup.{
  Globals, Schema, BuiltModel, Outcome, done, from_document, set_resolvers, build_query_tree,
}
use magellan.Schema.Setup.Models.{set_resolvers-HasModel, query-builds, mutation-builds}
use magellan.Client.{
  Server, server, new_server, serve, from_schema, ClientInstance, QueryExecution, BuiltClient,
  client, new_client, validated, with_mutation, build_client,
}
use magellan.Client.Serving.{Serves, Runs}

serve-done : (x : Outcome × Schema) (v : Server) → serve x ≡ server v → x ≡ (done, v.schema)
unfolding serve new_server
serve-done (done, s) v h = ground arith
serve-done (Outcome.unfinished, s) v h = absurd (cc h)
serve-done (Outcome.panicked, s) v h = absurd (cc h)
serve-done (Outcome.failed e, s) v h = absurd (cc h)

pub validated-client :
    (m : Option BuiltModel) (t : Option ℕ) (next : BuiltClient) (c : ClientInstance)
    → validated m t next ≡ client c
    → (b : BuiltModel) × (m ≡ some b) × (t ≡ some b.model.root_resolver_type) × (next ≡ client c)
unfolding validated validate_resolver_instance
validated-client none t next c h = absurd (cc h)
validated-client (some b) none next c h = absurd (cc h)
validated-client (some b) (some t) next c h = (b, refl, ground (arith, h), ground (arith, h))

with_mutation-client :
    (s : Schema) (query : Option ℕ) (t : ℕ) (c : ClientInstance) (m : BuiltModel)
    → s.mutation_model ≡ some m
    → with_mutation s query (some t) ≡ client c
    → (some t ≡ some m.model.root_resolver_type) × (c ≡ new_client s query (some t))
unfolding with_mutation
with_mutation-client s query t c m e h =
    let (b, k, type, next) =
      validated-client s.mutation_model (some t) (client (new_client s query (some t))) c
        (ground (arith, e, h)) in
    (ground (arith, e, k, type), cc next)

-- A client that is built for both resolver objects, of a server that was built for both, serves, and
-- both operations run for it.
pub build_client-Serves :
    (r : Reflect) (syn : Syntax) (fuel : ℕ) (g : Globals) (doc : List (ℕ × Definition)) (tq tm : ℕ)
    (v : Server) (query : Option ℕ) (mutation : ℕ) (c : ClientInstance)
    → from_schema r syn fuel g doc (some tq) (some tm) ≡ server v
    → build_client v true query (some mutation) ≡ client c
    → Serves c × Runs c "query" × Runs c "mutation"
unfolding from_schema build_client new_client
build_client-Serves r syn fuel g doc tq tm v query mutation c h k =
    let set = serve-done (set_resolvers r syn fuel (from_document g doc) (some tq) (some tm)) v h in
    let (d, before, defs, hasq, hasm) =
      set_resolvers-HasModel r syn fuel (from_document g doc) v.schema tq tm set in
    let (b, bm, bt, next) =
      validated-client v.schema.query_model query (with_mutation v.schema query (some mutation)) c
        k in
    let (mt, new) = with_mutation-client v.schema query mutation c hasm.0 hasm.1 next in
    (
      (λ id q e. absurd (ground (arith, new, e, lookup-nil {V = QueryExecution} id))),
      (
        b,
        ground (arith, new, bm),
        ground (arith, new, bt),
        λ e.
            query-builds v.schema d tq v.schema.query_model defs hasq
              (ap (λ x. build_query_tree x.schema "query") (sym new) ∙ e),
      ),
      (
        hasm.0,
        ground (arith, new, hasm.1),
        ground (arith, new, mt),
        λ e.
            mutation-builds v.schema d tm v.schema.mutation_model defs hasm
              (ap (λ x. build_query_tree x.schema "mutation") (sym new) ∙ e),
      ),
    )
