-- ===== src/Lib.antt =====
-- magellan: the server side of RGraphQL. A client sends mutations of a query tree; the server keeps
-- the tree, resolves its fields on Go objects, and streams the values of each query's result tree
-- back over one connection.
--
-- The program's parts and the files that model them:
--   qtree/ keeps a client's query tree. `ApplyTreeMutation` writes the variables, adds and deletes
--     subtrees and collects the variables that no node refers to. Qtree/VarStore.antt is
--     qtree/varstore.go, Qtree/Subs.antt qtree/qtree_sub.go. Of qtree/qtree.go, Qtree/Tree.antt has
--     the state, the subscriptions, errors and `removeChild`, Qtree/AddChild.antt has `AddChild`,
--     Qtree/Dispose.antt `Dispose` and Qtree/Mutation.antt `ApplyTreeMutation`, with its four ends. A node, a variable
--     and a reference are addresses of a heap, since the source shares them by pointer; `next` is
--     the first free address.
--   execution/ resolves the fields. Execution/Context.antt is execution/resolver_ctx.go: the tree of
--     contexts that the resolvers share, on a heap, with the count of pending children that
--     `MarkFinal` maintains, and the writer as a list of what was written. Execution/Value.antt is
--     its `BuildResolverValue`.
--   encoding/ writes the result tree as a stream of values whose paths the client can label.
--     Encoding/PathCache.antt is encoding/path_cache.go over a parameter for golang-lru, which adds
--     an entry and may evict one; Encoding/Encoder.antt is encoding/encoding.go, one pass of the
--     loop of `Run` on the contexts of Execution/Context.antt.
--   result/ merges the result trees of a connection. Result/Multiplexer.antt and
--     Result/Multiplexer/Rounds.antt are result/result_multiplexer.go: `round` is one pass of the
--     loop of `runMultiplexer` for a given choice of `reflect.Select`, so that a run of the loop is
--     a sequence of choices. A channel is the values that its senders have ready.
--   execution/ also builds the resolvers, once for a schema. Execution/Reflect.antt and
--     Ast/Nodes.antt are what it reads of Go's types and of the schema's nodes, as records of
--     functions. Execution/Model.antt has the resolvers, on a heap, and the builder's state. Of the
--     builders, Execution/Model/Func.antt has the methods (execution/resolve_func.go),
--     Execution/Model/Leaves.antt the lists, enums, channels and primitives (resolve_list.go,
--     resolve_enum.go, resolve_chan.go, resolve_primitive.go), Execution/Model/Fields.antt the
--     objects (resolve_object.go), and Execution/Model/Build.antt `buildResolver` (resolver.go) and
--     `BuildModel` (model.go). Execution/Model/Execute.antt is `Execute` of model.go.
--   execution/ then runs them on the contexts. Execution/Run.antt has the state of an execution, its
--     contexts and a pool of goroutines, and what is read of Go's values; Execution/Run/Leaves.antt and
--     Execution/Run/Methods.antt are the `Execute` methods of the resolve files, and
--     Execution/Run/Tasks.antt chooses among them: a call in a serial execution runs to its end, any
--     other is a task of the pool, and `step` lets one task start or receive.
--   introspect/ answers the introspection fields. Introspect.antt, Introspect/TypeFields.antt and
--     Introspect/Field.antt are introspect/introspect.go, a function per method.
--   schema/ reads a document: schema/ast.go is Schema.antt and Schema/Introspection.antt,
--     schema/schema.go is Schema/Setup.antt, which joins the parts, the models and the query trees.
--   magellan.go is Client.antt, the server and its clients, and Client/Messages.antt, the handlers of
--     the messages, which build and change the query trees of Qtree/ and start executions of
--     Execution/; what they give to the multiplexer of Result/ is a list.
--   types/primitive.go is Types.antt and util/case.go is Case.antt; Ast.antt has the syntax trees of
--     graphql-go that these read.
-- Base.antt has the shared names: maps as association lists, tests on numbers, lists and options.
-- Tests.antt has runs at concrete inputs.
--
-- Bounds and fuel. Ids, counters and integers of 32 bits wrap around by `% 2 ^ 32`. `Dispose` recurs
-- from a node to its children, whose addresses are higher, so the first free address is fuel enough.
-- `markChildFinal` recurs to the path parent, whose address is lower, so the address is fuel enough.
-- `SetValue`, `SetError` and the encoder's rewind pass on to the path parent and take fuel; the rewind
-- gets one more than the first free address. The inner loop of the multiplexer recurs on the values
-- that are ready. `buildResolver` takes fuel, one for each type that it goes into; what is stated of it
-- holds for every fuel with which it returns, and too little of it is a result of its own. The loop
-- over pointers in resolve_primitive.go has the same fuel, of which it needs two.
--
-- A serial call of `Execute` takes fuel too, one for each call within a call.
--
-- Not modelled: the text of the introspection schema (schema/meta.go), mutexes (each guards a whole
-- method or message, which is one step here), cancellation beyond a context's own flag, the waits for
-- room on a channel that is read, what goes through a method's output channel, and the example
-- program. What the rest of the program decides is a field of a state: the case that the select of a
-- send takes once its context is done, whether the multiplexer or the encoder has returned. Sends that
-- then never return are modelled, and those of query errors on `errCh`. A goroutine runs from
-- its start to its loop in one step: what happens between the operations of two bodies is not seen.
-- The elements of a repeated field of a message are set; its other fields may be missing. Package
-- reflect, the parser, `GetKind`, `unicode.ToUpper` and the resolver objects' methods are parameters,
-- and so are the schema's `LookupType` for the query tree and for the model, and the query tree for an
-- execution.
pub mod Base
pub mod Ast
pub mod Types
pub mod Qtree
pub mod Execution
pub mod Encoding
pub mod Result
pub mod Case
pub mod Schema
pub mod Introspect
pub mod Client
mod Tests
