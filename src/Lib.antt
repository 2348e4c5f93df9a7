-- ===== src/Lib.antt =====
-- CMM-Routers: a local router that offers several subscription providers behind OpenAI- and
-- Anthropic-compatible surfaces.
--
-- A request arrives with a bearer token, which stands for a profile, CHAT or AGENT (Http/Server,
-- Identity). Its surface parses it and guards what parsing would discard (Http). Its tool
-- declarations are classified (Core/ToolKind), its tool choice is normalized and tested against
-- what the provider can represent (Core/ToolPolicy), and the tools it may carry are decided from
-- its profile, the Router's scoped actions and its history (Core/ToolAccess, Core/ScopedActions).
-- The registry resolves the model to a provider (Registry); providers that bill need an
-- acknowledgement on the machine (Spend). While a provider waits for a tool that the client runs,
-- the call is parked in the broker (Core/Broker); a provider's events reach the surface through a
-- bounded queue (Core/BoundedQueue), and what a request used is recorded on the way
-- (Observability).
--
-- Files and the code that they model:
--   Core/Errors, Core/Profile, Core/Model, Core/RouterEvent: src/core/errors.ts, router-profile.ts,
--     model.ts, events.ts; Core/Json: values of JSON.parse.
--   Core/Broker: src/core/deferred-tool-broker.ts. Key has `keyOf` and `splitScope`; State the four
--     maps and how an entry leaves them (`take`, `failEntry`, `rememberTerminal`); Operations the
--     public methods, the timer and the abort listener; Events sequences of them.
--   Core/ToolAccess: src/core/tool-access-policy.ts (`resolveToolAccess`, `inspectToolHistory`,
--     `assertProfileForToolSemantics`).
--   Core/ToolPolicy: src/core/tool-policy.ts. Core/ToolKind: src/core/tool-kind.ts.
--   Core/ScopedActions: src/core/scoped-actions.ts. Core/BoundedQueue: src/core/bounded-queue.ts.
--   Registry: src/registry/provider-registry.ts.
--   Identity: src/http/identity.ts, src/security/bearer-auth.ts, src/core/client-identity.ts.
--   Observability: src/observability/usage-store.ts, src/http/usage-tracking.ts.
--   Http/Server: the hook of src/http/server.ts and the routes that only read, with
--     src/http/diagnostics.ts. Http/Reply and Http/Admit: what the handlers share, the error mapping
--     of src/http/openai-chat.ts and the way from a parsed body to the request that is run.
--   Http/Chat: src/http/openai-chat.ts. Http/Responses: src/http/openai-responses.ts. Http/Anthropic:
--     src/http/anthropic-messages.ts. In each, Handler has the checks in the order of the code and
--     `prepare` the whole way to the provider, Plain the reply without streaming and Stream the loop
--     over a provider's events.
--   Http/Published: src/core/protocol-capabilities.ts (Core/Capabilities) against the handlers.
--   Core/ToolArguments: src/core/tool-arguments.ts.
--   Secrets: src/security/secret-redaction.ts and payg-guard.ts, and `serializeEnvelope` of
--     src/core/wire.ts.
--   Core/RequestControls: src/core/request-controls.ts. Core/ToolResultBound:
--     src/core/tool-result-bound.ts and tool-result-status.ts.
--   Spend: src/providers/command-code/spend-guard.ts, src/providers/cavoti/spend-guard.ts.
--   Providers/Cavoti: src/providers/cavoti. Frames has the event stream of client.ts and the records
--     in its frames, Fragments and Run the way of adapter.ts from these records to the Router's
--     events, Replies what a client of the Chat surface has from them.
--   Prelude: the language's Map, comparisons, lists and classes of characters.
-- A child module that is named for what it proves holds the lemmas of its parent; Tests modules run
-- the definitions on concrete values.
--
-- Every loop of the modelled code runs over a list, so the definitions are structural recursions;
-- only the decimal text of an array's index runs on fuel, which is the index itself. Times are
-- milliseconds as natural numbers, and a difference of times is taken of a clock that does not run
-- backwards. A promise is a number. An `await` is a sequence of events that may happen meanwhile.
-- What a stream yields is a list of events, each with whether the client's connection is destroyed
-- when it arrives. SHA-256, JSON.parse and JSON.stringify are parameters, as are what the registry
-- resolves a model to, whether a provider has an adapter, and what number a JSON number is. Texts
-- are sequences of Unicode scalar values; where UTF-16 units are counted, that is written out.
--
-- Not modelled: the HTTP framework, the listeners that abort a run when a connection closes, ids
-- and times in a reply, the other provider clients and adapters, processes, sockets and files of
-- the bridge, and the configuration's schemas.
mod Prelude
pub mod Core
pub mod Registry
pub mod Identity
pub mod Spend
pub mod Secrets
pub mod Observability
pub mod Http
pub mod Providers
