-- ===== src/Lib.antt =====
-- Airport inspection platform: the state machines and stores at its core, with the theorems that
-- make them correct. Paths below are from the repository's root.
--
-- The program is a set of TypeScript services. Sensor frames and AI detections come in through
-- services/event-pipeline, are judged by the ten layers of services/validation-engine, and become
-- incidents in services/incident-service, whose transitions are published on Redis;
-- services/audit-service keeps the hash-chained log of them. packages/ holds what the services
-- share.
--
-- Incident (services/incident-service). Incident/Lifecycle is src/domain/state-machine.ts;
-- Incident/Aggregate is src/domain/incident.ts and events.ts; Incident/Repository is
-- src/repository/in-memory.ts, with JavaScript's Map as an association list in insertion order and
-- Array.prototype.sort as a stable insertion sort; Incident/Requests is the zod schemas of
-- packages/shared-contracts/src/domain/incident.ts and the UUID pattern; Incident/Routes is
-- src/routes/incidents.ts with src/events/publisher.ts.
--
-- Auth. Auth itself is packages/shared-contracts/src/auth/policy.ts and the gates of
-- packages/auth-jwt/src/fastify.ts: roles, permissions and what a route's gate answers. Auth/Jwt
-- is packages/auth-jwt/src/jwt.ts over the library jose, whose laws are the record IsJose of
-- Auth/Jwt/Tokens; Auth/SecurityEvents is packages/security-events/src/index.ts; Auth/Sessions is
-- services/api-gateway/src/routes/auth.ts with the list of packages/auth-jwt/src/revocation.ts, a
-- Gateway being the state that requests share.
--
-- Audit (services/audit-service). Audit/Canonical and Audit/Chain are src/chain/hash.ts;
-- Audit/Writer is the append of src/chain/writer.ts on the rows as they are inserted (what
-- PostgreSQL gives back of their other columns, a time as a Date among them, is not modelled), and
-- Audit/Writer/Concurrent the statements of several appends as steps that interleave.
-- Audit/Subscribers is src/subscribers, both subscribers over the append. Audit/App is the routes
-- of src/app.ts over the numbered rows, and Audit/App/Verify what the verification answers about a
-- sound chain. The rows of audit_events are a list in the order of seq.
--
-- Pipeline (services/event-pipeline). Pipeline/Dedup is src/dedup, the store of idempotency keys
-- and the wrapper of a handler; Pipeline/Orchestrator is src/consumers/orchestrator.ts;
-- Pipeline/Persistence is src/persistence/persist-handler.ts; Pipeline/Ordering is the watermarks
-- and the replay queue of src/prioritization, Pipeline/Prioritization its priority.ts and
-- middleware.ts with src/replay/worker.ts; Pipeline/Outbox is src/persistence/outbox-worker.ts,
-- with how each call of Redis and PostgreSQL goes as an argument of a tick; Pipeline/AiBridge is
-- src/ai-detections/bridge.ts. Auth/Hooks is what stands around the routes: verifyJwtHook of
-- packages/auth-jwt/src/fastify.ts, packages/http-safety/src/index.ts, and the limiter and the
-- hooks of services/api-gateway/src/app.ts.
--
-- Broadcaster (services/ws-broadcaster). Broadcaster/Registry is src/channels/registry.ts and
-- types.ts with src/presence, a client being its connection, since the ids are drawn for it;
-- Broadcaster/Hydrator is src/channels/hydrator.ts, with the table sensor_events as the list of
-- its rows; Broadcaster/Bridge is src/redis-bridge.ts, which takes what Pipeline/Persistence put
-- in the outbox; Broadcaster/Connect is src/routes/airport-events.ts, which verifies the token by
-- Auth/Jwt.
--
-- Notification is services/notification-service/src/subscribers/incident-notifications.ts, with
-- the events that Incident/Aggregate builds as its messages; Notification/Channels is
-- src/channels, over channels that share a state, and Notification/Channels/Unscoped sets the in-
-- app channel beside Broadcaster/Bridge, which reads what it publishes.
--
-- Dashboard (apps/web). Dashboard/AuthStore is stores/auth.ts and Dashboard/Incidents
-- stores/incidents.ts, each action cut at its await; Dashboard/IncidentApi is utils/incident-
-- api.ts over a state that its callbacks share, with the wiring to the session store from
-- composables/useIncidentDetail.ts. Dashboard/Timeline is utils/incident-timeline.ts.
-- Dashboard/Alerts is stores/alerts.ts with utils/alerts.ts, and Dashboard/Socket is
-- composables/useWebSocket.ts with utils/ws-reconnect.ts, its timer and listeners as steps.
-- Dashboard/Incidents/Agreement sets the store beside Incident/Lifecycle.
--
-- Http (packages/http-client). Http/CircuitBreaker is src/circuit-breaker.ts, with execute cut in
-- two at the call of its function, since calls overlap; Http/Client is the retry loop of
-- src/client.ts, by recursion on the number of attempts that are left, which retries bounds.
--
-- Validation (services/validation-engine). Validation/Layers is the contract of a layer
-- (src/layers/types.ts and packages/shared-contracts/src/validation); Validation/Orchestrator is
-- src/orchestrator, over any list of layers; Validation/Input, Rules, References, Sanity, Risk,
-- Review and Emission are the layers: 01-input; 03-business-rules with its thresholds; 04-source-
-- of-truth and 05-cross-system with src/reference/client.ts; 06-ai-output; 07-risk over any
-- arithmetic of doubles; 08-human-review and 10-certification; 09-audit with src/audit/sink.ts,
-- all of src/layers.
--
-- Conventions. A method that mutates an object returns the new record beside its result. An
-- exception is a value of Result. A clock is read by the caller: a time is an argument, as its ISO
-- text or as milliseconds. An absent and a null optional field are both none. JavaScript's texts
-- are compared by code points, which is its own order for the texts concerned (ISO times, ids and
-- keys, all ASCII). A number in JSON stands by the text that JavaScript prints for it, and
-- Prelude/Decimals compares two of them exactly. Code outside the repository is a parameter: zod's
-- own test of a UUID, JSON.stringify and JSON.parse, base64url, SHA-256, the library jose,
-- Date.parse, the addition of doubles, Redis and PostgreSQL; where a theorem relies on their
-- documented behaviour this is a hypothesis with a name of its own.
--
-- Not modelled: the layer of schemas of the validation engine and the proxied routes of the
-- gateway; logging and metrics except where the code's own result depends on them, process start-
-- up, the components of the web dashboard, and the Python inference service.
mod Prelude
pub mod Incident
pub mod Pipeline
pub mod Http
pub mod Notification
pub mod Validation
pub mod Broadcaster
pub mod Dashboard
pub mod Auth
pub mod Audit
