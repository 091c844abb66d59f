-- ===== src/Lib.antt =====
-- The backend of Dhund Research AI (TypeScript, NestJS): an API and a worker that keep users'
-- research documents, cut them into chunks, search them, and answer questions on them with AI
-- providers. This library models the decisions of the backend: who may do what in which project,
-- how many operations run at once, how uploads become documents and documents chunks, how a
-- search ranks and filters them, what reaches the AI, and how sessions end.
--
-- How the parts interact: a request carries an access token (Iam), is authorized for an
-- organization and a project (Platform/Access, Platform/Roles), and fails with one of the
-- registered errors (Platform/Errors). Costly work takes places in counters kept in Redis
-- (Platform/Gate over L0/RedisCounter). Documents go through states and are cut into chunks
-- (Ingestion). A search fuses two arms and maps evidence onto the hits (Retrieval), of which a
-- chat takes a bounded context (Orchestration). A call of a model passes the gateway (Ai): its
-- boundary and its checks, a chain of fallbacks over the providers' circuit breakers, and the
-- ledger that charges research runs.
--
-- Files, and the code each models:
--
-- - Base: lists, options and results; the stable sort; `new Set` over keys; Base/Javascript, the
-- operations on numbers and texts that the code uses of the runtime.
--
-- - L0/RedisCounter: src/l0/adapters/redis/redis-counter.adapter.ts. Its commands are steps on an
-- interface of integer keys; Race interleaves those of two clients.
--
-- - Iam/Sessions: src/iam/auth/auth.service.ts (`refresh`, `logoutAll`, `issueSession`), the
-- checks of `verify` in src/iam/tokens/access-token.service.ts, and the tables behind
-- src/l0/adapters/prisma/prisma-session.adapter.ts. An operation maps a store to an answer and a
-- store. `refresh_with` is `refresh` after its read, so that two clients can be interleaved.
--
-- - L0/Tables and L0/Actions: rows as the Prisma client reads and updates them, and code that
-- reads and changes a store and may throw, with the transaction of
-- src/l0/adapters/prisma/prisma-outbox.adapter.ts.
--
-- - Projects/Tenancy: src/projects/tenancy.service.ts over the tables behind
-- src/l0/adapters/prisma/prisma-tenancy.adapter.ts. Authorizer holds
-- src/projects/authorization/tenancy-authorizer.ts and the cached access contexts of
-- src/iam/authorization/access-context.service.ts; Service the operations, each an action on one
-- store, with the entries that the audit log takes as an argument; Coherence, Invariant, Changes,
-- Members, Created, Requests and Kept what holds of the store between requests; Access, Outcomes,
-- Granted, RoleChange and Deleted what a request may do and has done.
--
-- - Platform/Errors: src/platform/errors (error codes, statuses, client messages).
-- Platform/Runtime: src/platform/runtime/role.ts. Platform/Roles and Platform/Access: the roles
-- and decisions of src/platform/authorization. Platform/Gate: src/platform/concurrency, the
-- gate's counters as state, with its waiting loop.
--
-- - Ingestion/Documents: src/l0/ports/document-state.ts. Ingestion/Chunks:
-- src/ingestion/chunk.blocks.ts, with a text as its list of UTF-16 code units.
--
-- - Ingestion/Uploads: src/l0/ports/upload-session-store.port.ts. Sessions holds the tables
-- behind src/l0/adapters/prisma/prisma-upload-session.adapter.ts; Services, Create and Complete
-- src/ingestion/uploads.service.ts; Requests the requests one after the other; Kept, KeptCreate,
-- Limit, Once, Replay, Consume, Completed, Twice, Effects and Succeeded their properties.
--
-- - Ai: src/ai. CircuitBreaker is adapters/circuit-breaker.ts, with the clock's readings as
-- arguments; Requests the requests, their policy and their validation (gateway/gateway.types.ts,
-- policy, validation); Prompts policy/prompt-assembler.ts; Boundary
-- boundary/find-boundary-refusal.ts; Fallback adapters/fallback-chain.ts over the breakers, with
-- what other requests do meanwhile as an argument (Attempts and Ends say how its hops and its
-- walk end), and AdapterErrors adapters/adapter.errors.ts; Adapters the adapters of OpenAI,
-- Voyage and OCR; Ledger the tables that an execution writes; Gateway gateway/gateway.service.ts,
-- as actions on a store of breakers, ledger, runs and refusals. Gateway/Outcomes, Recorded and
-- Ended prove how an execution ends, Passed what its checks make sure of, Scores what a reranking
-- gets, Spending what the runs have consumed.
--
-- - Retrieval/Candidates, Fusion, Arms, Evidence and Search: src/retrieval (retrieval.port.ts,
-- rrf.ts; over-fetch.ts, ann-search.ts and lexical-search.ts; evidence-map.ts, quality-filter.ts,
-- authz-recheck.ts and filtered-recall.ts; retrieval.service.ts, where the embedding of the
-- query, the arms, the rerank, the lookup of the evidence and the store of the traces each may
-- throw).
--
-- - Orchestration/ChatContext: src/orchestration/chat-context.ts.
--
-- The files below a part prove its properties; those named Tests hold concrete inputs.
--
-- Loops: the cutting of an oversized block runs on fuel, one unit for each code unit and one
-- more; the wait for a place polls every 50 ms for at most 30 s, which 601 rounds cover; the
-- rounds over the documents' queues run on the number of hits and one more. Each bound covers the
-- longest run of its loop. All other loops are structural.
--
-- Parameters: the counters' integers in Redis, the UUID test, generated ids, object storage, the
-- queue, SHA-256, the clock, the stores' answers, the rerank service, which entries the audit log
-- takes, the answers of the AI providers and how JSON in them is read, the scores of
-- src/retrieval/bm25.ts, and, of the JavaScript runtime, floating-point numbers (an order up to
-- ties, addition, reciprocals), collation, UTF-16 lengths and the print of a number. Scores are
-- taken not to be NaN; of the amounts in Ai only that a whole number is an integer.
--
-- Not modelled: HTTP controllers and the parsing of requests, logging and metrics, database
-- access other than the tables of sessions, tenancy, uploads and AI executions, queues and the
-- relay of the outbox, extraction, the clients of the AI providers, evidence and claims, password
-- hashing, MFA and the signatures of tokens.
mod Base
pub mod L0
pub mod Iam
pub mod Projects
pub mod Platform
pub mod Ingestion
pub mod Ai
pub mod Retrieval
pub mod Orchestration
