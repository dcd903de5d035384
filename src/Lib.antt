-- ===== src/Lib.antt =====
-- hhc-line-function-bot: a LINE bot that runs functions (schedules, resources, knowledge, memories) for
-- the members and groups of several profiles. This library models the stores and the policies that decide
-- what a webhook event, a chat or a background worker may do, from the repository's TypeScript.
--
-- The parts, and how they meet. A webhook event is claimed in the receipt store, so that it is executed
-- once although LINE delivers it again. The rate limiter counts the request in its requester's and its
-- chat's windows. The access store says who may use a profile; effective access narrows the profile's
-- functions to those of the chat; the action policy then allows or refuses one action; a
-- destructive one waits for a confirmation. What takes long is
-- a job, whose requester fetches the result later. An attachment that is scanned and published is a work
-- item, claimed by one worker at a time, whose outcome is reported to the job store. What a requester has
-- been asked (a choice, an attachment, a review) is a session. The helper agent asks a model provider, or
-- a second one when the first is out of order, and the model calls functions through a gateway.
--
-- Which file models what:
-- - Receipts: src/idempotency/webhook-event-store.ts, `InMemoryWebhookEventStore` (tryStart, claim,
--   transition and delivery are `try_start`, `claim`, `transition` and `delivery`). In the same file,
--   `RedisWebhookEventStore` and its scripts: Receipts.Scripts, related to the in-memory store by
--   Receipts.Refinement, Receipts.SameAnswers and Receipts.Refined.
-- - Sessions: src/state/session-store.ts and src/state/session-safety.ts: what a session is and whom it is
--   for; Sessions.Store has the calls of `InMemorySessionStore` (`get_session`, `take_session`,
--   `set_session` and `delete_session` are get, take, set and delete; the others keep their names).
-- - Helper: Helper.Circuit and Helper.Failover are src/helper-agent/provider-failover.ts
--   (`createRedisProviderCircuit`, `fallbackError`, `_generate`); Helper.Gateway is
--   src/helper-agent/policy-gateway.ts with the budget of src/helper-agent/budget.ts.
-- - Line: `LineSource` of src/types.ts. Redis: the commands of a Redis server that the stores use, with the
--   laws that the theorems take of them, and a server that keeps these. Packing: a text format in place
--   of JSON, for examples.
-- - Jobs: src/agent/jobs.ts, `InMemoryAgentJobStore` (latest, createPending, markStarted, renewExecution,
--   complete, fail and get are `latest`, `create_pending`, `mark_started`, `renew_execution`, `complete`,
--   `fail` and `get_job`).
-- - ScanWork: src/attachments/scan-work-store.ts, `InMemoryAttachmentScanWorkStore`: ScanWork has an item
--   and what each call makes of it, ScanWork.Store the calls over the items and the job store.
-- - Access: src/access/types.ts, and in Access.Store src/access/memory-access-store.ts,
--   `InMemoryAccessStore`; Access.Effective is src/application/access/effective-access.ts.
-- - Actions: src/actions/policy.ts, over src/actions/catalog.ts. Capability: src/capabilities/names.ts and
--   the side effect levels of src/capabilities/catalog.ts.
-- - Confirmations: src/actions/confirmation-store.ts, `InMemoryConfirmationStore` and `sanitizeArgs`;
--   Confirmations.OnRedis is `RedisConfirmationStore` with its script.
-- - RateLimit: src/rate-limit.ts, `InMemoryRateLimiter`.
-- - SearchQuota: src/state/public-search-quota.ts, the daily quota of public searches. InviteCodes:
--   src/access/registration-invite-code-store.ts, in memory (`create_code`, `consume_code`) and on Redis
--   (`redis_create_code`, `redis_consume_code`).
-- - JsMap is JavaScript's `Map` with text keys; Prelude holds the shared names, list functions and text
--   tests.
-- A module named History holds a call as a value of a data type, `step` and `run`; the modules beside it
-- hold the theorems and are named for what they are about, and Examples holds runs and the theorems at
-- concrete inputs.
--
-- How it is modelled. A store's state is a record or a map, and a call is a function from the state and its
-- arguments to the new state and the answer. The in-memory stores run a call to its end, so that calls
-- that are made at once are a sequence of steps. The clock's readings are arguments, in milliseconds: one
-- for each reading that a call makes, but that the sessions' calls, which look at every session, make
-- one, and that a Redis script sees the server's clock once, apart from its store's own. A timestamp that the source keeps as a `toISOString` text is a
-- number. Generated ids (`randomUUID`) are arguments, and where two entries must not get the same one the
-- theorem says so. A `catch`, `throw` or `undefined` is an Option or a constructor of the answer. Texts are
-- compared as the source compares them; the order of texts of `sort` and `localeCompare` and SHA-256 are
-- arguments. Contents that the code passes on without a look (a job's result and
-- context token, an audit event's metadata) are type parameters. Numbers are natural numbers: the source's
-- are times, lengths of time and counts, far below the 2 ^ 53 up to which JavaScript's are exact. The loops
-- go over lists and need no fuel, but for the chain of an error's causes, of which the source looks at five.
-- A Redis script is a function of the server's state, since Redis runs it whole. A key is taken to be gone
-- from the millisecond on at which it expires; what a script does with a key that has none left to live
-- (`PTTL` of 0) is then out of reach. cjson and `JSON.stringify` are arguments, of which it is assumed only that what is
-- written can be read back.
--
-- Not modelled: the Redis implementations of the rate limiter, the jobs, the scan work and the sessions, the PostgreSQL stores and migrations, the
-- LINE and HTTP transport, the service clients, the agent runtime and its model calls, the media
-- synchronisation, texts and prompts, configuration, and the tools and evaluations.
pub mod Prelude
pub mod JsMap
pub mod Line
pub mod Packing
pub mod Redis
pub mod Receipts
pub mod Capability
pub mod Jobs
pub mod ScanWork
pub mod Access
pub mod RateLimit
pub mod Actions
pub mod Confirmations
pub mod Sessions
pub mod Helper
pub mod SearchQuota
pub mod InviteCodes
