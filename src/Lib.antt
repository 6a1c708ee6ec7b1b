-- ===== src/Lib.antt =====
-- Verification of the FeatureSignals server (the Go code in server/internal) and of the router
-- in front of it (deploy/global-router).
--
-- The server keeps feature flags, evaluates them for the users of its clients, and guards its
-- management with permissions, limits, credits and validation. The parts that are modelled, with
-- the source of each:
--
-- - Domain: the entities of server/internal/domain/flag.go, segment.go, ruleset.go and
--   eval_context.go as records, their string constants as data types with `other` for any other
--   string.
-- - Eval: the evaluation. Eval/Hash is server/internal/eval/hash.go (MurmurHash3 on 32-bit
--   words, the wrap-around written out, and BucketUser); Eval/Rules is
--   server/internal/eval/rules.go; Eval/Engine is server/internal/eval/engine.go, with one
--   function per stage of `evaluate` in the order of the code: look up, expiry and state,
--   exclusion group, prerequisites, rules by priority, default rollout, variants. Eval/Std is
--   the record of what the engine takes from Go's packages (floats, fmt, regexp, json and sort);
--   the law of the sort that a theorem needs is its hypothesis SortLaws. The modules below
--   Eval/Engine hold the proofs, by topic.
-- - Validate: server/internal/domain/validate.go, the Validate methods of flags, states,
--   variants, segments and conditions. What a state must satisfy is what the evaluation of
--   variants needs.
-- - Plans: server/internal/domain/features.go, the features of a subscription tier.
-- - Ops: server/internal/domain/ops_permissions.go, the role table of the operations portal;
--   Ops/Middleware is server/internal/api/middleware/ops_permissions.go, the checks on requests
--   that use it.
-- - Limits: server/internal/api/middleware/ratelimit.go, the request limiters. Their limits per
--   tier use Plans. The lock of a limiter makes each request, and each run of the cleanup, one
--   step; Limits/Window runs sequences of such steps.
-- - Credits: server/internal/store/postgres/credit_store.go and
--   server/internal/domain/credits.go. The tables are the state; each statement may fail, a
--   transaction works on a copy, and readings outside of it may be stale. Credits/Consume,
--   Credits/Purchase and Credits/Monthly are the three operations, and Credits/Histories their
--   sequences as a step relation.
-- - Delivery: server/internal/webhook/dispatcher.go and server/internal/retry/backoff.go, the
--   queueing of an event for its webhooks, the attempts of a delivery and the waits between
--   them.
-- - Approvals: server/internal/api/handlers/approval.go, the change requests to flag states.
--   Approvals/Review is the review with the change that it applies; Approvals holds the tables
--   and the statements.
-- - Pages: server/internal/api/dto/pagination.go, the pages of lists and the columns they may be
--   sorted by.
-- - License: server/internal/license/license.go, the keys of self-hosted servers. License/Laws
--   has what a verified key tells, License/Issuing that an issued one is accepted.
--   License/Gate is server/internal/api/middleware/license.go, the gate of a self-hosted server.
-- - Cache: server/internal/store/cache/inmemory.go, the cache of rulesets, with the lookup of
--   server/internal/api/handlers/eval.go; Cache/Streams is server/internal/sse/server.go, the
--   connected clients. Cache/World is the cache beside a database that changes, as a step
--   relation with the changes that the database announces and those that it does not, loads in
--   their three queries and notifications on their way; Cache/Current, Requests and Snapshots
--   have what a request is given, Cache/Rulesets what a load builds, and Cache/Broadcasts what a
--   change does to the streams.
-- - Gateway: deploy/global-router, the router in front of the clusters. Gateway/Firewall,
--   Gateway/RateLimiter and Gateway/Connections are security.go, Gateway/Config is config.go with
--   the reading of limits, and Gateway/Routing is router.go, health.go and the middleware chain.
--   The regular expressions and SHA-256 are the fields of Platform.
-- - Scheduler: server/internal/scheduler/scheduler.go. Scheduler has the ticks that apply planned
--   changes of flag states, Scheduler/Accounts the hourly jobs on organizations; a fault may take
--   any statement. Scheduler/Ticks, Settling and Fates hold the proofs.
-- - Gates: the middleware of server/internal/api/middleware that guards the management API, in the
--   order of server/internal/api/router.go; Gates/Portal has the checks of the environments and of
--   the operations team. Gates/Passing inverts each gate and Gates/Managing their chain. The
--   organizations are those of Scheduler, the features those of Plans.
-- - Money: the formatting of amounts in server/internal/domain/billing.go. Money/Digits and
--   Money/Signs read the text back.
-- - Endpoints: server/internal/api/handlers/eval.go with the lookups of keys and environments in
--   server/internal/store/postgres/store.go, over Eval and Cache. Endpoints/Served has the answers of
--   the evaluation requests, Endpoints/Streamed the streams.
-- - Mails: server/internal/lifecycle/processor.go and the tables of server/internal/domain/mailer.go.
--   Mails/Consent shows whom a message reaches.
-- - Base: what the parts share: native numbers, their tests, integers, Go's strings as lists of
--   bytes, maps as association lists, and lists.
--
-- Numbers are native ℕ where the source's value is never negative, and ℤ over them otherwise;
-- instants are nanoseconds. Only the conversions and products that can wrap around are taken
-- modulo a power of 2: the hash, the backoff and the limits of the router. Sums of weights and counts are far below
-- 2^63.
--
-- `evaluate` recurs over prerequisites with fuel, one more than there are flags: each call in
-- depth adds a flag that was not visited before, and Termination shows that the fuel is always
-- enough. The other loops are structural recursion; the loop of a delivery is on the attempts
-- left, and that of the backoff on the rounds left.
--
-- Not modelled: the other HTTP handlers, the other SQL of the store, the sending of mail, payment,
-- SSO and MFA, the writing of streams, the migration tools, the files, certificates and DNS
-- answers of the global router, ops-portal, the SDKs and the user interface. Log lines, metrics
-- and spans are left out everywhere, and so are fields that no modelled operation reads.
pub mod Base
pub mod Domain
pub mod Eval
pub mod Validate
pub mod Plans
pub mod Ops
pub mod Limits
pub mod Credits
pub mod Delivery
pub mod Approvals
pub mod Pages
pub mod License
pub mod Cache
pub mod Gateway
pub mod Scheduler
pub mod Gates
pub mod Endpoints
pub mod Mails
pub mod Money
