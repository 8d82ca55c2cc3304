-- ===== src/Lib.antt =====
-- ReconLedger: a passive reconnaissance assistant. A user launches a job on a target; a runner executes
-- one collector per selected source; collectors ask providers through a guarded gateway; findings are
-- stored, compared, searched and exported. This library models the backend, backend/app.
--
-- Models: the rows, enums and JSON values of backend/app/models. Models/Db has `Database`, the tables as
-- lists; a transaction is a function on it.
-- Security: Security/Gateway is `ValidatingTransport` and `OutboundGateway` of
-- backend/app/security/gateway.py, with the requests that leave it and its waits kept in its state;
-- Security/Network and Security/RateLimit are its address policy and retry policy; Security/Targets is
-- `classify_target` of backend/app/security/targets.py.
-- Security/Seeding is the seeding of the deny-list, of backend/app/jobs/deny_list.py and
-- backend/app/security/doh_resolve.py.
-- Security/Origins is the test on requests of backend/app/security/origins.py.
-- Security/Redaction is backend/app/security/redaction.py.
-- Security/RateLimiter is the token bucket of backend/app/security/rate_limit.py.
-- Collectors: the contract, the errors and the registry of backend/app/collectors, and its archive_urls.py.
-- Collectors/Context is what a run works with: a run is a function on a session, which keeps the requests
-- sent, the cache and the clock. Collectors/Caching is caching.py, and the frame `cached_or_asked` that the
-- runs share. Collectors/Wayback, Collectors/CommonCrawl, Collectors/Crtsh, Collectors/Rdap,
-- Collectors/DnsDoh, Collectors/Ripestat and Collectors/Technology are the files of these names in
-- backend/app/collectors; `run` is in a child module of most. Collectors/Metadata has what they declare. A
-- sampling loop ends with its list of entries, which has twenty at most.
-- Jobs: Jobs/Service is `create_job` of backend/app/jobs/service.py; the rest is `JobRunner` of
-- backend/app/jobs/runner.py. Jobs/Queue has its transactions on the queue, Jobs/Tasks the coroutine of one
-- collector run as a state machine whose turns are its transactions, Jobs/Dispatch `run_job`: schedules say
-- how coroutines and the requests of Api/Jobs (backend/app/api/jobs.py) interleave, where a retry is a
-- request of three steps. Jobs/Startup is what `lifespan` of backend/app/main.py does before it serves.
-- Jobs/WorkerLock is backend/app/jobs/worker_lock.py, Api/EventStream the stream of progress events.
-- Services: retention, diff, cache, search phrases, CSV cells and the subdomain workspace of
-- backend/app/services. Services/Cache/Replay has the map that the cache table refines. Api/JobReads is the
-- reading half of backend/app/api/jobs.py, Api/Catalog is sources.py and diffs.py of backend/app/api.
-- Examples: concrete inputs.
--
-- Loops: the retries and redirects of the gateway are bounded by the policy and by `max_redirects`, which
-- the recursion follows, so no fuel is chosen. A coroutine needs five turns at most; what a schedule leaves
-- undone, `complete` runs to its end with five turns for each coroutine. When a coroutine raises, `gather`
-- ends there, and what the other coroutines do after that is not modelled.
--
-- Arguments of the model: name resolution, the wrapped transport, URLs, clock, random numbers, Unicode
-- tables, the parser of addresses, `csv.writer`, and, for the job runner, what a collector returns or
-- raises and whether the database takes its findings. For the collectors: the gateway's answers, JSON,
-- SHA-256, IDNA, ISO times, UTF-8 and regular expressions. Times are whole numbers; a subtraction of times stops at 0. The UPDATEs of a transaction
-- read the clock once.
--
-- Not modelled: reports, the handlers of exports and of the cache, the worker loop and the shutdown,
-- settings, migrations and the frontend. Transactions other than that of the findings are taken to commit,
-- and a job is dispatched beside requests, but not beside the dispatch of another job.
pub mod Prelude
pub mod Models
pub mod Security
pub mod Collectors
pub mod Services
pub mod Api
pub mod Jobs
pub mod Examples
