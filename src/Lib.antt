-- ===== src/Lib.antt =====
-- PulseGraph: a deduplicating alert engine. An alert is normalised, deduplicated and written, with a
-- decision, in one transaction; the decision queues notifications, which a worker delivers through
-- providers that may fail; timers close quiet incidents; and dashboards follow the ledger of events.
-- The modules model the parts that decide whether an alert reaches somebody. Paths are the
-- repository's.
--
-- Engine/Lifecycle is src/engine/incident_machine.py: the table of transitions as one function on
-- states and triggers. Engine/TimerWheel is src/engine/timer_wheel.py: the heap of deadlines, in
-- which a rescheduled deadline leaves a stale entry behind, as a list in the order of its entries.
--
-- Outbox is the delivery plane. Outbox/FailurePolicy (src/outbox/failure_policy.py) reads what a
-- failed delivery says about its channel; Outbox/Routing (src/outbox/routing.py) gives priorities
-- and fallbacks; Outbox/ChannelHealth (src/outbox/channel_health.py) keeps a circuit breaker for each
-- channel and a ledger of outages, and Outbox/HealthColumns has the columns that each of its updates
-- writes; Outbox/Recovery (src/outbox/recovery.py) collapses a queue to one
-- intent an incident. Outbox/Queue and Outbox/Worker are src/outbox/worker.py: the first has the
-- rows, their leases and their transitions, the second the dispatch of a batch, the handling of a
-- failure, the failover and one pass of the worker, over the whole store, the record Db of
-- Outbox/Tables (src/db/schema.sql). The worker asks the breakers which channels to serve, tells
-- them every outcome, and reroutes urgent rows when they declare an outage.
--
-- Selfcheck/Health and Selfcheck/Heartbeat are src/selfcheck/health.py and heartbeat.py: the verdict
-- on the system's own delivery, and the beat that it gates. Stream/SseBroker is
-- src/stream/sse_broker.py: what a client behind a cursor reads of the ledger. Db/HashChain is
-- src/db/hashchain.py, the append of src/engine/db_adapter.py and scripts/verify_chain.py.
-- Engine/ProcessEvent is src/engine/process_event.py: the decision on an alert, by the incident
-- that it belongs to, with what src/engine/db_adapter.py keeps for the next alert. Ingest/Auth is
-- src/ingest/auth.py: which caller may post into which scope. Ingest/ClockSkew is
-- src/ingest/clock_skew.py: how far the clock of a source is off. Inbound/Reconcile is
-- src/inbound/reconcile.py: what a callback of a provider does to an incident.
-- Engine/SilenceSweeper is src/engine/silence_sweeper.py: the sweep that closes silent incidents by
-- such a callback. Engine/TimerWorker is src/engine/timer_worker.py: it schedules the stored
-- deadlines again at start and commits those that Engine/TimerWheel finds due. Engine/Dedupe is
-- src/engine/dedupe.py: the stable identity of an alert. Inbound/Signatures is
-- src/inbound/signatures.py and src/github_integration/webhooks.py: which callbacks are genuine.
--
-- Github is src/github_integration. Github/SourcePolicy and Github/SourceContext
-- (source_context.py) choose and fetch the files that a diagnosis reads; Github/Workflow
-- (workflow.py) binds a proposed patch to them; and Github/Paths and Github/Workspace
-- (workspace.py) check its paths and texts and plan it over the files of a private workspace.
-- Github/Directory is the directory of that workspace, a tree of names: what one write or deletion
-- does to it, with Github/Directory/Result for the writing of a whole result and
-- Github/Directory/Reading for the walk that reads it; Github/Session is the life of a workspace,
-- which reads, plans, writes and reviews. Graph is src/graph/storm_grouping.py: the storms that
-- strongly correlated incidents are grouped into, over the tables of incidents, edges and groups;
-- Graph/Redirection sends the notifications of a member to the card of its storm, as
-- src/engine/process_event.py does. Graph/Observation is src/graph/observe_incident.py, the
-- evidence that a round of alerts adds, and Graph/RootCause is src/graph/root_cause_worker.py,
-- which ranks the scopes that have new evidence. Weights are of any type there, with the decay of
-- src/graph/edge_decay.py and the score of root_cause_ranker.py as arguments.
--
-- Prelude holds what the others share: tests on numbers and texts, lists counted by native numbers,
-- dicts as association lists, signed integers, sorted texts.
--
-- An operation that changes state takes the state and returns the new one; an exception is a value
-- of the result. A SQL statement is a function on the list of the table's rows, with its WHERE and
-- ORDER BY written out. Times and delays are natural numbers of milliseconds, or of microseconds
-- where a comment says so; one reading of the clock serves a whole operation; a provider's
-- Retry-After is not negative. Texts of errors are kept as data, not formatted or cut to a length.
-- Loops are structural recursion over the rows or the heap, so none needs fuel; a number is printed
-- with 20 digits at most, more than a time in milliseconds has. UUIDs are numbers or texts.
-- Lowering a text changes ASCII letters only, as every word that it is compared with is ASCII.
--
-- Parameters: what a provider answers, what recovery.py reads of an incident's row, the hash
-- SHA-256 with its width, the canonical JSON of an event and of its identity, the decay of evidence
-- and the score of a root cause, the answer of the watchdog, the threshold of silence of an
-- incident, HMAC-SHA256, the blobs that GitHub answers, the decoder of UTF-8, the tokens of a
-- signal, and the lines of difflib.
--
-- Not modelled: the adapters of Slack, PagerDuty and email, which format texts and call HTTP; the
-- recovery digest and the probe loop of the worker; the snapshot of the stream and its encoding;
-- the floating-point silence estimator and threshold, and the weights of the incident graph; the
-- clients and stores of GitHub and the language models; links in a patch workspace and refusals of
-- the system there that no shape of its directories explains; asyncio tasks, locks and
-- transactions, an operation being one atomic step.
pub mod Prelude
pub mod Engine
pub mod Outbox
pub mod Selfcheck
pub mod Stream
pub mod Db
pub mod Ingest
pub mod Inbound
pub mod Github
pub mod Graph
