-- ===== src/Lib.antt =====
-- Verification of the backend of OpenAgentNet (backend/app), a network in which agents discover each
-- other, negotiate contracts, exchange tasks, pay through escrows and run workflows.
--
-- Parts and files, with paths below backend/app:
-- - Prelude: shared names, Boolean tests, lists, signed integers, counts of numbers in lists.
-- - Db: core/database.py. A table is the list of its rows with their primary keys; a request is a
--   transaction that commits what it returned with, or is rolled back when it raises (`get_db`).
-- - Identifiers: core/identifiers.py, the spellings of an agent's identity.
-- - Tasks: models/task.py, the table of tasks that several services share.
-- - Negotiation: services/negotiation/service.py with models/negotiation.py, negotiation_round.py and
--   task_contract.py. State is the tables, Service the operations `create_proposal` and `respond`.
-- - Marketplace: the escrow operations of services/marketplace/service.py, which read the tasks' table,
--   in Links their foreign keys, in Deleted `delete_listing`, and in Usage and Metered its metering; the
--   numbers of calls are not negative.
-- - Orchestration: services/orchestration/service.py. Dag is `validate_dag` and `topological_order`,
--   Engine is `create_workflow` and `_execute_step`, Run is the dispatch engine `_run_workflow`.
-- - Teams: services/team/service.py and models/team.py. Requests is the invariant over requests,
--   Membership who may change a team.
-- - Memory: services/memory/service.py and models/memory.py. Access says who can read, through the
--   members' table of Teams too, and Write that a write can be read.
-- - Agents: models/agent.py, the table of agents that several services share.
-- - Trust: services/trust/service.py and components.py with models/trust.py. Numbers is the interface of
--   the floats, Score the weighted components, Service the operations, Bounds and Effects what an
--   operation does to the trust records, Requests sequences of requests.
-- - Registry: services/registry/service.py with models/agent_version.py and schemas/agent.py. Service is
--   the operations, Revisions and Requests the numbering of the versions, Keys the rotation of keys.
-- - CapabilityIndex: core/capability_index.py. Redis is the writes, Candidates the query, Catalog the
--   abstract view with one entry for each agent, Ranks and Refines that the index refines it.
-- - RateLimit: core/rate_limit.py. Middleware is the dispatch, Window the bound of a window.
-- - Messaging: services/messaging/service.py and report_task_result of api/v1/messages.py. Guards are the
--   checks of a message, Send and Team the two ways to send it, Read and Presence listings and
--   heartbeats, Order the order of a listing, Sent, Growth, Spread, Replay and Pages what they leave
--   behind, Reports a task's result.
-- - Workers: core/workers.py. Passes is one pass of the delivery and of the expiry worker over the trust
--   service's tables, Rows and Delivery what becomes of the tasks, Outcomes what trust is told.
-- - Streams: append_task_stream_chunk of api/v1/messages.py and models/task_stream.py.
--
-- How the code corresponds: a method that changes rows is a function of the tables that returns the
-- changed tables or the exception; `async` methods are one step each, since each runs in one session.
-- UUIDs and the ids of workflow steps are only compared, so they are numbers, 0 for an empty id; the
-- standard library's `uuid` is a parameter, as are the iteration order of a set and the tables of
-- characters that `str.upper` and `str.isalnum` use. The clock is read once in a request and is an
-- argument, and so are drawn UUIDs and tokens. JSON values that are stored and never read are texts.
-- A `select` on columns with a unique constraint finds the first row that fits; a flush that would
-- break a primary key or a unique constraint raises an integrity error. The amount of a request for an
-- escrow is an unrounded finite decimal; what the column `Numeric(20, 8)` keeps of it, in units of
-- 10^-8, is a parameter, as is the order that the database gives to the rows of a listing.
--
-- Redis is taken to answer. Hashes, signatures, JSON Schema and the network's answers are
-- parameters. Floats are a parameter: a carrier with the operations that the trust service uses. The
-- anomalies that the trust service logs are kept, since it reads them again. When listings or tasks are
-- deleted, Marketplace.Links removes and unlinks the escrows as the foreign keys say; the other
-- references to rows of other tables are taken to be kept by the database.
--
-- Bounds: Kahn's loops take the number of the steps as fuel, one round for each step; the retries of
-- a step go down by one in each round. All other loops follow a list.
--
-- Not modelled: publishing events over NATS and the audit log, which are best effort and change no
-- row, HTTP and WebSocket transport, and failures of the database other than broken keys and amounts
-- that a column has no room for.
pub mod Agents
pub mod CapabilityIndex
pub mod Db
pub mod Identifiers
pub mod Marketplace
pub mod Memory
pub mod Messaging
pub mod Negotiation
pub mod Orchestration
pub mod Prelude
pub mod RateLimit
pub mod Registry
pub mod Streams
pub mod Tasks
pub mod Teams
pub mod Trust
pub mod Workers
