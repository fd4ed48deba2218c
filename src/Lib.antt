-- ===== src/Lib.antt =====
-- Memovi, a self-hosted knowledge operating system: a FastAPI application (apps/api) over Python
-- packages (packages/*), of which these files model the parts below.
--
-- Documents (packages/documents/src/documents). A document's version is processed by a job.
--   Documents/Job       domain/entities/processing_job.py: the entity and its transitions.
--   Documents/Session   infrastructure/repositories: the tables as lists of rows, and what reads and
--                       writes them. An action returns its result or exception beside the state.
--   Documents/Queue     infrastructure/queue/sqlalchemy_processing_job_queue.py: claims, enqueueing
--                       and the recovery of interrupted jobs, over the same rows.
--   Documents/Process   application/commands/process_document.py: one run of the processing.
--   Documents/Text      domain/services/text_normalizer.py, over code points.
--   Documents/Commands  start_processing, complete_processing, fail_processing, reprocess_document.
--   Documents/Worker    application/workers/document_processing_worker.py: the loop, with commits,
--                       rollbacks and retries.
-- Events (apps/api/src/api/events/in_process_event_dispatcher.py). The dispatcher and the buffered
--   publisher, which the worker flushes after a commit.
-- Automation (packages/automation/src/memovi_automation). Capabilities run under permission policies.
--   Automation/Values         domain: exceptions, requests, contexts, results.
--   Automation/Arguments      application/services/argument_validation.py.
--   Automation/Store          the registry, and the stores of infrastructure/in_memory_*.py.
--   Automation/Authorization  application/services/capability_authorization_service.py.
--   Automation/Invoker        application/services/capability_invoker.py. A capability's execution is
--                             a `Run`: any change of the shared state, a duration and an outcome.
--   Automation/Engine, Submission, Operations, Administration
--                             application/services/capability_execution_engine.py.
--   Automation/Codec, Durable infrastructure/execution_state_codec.py and
--                             sqlalchemy_execution_state_store.py: the durable store of executions.
--   Automation/Histories      sequences of the engine's operations.
--   Automation/Plans          application/services/execution_plan_validator.py and
--                             plan_execution_service.py.
--   Automation/Workflows      domain/value_objects/workflow.py and
--                             application/services: workflow_validator.py and `execute` of
--                             workflow_engine.py, with capability_planner.py on one step.
-- Memory (packages/memory/src/memovi_memory).
--   Memory/Chunks             domain/services/chunk_generator.py, over code points.
-- Workspace (packages/workspace/src/memovi_workspace). Users share a workspace, which has an owner.
--   Workspace             domain/entities, and infrastructure/repositories over tables of rows.
--   Workspace/Commands    application/membership_guards.py and application/commands.
--   Workspace/Histories   sequences of requests, each of which is a transaction.
--
-- The worker takes a claimed row from the queue, runs it in a session, commits or rolls back, and then
-- flushes the publisher or queues the job again. A time is a number of microseconds, and each reading
-- of the clock is an argument. Object storage, PDF text and the decoding of bytes are the record
-- `Documents.Process.Ports`. Identifiers are texts; that an identifier is a UUID is not modelled, and
-- a fresh one is an argument. Sleeping, logging, metrics and request context are left out, as are the
-- failure of a commit and threads: operations of several workers are sequences of whole transactions.
-- The engine authorises a request, keeps it while it waits for an approval, and runs it by the invoker;
-- what other threads do during a run is a part of the run. Free-form metadata, durations, summaries of
-- arguments and the names of permissions are left out. The durable store is a table of rows; `shown` is
-- Python's `str` of an object that is not a text. The engine's operations are over the store in memory,
-- whose calls the durable one refines.
-- A workflow's run is given its fresh identifier, and for each step the identifier and the run of its
-- capability; the history is what it stores, by the identifier of the run.
-- A request of Workspace is one transaction; the directory of users, the parsing of a UUID and
-- Unicode's lower case are the record `Workspace.Commands.Ports`.
-- One definition takes fuel: `Memory.Chunks.range`, which `generate` gives the length of the text, and
-- as each step is one or more that is enough. The other loops run over lists.
pub mod Automation
pub mod Documents
pub mod Events
pub mod Memory
pub mod Prelude
pub mod Workspace
