-- ===== src/Lib.antt =====
-- CreditLens verification library: the review workflow of the CreditLens backend
-- (src/creditlens/), modelled and proved correct.
--
-- The program. A review run reads a credit case and takes it through a fixed sequence of states.
-- The supervisor runs the professional agents, the challenger and the auditor, stores what they
-- return, and either completes the run with a draft report or leaves it to a reviewer. The
-- reviewer's decisions resume the run, and the last of them completes it with an approved report.
-- What agents read has been retrieved and packed into a token budget. Each call of a model or a
-- tool leaves an invocation record and an outbox row, which a worker delivers to exporters.
--
-- Files, and the code they are about (paths from the repository's root):
--   Base        helpers: tests on numbers, lists and tables, results, text as code points, and
--               `Exec`, methods that write to a store and may raise, whose writes stay when they
--               do; `Ends` says what holds of the value and the store of a call
--   Workflow    src/creditlens/agents/supervisor.py and infrastructure/postgres/models.py
--     Status    `_TRANSITIONS` as `targets`, and the test of `_transition` as `allowed`
--     Records   the rows: ReviewRun is `Run`, the others keep their names; `Db` is the database
--               as one session sees it
--     Events    `_EventWriter` as `EventWriter`, `emit` and `advance`; `_transition` as `transition`
--     Follows   what every step of a run keeps (proofs)
--   Supervisor  src/creditlens/agents/supervisor.py, class Supervisor
--     Agents    AgentArtifact and AgentClaim (agents/contracts.py), AuditResult (agents/auditor.py),
--               `agent_tasks`, `_CRITICAL_AGENTS`, `_raise_if_invocation_audit_failed`
--     Persist   `_persist_artifacts`, `_persist_evidence`, `_apply_audit_to_claims`
--     Execute   `_execute_with_event_writer` up to the end of the loop over the agents: one
--               function for each branch, `run_tasks` for the loop
--     Stages    the rest of it, from the challenger to the report, and `execute_full_review`
--     UnderWay, Tasks, Audit, Ending, Reporting, Outcome, Review, Halting, Critical   (proofs)
--   Review      src/creditlens/agents/supervisor.py, `resume_after_human_review`
--     Decide    the function with its guards, in the order of the code; `_same_human_decision`
--     Completion, Effects, Taking, Outcome, Guarantees, Protection   (proofs)
--   Report      src/creditlens/agents/report_agent.py
--     Generate  `ReportAgent.generate`, `persist` and `diff_reports`; Differences   (proofs)
--   Cases       the material of cases (infrastructure/postgres/models.py)
--     Tables    the tables, `TrustedRequestContext` and `SnapshotContext`
--     Snapshot  application/snapshot_service.py; Trusted  application/trusted_context.py
--     Validity, Frozen, Active, Eligible, Authorised   (proofs)
--   Audit       src/creditlens/agents/contracts.py and agents/auditor.py
--     Artifacts AgentArtifact and what it holds, and AuditResult, as the auditor reads them
--     Contract  `validate_artifact_contract`
--     Evidence  the checks of a piece of evidence; Verify  `_reject_evidence` and `verify`
--     Grounded  the steps of `verify_grounded_answer`; Answer  its checks, and the whole of it
--     Judging, Counted, Cited, Citations, References, Kept, Vetted, Accepted, Passing,
--               Deriving, Rendered, Grounding   (proofs)
--   Retrieval   src/creditlens/retrieval/context_packing.py, dense.py and fusion.py
--     Packing   the loop of `pack_context` over the candidates
--     Expanding the expansion by neighbours, and `pack_context`
--     Verifying `verify_candidate`
--     Fusion    `rrf_fuse`
--     Totals, Within, Budget, Access, Admitted, Readable, Fused, Ranked, Covered
--               (proofs)
--   Tools       src/creditlens/tools/gateway.py
--     Gateway   `ToolGateway.invoke`: `reserve` under the lock, `finish`, and
--               `_emit_invocation_event` with a v2 sink as `emit`
--     Budget    the steps by which calls interleave, as a relation
--     Logged, Invoke, Audit   (proofs)
--   Formulas    src/creditlens/formulas/engine.py
--     Decimal   the arithmetic of `decimal.Decimal` as an interface
--     Engine    `_SafeEvaluator`, `compute_metric` and `replay_calculation`
--     Evaluation, Replay, Agreeing, Status   (proofs)
--   Outbox      src/creditlens/observability/outbox_worker.py
--     Row       TelemetryOutbox as `Row`, and the settings of the worker as `configure`
--     Claiming  `_claim_due_entries_stmt` and `_claim_batch`
--     Delivery  `_load_envelope`, `_mark_delivered`, `_mark_failure` and `process_batch`
--     Lifecycle the CHECK constraints of the table, and `safe_error_code` (observability/invocation.py)
--     Ownership, Unique, Fencing, Keeps, Counts, Terminal   (proofs)
--   Ledger      src/creditlens/observability/writer.py
--     Tables    the tables and the envelope
--     Writer    `InvocationWriter.record` as `record_invocation`, with the race on the unique keys
--     Found, Again, Recorded, Sound   (proofs)
--
-- How the parts interact. Supervisor and Review share the rows, the transitions and the event
-- writer of Workflow, and both write reports through Report. Supervisor takes the agents as
-- functions from the database to an artifact or an exception, with the ledger codes of their tool
-- calls, which Tools produces. Audit replays the calculations of Formulas, and it and Retrieval read
-- the tables, the context and the snapshot of Cases. Ledger writes the rows that Outbox
-- delivers.
--
-- Representation. Identifiers, dates and times are natural numbers; a UUID that was sent as text
-- is its spelling with the UUID that it spells, if any. A dict is an association list, newest first.
-- Tables are lists of rows. A flush or a commit is no step: one session sees its own writes at
-- once. The writes of a call that raises stay in the model; the application's boundary rolls
-- them back. All recursion is on lists: no fuel is used. Identifiers of artifacts and claims come
-- from uuid4, so that no insert of the supervisor meets a unique constraint; the unique constraint
-- on decisions, which races do meet, is modelled in Review.
--
-- Parameters: the agents and, for the supervisor, the auditor; the integrity check of claims
-- against their artifacts (infrastructure/postgres/artifact_integrity.py); the hashes of a report,
-- of a snapshot and of a calculation's trace; decimal arithmetic; which characters are digits or
-- white space, and the auditor's lexical guards on numbers, polarity, thresholds and coverage; the
-- float product that gives a document's quota, and the floats of the fusion's scores; the tools
-- and the sink of the gateway, and whether an envelope could be built; the exporters, and the
-- schema and hash of an envelope; the clock; what other sessions commit in between.
--
-- Not modelled: the agents' own code, question answering, the search of the retrieval channels,
-- ingestion, and the adapters of invocations (observability/invocation.py); the models of the
-- supervisor and of the gateway have a failure of the writer as a case; the gateway's legacy event
-- sink; the cancellation of a review while one of its agents runs, since an agent of the model
-- returns or raises an Exception; the adapters of databases, models and files; the HTTP interface;
-- the evaluation and demonstration programs.
pub mod Base
pub mod Outbox
pub mod Workflow
pub mod Report
pub mod Review
pub mod Supervisor
pub mod Retrieval
pub mod Tools
pub mod Formulas
pub mod Cases
pub mod Audit
pub mod Ledger
