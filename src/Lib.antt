-- ===== src/Lib.antt =====
-- A model of the telecom voice agent platform. A caller talks to an agent worker. When its model
-- calls a tool that changes something, the worker asks the decision service for a confidence, the
-- policy service for a binding verdict, and, if the verdict authorises the action, the execution
-- service to do it. Both services write an audit trail that is chained by hashes.
--
-- Base: Boolean tests, lists over the native naturals, signed integers (Base/Int), Python dicts in
-- insertion order (Base/Dict), JSON scalars (Base/Json), the printing of numbers (Base/Text).
--
-- Policy: services/policy-service/src/policy_service. Policy/Types: rules/base.py, config.py and
-- schemas.py. Policy/Rules: check_mandatory, check_payment, check_deferral and check_sim of rules/.
-- Policy/Engine: evaluate_action of engine.py. Policy/Outbound: the regular expression and
-- check_outbound of rules/outbound.py. Policy/Service: PolicyService of service.py, with the row and
-- the audit entry of _persist in one step, since they are one transaction.
--
-- Audit: packages/audit-trail/src/audit_trail/ledger.py. Audit/Ledger has the two ledgers, the
-- in-process AuditLedger and PgAuditLedger, whose table is a list in the order of seq; Audit/Chain
-- and Audit/Tamper are about the chain. Audit/Lock is PgAuditLedger.append by its statements: a step
-- relation on the table, the holder of the advisory lock and any number of transactions, which see
-- committed rows and their own.
--
-- Persistence: packages/persistence/src/persistence: util.py, and the rows of models/ that the
-- services write. A Db is the verdicts, the audit table, the action ledger and the tables of the
-- domain.
--
-- Execution: services/execution-service/src/execution_service. Execution/Executor: executor.py.
-- Execution/Projections: projections.py. Execution/Service: ExecutionService.execute of service.py.
-- execute_racing has two views of the ledger, the rows that the first lookup sees and the database
-- that the flush meets, so that other calls may commit in between; execute is the case where none
-- does. A transaction that raises returns the database as it was.
--
-- Decision: services/decision-service/src/decision_service/scorer.py.
--
-- Worker: apps/agent-worker/src. Worker/Session: session/. Worker/Outcomes: tools/outcomes.py.
-- Worker/Clients: clients/, with three ways for a call to go: it is served, the request is lost, or
-- the reply is lost after the service ran; and the parsing of the request by the service's schema.
-- Worker/Guarded: tools/guarded_action.py, on a state of the session and the database.
--
-- Worker/Identity: tasks/identity_verification_task.py and tools/guards.py, with the caller's answers
-- as a list. Worker/Tools: the sensitive tools of agents/billing_agent.py, agents/technical_agent.py
-- and tools/account_tools.py, with what the tasks and reads answer as arguments.
--
-- Worker/Sentiment: sentiment/sentiment_scorer.py, with str.lower as an argument, and
-- tools/clarification_tools.py.
--
-- Worker/Hooks: _extract_text and on_user_turn_completed of agents/base_agent.py, on the user data and
-- the writer that the session holds.
--
-- Worker/Handoffs: tools/escalation_tools.py, tasks/consent_task.py, tasks/callback_schedule_task.py,
-- clients/routing_client.py and telephony/sip_transfer.py. Worker/Call: _open_conversation and the
-- shutdown callback of server.py, and a call as a list of what happens in it.
--
-- Worker/Profile: from_snapshot, the snapshot and identity calls of clients/context_client.py, and
-- _prefetch_user_data of server.py.
--
-- Worker/Conversation: conversation/writer.py. Its calls put items on a queue; Worker/Conversation/Drain
-- is _write and _drain, where each write meets Postgres up or down, on the tables of
-- Persistence/Conversation (models/conversation.py, ConsentRecord of models/crm.py) with their keys,
-- checks and lengths. Worker/Conversation/Events is the calls of one session in their order; the other
-- children are about what is on file afterwards.
--
-- Pii: packages/pii-shield/src/pii_shield/masker.py. Each regular expression is a matcher at a
-- position, and its substitution goes through the text by characters.
--
-- Context: services/context-service/src/context_service: mapping.py and CrmRepository of
-- repositories.py, over the rows of Persistence/Crm (models/crm.py, billing.py, ocs.py).
-- Context/Service: the endpoints of main.py, where each read of the cache is given the time.
--
-- Cache: packages/cache/src/cache/client.py. Storage: packages/object-storage/src/object_storage/store.py.
--
-- Notify: services/notification-service/src/notification_service: templates.py, get_channel of
-- channels.py and service.py, with the request of mcp-servers/messaging-gateway. Notify/Clients: the
-- endpoint behind the key of packages/service-auth (Auth), and its clients in the worker,
-- mcp-servers and packages/notification-client.
--
-- Tickets: mcp-servers/ticketing-glpi/src/ticketing_glpi: MockGlpiClient of adapters/glpi_client.py and
-- adapters/mirror.py, where each transaction meets Postgres up or down. Tickets/Tools:
-- tools/glpi_ticket_ops.py.
--
-- Business: apps/business-api/src/business_api. Business/Retention: run_retention of jobs/retention.py,
-- on the conversation tables and the recordings, with the deletion of a recording as an argument.
-- Business/Supervision, Business/Records and Business/Kpis: repositories.py and kpis.py.
-- Business/Integrity: jobs/integrity.py. Business/Roles: security.py. Business/Api: the endpoints of
-- main.py, each behind its role, on all that the service reads and writes.
--
-- Knowledge: services/knowledge-service/src/knowledge_service: LexicalRetriever of retriever.py and the
-- endpoint of main.py, and the tool of mcp-servers/ai-knowledge-rag. A score is its float rounded to
-- ten-thousandths; that of an exact half is right for documents of fewer than 25,600 terms.
--
-- Tests: concrete inputs.
--
-- Amounts are whole millimes in ℤ. Python integers have no bound, and neither has ℤ; confidences are
-- thousandths. Every loop is structural recursion on a list or a text; the only fuel is that of the
-- printing of a number and of a square root, which is above the number that each round divides.
--
-- Parameters: SHA-256 with its digest of 64 characters and json.dumps (Hasher), UUID parsing and
-- uuid5 (UuidLib), the character classes of re (CharClass,
-- TextClass), the clock and the generated ids (the
-- environments), the live adapters of packages/integration-adapters (Adapters), the clients of redis
-- and of S3, the JSON of a pydantic model (ModelJson), the live channels of
-- notifications and the Arabic texts, and the rounding of quotients (Rounding).
--
-- Not modelled: outside the conversation tables, widths of columns and numeric(12,2) rounding; the
-- asyncio task of the writer and its timeout at the end; coercions of pydantic between types,
-- since the worker sends each field at its own type; floats whose repr has an exponent; instalment
-- counts that are no integers; the deferral date; times that a datetime cannot hold; logging. Of the worker, the personas, the
-- read-only tools and the runtime; the token service; health endpoints; the retriever over Qdrant; and
-- the live client of GLPI.
pub mod Base
pub mod Pii
pub mod Policy
pub mod Audit
pub mod Persistence
pub mod Execution
pub mod Decision
pub mod Worker
pub mod Context
pub mod Storage
pub mod Cache
pub mod Auth
pub mod Knowledge
pub mod Notify
pub mod Tickets
pub mod Business
pub mod Tests
