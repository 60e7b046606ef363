-- ===== src/Lib.antt =====
-- The backend of Modula, a point of sale for several tenants (TypeScript on Express and PostgreSQL):
-- a verification library for the logic that the database and the clients depend on.
--
-- The parts and how they interact. The access control hook refuses a request or passes it on. A
-- write request carries an Idempotency-Key, and its router calls the
-- idempotency service, which runs the command's handler in a transaction; the handler calls the
-- service of its module, which reads and writes through the module's repository. A finalized sale is
-- announced by the outbox, and a subscriber enters a cash sale into the drawer session of its branch.
-- Push sync replays operations that were taken offline, each in a transaction of its own, and answers a
-- repeated one from its row.
--
-- The files.
-- - Common: lists measured by native numbers, texts as lists of UTF-16 code units, signed integers,
--   results, and database actions that thread a state. A throw keeps what was written before it.
-- - Json: JSON values, and in Json/Stable the canonical text of src/shared/utils/hash.ts (the same as stableStringify of the
--   idempotency service), from which payloads are hashed.
-- - Platform/Roles: the role keys of src/platform/access-control/types.ts.
-- - Platform/AccessControl: src/platform/access-control and the hook before every route,
--   src/platform/http/middleware/access-control-hook.ts. DataAccess has the queries, Context the tenant and
--   branch of a request, Authorize authorizeRoute and evaluateEntitlement, Hook the hook. The catalogue of
--   actions, the registry of routes and the verification of tokens are arguments.
-- - Platform/Idempotency: src/platform/idempotency/{service,repository}.ts. `Db` is the table
--   v0_idempotency_records beside the rest of the database, which is a parameter, as are the handler and
--   the hash of a payload. `execute` is V0IdempotencyService.execute, with the error by which the update of
--   `complete` is refused, if it is; Interleaving has the steps of concurrent requests, and Views and
--   Exclusion what holds of the table along them.
-- - Platform/Transactions: withTransaction of src/platform/db/transactionManager.ts.
-- - Platform/Outbox: src/platform/outbox and src/platform/events/index.ts. Rows has the table v0_command_outbox and insertEvent,
--   Bus the handlers, Dispatcher processBatch and the ticks of one dispatcher. The handlers of an event
--   run one after another, and what they did stays where a tick is rolled back.
-- - PlatformSystem/PushSync: src/modules/v0/platformSystem/pushSync, where a client sends the operations that it
--   took while offline. Rows has the tables and results, Repository the statements of
--   infra/repository.ts, Request and Order parseReplayRequestBody of api/router.ts, Resolution the hints
--   on failures, Execution executeOperationInTransaction, Replay handleReplay, and History what the
--   transactions of many requests do to the rows. How an operation is applied to the other modules is an
--   argument, `none` where PostgreSQL refused a statement. Ids and hashes are compared as texts, so a
--   UUID that a client writes once in capitals and once in small letters counts as two.
-- - PlatformSystem/PullSync: src/modules/v0/platformSystem/pullSync/{app/service,infra/repository}.ts, the feed of changes. The table stands
--   in the order of its sequence, and the inserted rows are those that its constraints accept.
-- - PosOperation/CashSession: src/modules/v0/posOperation/cashSession. Rows has the tables, Repository,
--   Movements and Totals the statements of infra/repository.ts with the constraints of
--   migrations/025_create_v0_cash_session_tables.sql, Money, Guards, Bodies, Service, Drawer and Reports
--   app/service.ts (open_cash_session is openSession, close_cash_session closeSession, record_manual the
--   common text of recordPaidIn, recordPaidOut and recordAdjustment), Subscriber app/subscribers.ts, and
--   Commands the write routes of api/router.ts (run_command is the transaction of executeWrite) with the
--   states that they lead to. A tick says which inserts the database takes.
--
-- Bounds. Amounts in the tables are whole cents, as the columns are NUMERIC with two decimals, and a value
-- beyond NUMERIC(12,2) or NUMERIC(14,2), or a key beyond VARCHAR(128), is refused; an amount
-- in a request is a number of ten-thousandths, which rounding takes to cents. Times are natural numbers.
-- Only pull_all runs on fuel, a client that reads the feed to its end: as many pulls as
-- there are rows are enough. Every other loop is over a list.
--
-- Not modelled: HTTP, display names, pages of lists, created_at and updated_at, floating-point error of
-- amounts, two transactions that open a session at the same time, and the other modules of
-- src/modules/v0. The insert of an audit event is an argument.
pub mod Common
pub mod Json
pub mod Platform
pub mod PlatformSystem
pub mod PosOperation
