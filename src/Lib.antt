-- ===== src/Lib.antt =====
-- Background job runner: users submit tasks to named lanes, a runner claims the queued ones and has
-- the lane's worker run them, and events tell the user of every change.
--
-- The parts, and where they are modelled:
--   Types, Types/Events      the records and enums of backend/src/engine/types.ts, repository.types.ts and
--                            workers/types.ts. A uuid is a number, a time its milliseconds (also where an
--                            event's detail has it as text), a number in a payload the bits of its double.
--   Errors                   backend/src/lib/errors.ts: classes, codes and the cause chain; no messages.
--   Repository/Sql           guarded and isUniqueViolation of backend/src/engine/repository.ts and
--                            withTransaction of backend/src/db.ts. An operation of the store is a function
--                            of a Db, which has the tables, the event sequence, the database's clock, and
--                            the faults: for each statement to come, BEGIN and COMMIT included, what the
--                            connection throws, if anything.
--   Repository/Schema        the primary key and the partial unique index of the tasks table, which the
--                            database checks on every write.
--   Repository/Slot, Writes, Reads, Operations
--                            the gap query, the single statements and the units of work of
--                            backend/src/engine/repository.ts. An update writes all rows that its WHERE
--                            clause selects, or none; rows are inserted at the head of the table. Rows that
--                            other transactions have locked, and what other sessions commit between a
--                            snapshot and the insert, are arguments.
--   Engine/Bus               backend/src/engine/events.ts. A subscriber's callback is kept as the set of
--                            events on which it throws; the bus records its calls.
--   Engine/Numbers, Registry backend/src/engine/workers/registry.ts. Number(), its comparisons and
--                            finiteness belong to the language and are the parameter Numbers.
--   Engine/Handles           backend/src/engine/handles.ts, with its five attempts.
--   Engine/World             the fields of TaskRunner, the bus and the store as one state; an action returns
--                            or throws, and keeps what it did.
--   Engine/Runner, Jobs      backend/src/engine/runner.ts. tick is cut at its await into tick_begin and
--                            tick_end. An Execution says how the race between handler and timer ends, and
--                            what happens in the meantime. Backoff is in exact fractions. The drain loop of
--                            stop polls at most 1000 times, which is its deadline over its poll interval.
--   Engine/Operations        backend/src/engine/orchestration-engine.ts.
--   Engine/Calls             everything that a process runs on its world, and foreign writes.
--   Lifecycle                the abstract state machine of a task row: the edges that the guards and patches
--                            of the code allow, and tables whose rows live by them.
--   Lifecycle/Ranks          tasks with one handle, one after the other.
--   Refinement               the operations against that machine: one rule for each way to build an
--                            operation (Rules, Actions), then store, runner, jobs and calls; and whom a
--                            handle names in the worlds that are reached (Handles).
--   Engine/Defaults          the defaults of backend/src/engine/index.ts.
--   Http/Errors, Http/Pages  backend/src/plugins/error-handler.ts and paginationParams of
--                            backend/src/lib/http.ts.
--   Http/TaskRoutes, TaskSchema
--                            backend/src/modules/task/task.routes.ts and task.schema.ts, over Engine/Operations.
--   Http/Stream              the events route of task.routes.ts: a connection is a state, what is published
--                            during its await and after it are arguments.
--   Http/Auth, AccountRoutes backend/src/plugins/auth.ts, and the routes and schemas of backend/src/modules/auth
--                            and apikey. The signing of tokens is a parameter.
--   Engine/Ownership         what the store and the engine return of one user's rows.
--   Accounts                 backend/src/modules/user, apikey and auth/auth.service.ts over their tables, and
--                            backend/src/lib/password.ts. Hashes, scrypt, base64 and the Unicode normal form
--                            are parameters; an address is lowered as the ASCII that its format lets in.
--   Workers/Addresses, UrlGuard
--                            backend/src/workers/web-scrape/url-guard.ts. The parsers of URLs and addresses
--                            and the resolver are parameters.
--   Workers/Fetching         the redirect loop of backend/src/workers/web-scrape/index.ts, which is recursion
--                            on its number of turns. The network is a parameter.
--   Workers/WebScrape        the rest of that file: the capped read, the handler, thrown values.
--   Workers/HtmlExtract      backend/src/workers/web-scrape/html-extract.ts: each regular expression is the function
--                            that tells what it matches at one place of a text (Prelude/Patterns).
--   Workers/Mock             backend/src/workers/mock-worker.ts.
--   Frontend/Actions         task-actions.ts and task-handle.ts of frontend/src/lib/utils.
--   Frontend/Snackbars, Filters, Failures, TaskEvents
--                            the snackbar store, task-filters.ts, errors.ts with query-client.ts and api-client.ts,
--                            and useTaskEvents.tsx of frontend/src. Dates are the platform's.
--   Frontend/SubmitForm      components/dashboard/SubmitTaskDialog.tsx; `String` of a default is a parameter.
--   Frontend/TaskPage        app/(app)/dashboard/[id]/page.tsx with the buttons of TaskActions.tsx.
--   Frontend/Pages           app/login/page.tsx, app/(app)/dashboard/page.tsx, AuthAware.tsx, TaskActions.tsx,
--                            useDialog.ts and useTaskViewMode.ts: what they keep and decide.
--   Config                   backend/src/config/env.ts and plugins/engine.ts.
--   Examples                 concrete inputs.
--
-- Handlers of workers, the clock, random draws and uuids come from outside and are arguments. Loggers,
-- timers' periods and the wiring of the engine's objects are not modelled; nor are the parsing of the
-- environment, the other plugins, the
-- generated API client and the rendering of the frontend. Three things of the database are left out: a
-- COMMIT that throws has always rolled back here, so one that was done but whose acknowledgement got lost
-- is not represented; the reference of a task to its user is taken to hold; and the lane lock keeps
-- nobody out by itself, so that what other sessions do to a lane meanwhile is an argument or a hypothesis.
pub mod Prelude
pub mod Types
pub mod Errors
pub mod Repository
pub mod Engine
pub mod Lifecycle
pub mod Refinement
pub mod Http
pub mod Accounts
pub mod Frontend
pub mod Workers
pub mod Config
pub mod Examples
