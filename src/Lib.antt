-- ===== src/Lib.antt =====
-- Verification of the reimbursement system's backend, a Go program over PostgreSQL (backend/). An
-- employee files a claim with items and receipts; a submission runs the policy engine and
-- snapshots a chain of approvers; each approver decides in turn; Finance pays. A handler binds a
-- request and calls a service, the service calls its repository, and a repository runs SQL
-- through gorm.
--
-- Files and the code they model, with paths from the repository's root:
--
-- - Decimal, Decimal/Digits, Exact, Order: the decimal strings of
--   backend/internal/modules/reimbursements/statemachine.go (splitDecimal, compareNumeric,
--   addNumeric, subtractNumeric, formatDecimal, pad2), over strconv's ParseInt and FormatInt
--   written out.
-- - Approval, Approval/Chain, Sequence: canTransition, ApprovalChain, ExcludeSubmitter and
--   nextPendingIndex of the same file.
-- - AppErr: backend/internal/pkg/apperr, with the error values of the drivers.
-- - Store, Store/Rows, Monad, Rules: the tables of backend/internal/database/migrations as
--   lists of rows, and the monad of statements and transactions in which the services run.
-- - Reimbursements/Scope, Repository and its children:
--   backend/internal/modules/reimbursements/repository.go, the answers of dto.go, toResponse
--   and buildDetail of service.go.
-- - Reimbursements/Workflow: workflow.go and backend/internal/modules/audit/audit.go. Policy is
--   the policy engine of Submit, Steps the bodies of the transactions, Notify the mail and the
--   audit row, Actions the five actions. Decide, Cancel, Submit and Checks say when a
--   transaction or the checks complete, Outcomes what an action does as a whole, Lifecycle and
--   Runs how a claim moves over any requests, StepRows, Snapshot, Fits, Invariant and Safety
--   how claims and approval steps belong together, Liveness and Approving when a claim is
--   approved.
-- - Reimbursements/Effects: the writes of workflow.go and service.go as one data type, with the
--   abstract claim (Phases), what a write does to it (Refine, Refinement) and the invariant
--   (Origins, Keeping). Reimbursements/Concurrent: the same requests as threads, each between
--   its checks and its writes, and the steps of a system of them; Safety and Traces are over
--   its runs.
-- - Reimbursements/Service: service.go; Dates is time.Parse of its dates, Writing, Outcomes and
--   Removal what Create, Update and Delete write, Amounts and Kept the amount of a claim beside
--   the total of its items, Files and Names attachments.go with sanitizeFilename.
-- - Requests/Paging, Csrf, Upload, Gates: backend/internal/pkg/listq/listq.go,
--   backend/internal/pkg/csrftoken/csrf.go, backend/internal/pkg/upload/upload.go, and
--   backend/internal/middleware (auth.go, csrf.go) with
--   backend/internal/pkg/response/response.go.
-- - Sessions, Sessions/Families, Reuse: backend/internal/modules/auth/repository.go and
--   service.go, with the session store in Redis.
-- - Directory/Users, Categories, Registration, Deletion: backend/internal/modules/users and
--   backend/internal/modules/categories.
-- - Listings/Pages, Claims, Staff: List of the repositories and services of reimbursements,
--   users and categories.
-- - Dashboard, Dashboard/Months, Cached, Trend, Breakdown: backend/internal/modules/dashboard,
--   with its cache in Redis.
-- - Exports, Exports/Csv, Outcomes, File: backend/internal/modules/reports/service.go and the
--   two task handlers of backend/cmd/worker/main.go; Csv has the writer of encoding/csv, which
--   is Go's, and a reader of comma-separated records that end with a line feed.
-- - Api and its children: handler.go of every module,
--   backend/internal/middleware/errorhandler.go, RegisterRoutes and New of
--   backend/internal/server/router.go. A handler takes a request to an answer, cookies and a
--   World; Router finds the route and runs the middleware before it, Router/Admission says whom
--   the middleware lets through, and Api/Keeping follows what each handler does to claims and
--   approval steps (Services, Views, Files and Writes by the services, Steps, Claims, Handlers
--   and Routes by the handlers).
-- - Examples: tables, environments and runs on which the functions compute.
--
-- State. A World has the tables, the queues of mails and of export tasks, the objects of the
-- export bucket, the keys of Redis, the number of calls made and the state of the transaction. An
-- Env says what the program does not decide: which statement fails, which uuids and times the
-- database gives, how dates and uuids are printed. A theorem quantifies over the Env, so over
-- every pattern of failing statements; a failed statement aborts its transaction, and the commit
-- of an aborted transaction fails. Among these failures are those of the foreign keys approver_id
-- and actor_id, which no model of an UPDATE or an INSERT tests. A query is the function on lists
-- of rows that its SQL denotes. A transaction or a statement outside one runs without another in
-- between: SELECT FOR UPDATE serialises the transactions on one claim. What a request does before
-- its transaction is not so protected, and Reimbursements/Concurrent lets any other requests
-- write between the checks of Submit, Create, Update and Delete and their writes.
--
-- Bounds. Amounts are cents, as numeric(14,2) has two places; int64 wraps. The digits of a number
-- are printed on fuel 20; an int64 has at most 19. Trimming runs on the length of its text. Uuids
-- and times are numbers: a uuid is only compared and printed, and a time counts nanoseconds.
--
-- Parameters. An Env also has what third parties compute: bcrypt, the signing of access tokens,
-- SHA-256 of a secret, random bytes, uuid.Parse, presigned links and the Unicode tables of
-- strings.ToLower; the HMAC of a CSRF token and the verification of an access token are arguments
-- of their functions. A command or pipeline of Redis fails and does nothing, or runs as a whole;
-- an expired key is an absent one. What PostgreSQL computes for a listing (ILIKE, the order of
-- rows), the JSON of the dashboard's cache, its rate as a float64, the names of months and the
-- binding of a body are fields of Sql, Library and Server.
--
-- Not modelled: JSON, headers and the validation of a body against its tags, which a handler
-- calls; the protocol of SMTP, MinIO and asynq with its retries; the token buckets of the rate
-- limiter, whose answer a request carries; configuration, start-up and logs; the generated API
-- documentation and its route under /swagger.
pub mod Base
pub mod Decimal
pub mod Approval
pub mod AppErr
pub mod Store
pub mod Reimbursements
pub mod Sessions
pub mod Directory
pub mod Requests
pub mod Listings
pub mod Dashboard
pub mod Exports
pub mod Api
pub mod Examples
