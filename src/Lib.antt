-- ===== src/Lib.antt =====
-- The AcadID API: record requests and their payments, background jobs, idempotency, rate limits,
-- cache.
--
-- An institution or the founder's office works on a learner's record request: it is reviewed, its
-- payment is confirmed by hand or by a signed Paystack event and held in escrow, and it is
-- refunded or fulfilled, which issues a credential and releases the payment. Events from Paystack
-- arrive as background jobs, which workers claim from a table and run, and try again by a policy.
-- Requests that carry an idempotency key are run once and answered from a record when they come
-- again. Requests to the API are counted in fixed windows, under limits that a stored policy can
-- change. Answers are kept in a cache, from which tags are invalidated.
--
-- Requests stands for apps/api/src/modules/gateway/governance/governance.service.ts
-- (reviewRecordRequest, confirmRecordRequestPayment, refundRecordRequestPayment,
-- fulfillRecordRequest) in Requests/Review, Confirm, Refund and Fulfill, and
-- apps/api/src/modules/jobs/job-worker.service.ts (processPaystackPaymentConfirmation) in
-- Requests/Paystack. The state is the tables that these handlers read and write.
-- Requests/Operations makes them operations; Requests/Steps says what an accepted one did,
-- Requests/Changes what that does to one row, and Requests/Ledger, History, Settled, Replay and
-- Reopened hold the proofs.
--
-- Authority stands for apps/api/src/modules/platform/services/authority.service.ts: who may act
-- for an institution (assertActorCanOperateInstitution), and in Authority/Grants what an
-- institution may do (assertInstitutionCan, permissionAllows) and which institutions an actor
-- sees. Authority/Granted holds the proof.
--
-- Jobs stands for job-worker.service.ts (runOnce, claimNextJob, completeJob, failOrRetryJob) in
-- Jobs/Claim, Finish and System, createJob of
-- apps/api/src/modules/platform/services/queue.service.ts in Jobs/Queue, retry-policy.service.ts
-- in Jobs/Retry, and retryDeadLetterJob of apps/api/src/modules/admin/admin.service.ts in
-- Jobs/Finish. The state is the table of jobs with its deliveries and events, the job that each
-- worker has claimed, and the row that each unfinished call of retryDeadLetterJob has read.
-- Jobs/Changes is the step relation; Jobs/Consistent, Exclusive, Final, Order and Delay hold the
-- proofs.
--
-- Idempotency stands for apps/api/src/modules/platform/services/idempotency.service.ts, with its
-- table in Idempotency/Records and execute in Idempotency/Execute. Idempotency/Replay is about a
-- request that comes again, and Idempotency/Once about concurrent ones, whose steps come in any
-- order.
--
-- RateLimit stands for apps/api/src/modules/platform/services/rate-limit.service.ts, with
-- assertAllowed in RateLimit/Window, cleanupExpiredBuckets in RateLimit/Cleanup, the stored policy
-- in RateLimit/Policy, and the limit of a request in RateLimit/Limits. RateLimit/Admission,
-- Cleanup and Range hold the proofs.
--
-- Cache stands for apps/api/src/modules/platform/services/cache.service.ts without a remote
-- adapter, with the entries and the tag index in Cache/Entries. Cache/Indexed, Invalidate and
-- Expiry hold the proofs.
--
-- Academics stands for the rest of governance.service.ts that changes enrolments and sessions, and
-- for the sessions of apps/api/src/modules/gateway/ingestion/ingestion.service.ts:
-- Academics/Rollover is confirmRollover, Academics/Transfers createTransferRequest and
-- reviewTransferRequest, Academics/Disputes createRolloverDispute and resolveRolloverDispute,
-- Academics/Reopen requestSealedSessionReopen and reviewSealedSessionReopen, Academics/Sessions
-- createAcademicSession and updateAcademicSession, and Academics/Guards what they check first. The
-- state is the tables that these handlers read and write, with their unique keys.
-- Academics/Operations makes them operations; Academics/Left, Advance, Aside, Rolled, Twice,
-- References, Current, Single, Reopened and Rejected hold the proofs.
--
-- Batches stands for transitionBatch, publishBatch and rejectBatch of governance.service.ts in
-- Batches/Transitions, and for recomputeAcademicStanding, resolveGradePointMax and classifyCgpa in
-- Batches/Standings. Publication and Republished hold the proofs.
--
-- Grading stands for normalizeScale, findBand and defaultGradingRule of ingestion.service.ts in
-- Grading/Scale and for gradeRows in Grading/Rows; Standard, Highest and Bounds hold the proofs.
--
-- Uploads stands for apps/api/src/modules/jobs/bulk-upload-parser.service.ts: csvRecords in
-- Uploads/Csv, parseCsv, mapRecord and normaliseHeader in Uploads/Rows. RoundTrip and Students
-- hold the proofs.
--
-- Registers stands for ingestStudents of
-- apps/api/src/modules/gateway/ingestion/ingestion.service.ts in Registers/Ingest, with formatAin
-- of packages/shared/src/identifiers.ts; the year of a time is a parameter. Registers/Again holds
-- the proof.
--
-- How the model is made. Each handler is a function on the tables it uses: what it throws is a
-- value, and a handler that throws leaves the tables as they were. Handlers run one after another,
-- in any order; a job is claimed in one step and finished in another, and retryDeadLetterJob reads
-- in one step and writes in another, with any steps of others in between. Where a query names no
-- order and several rows can match the reference of a payment, which of them it answers with is a
-- parameter. Requests/Steps and Jobs/Changes have no fuel: all recursion is on lists. Times are
-- milliseconds and each reading of the clock is an argument. The body of a request is what its
-- schema makes of it, or nothing where the schema refuses it. Numbers of a JSON document are
-- fractions, or one of the other kinds that JavaScript tells apart; arithmetic on them is exact,
-- the jitter's ratio is a percentage, and reading a number from a text is a parameter, as is the
-- digest of a key. Scores and grade points are counted in ten-thousandths, credit units of
-- uploaded rows in parts of these as small as a parameter says, those of records in ten-
-- thousandths, and their sums and quotients are exact where the code has floating-point numbers;
-- rounding to four decimals is as in the code. Upper and lower case are those of ASCII.
--
-- Not modelled: the payload of the credential and its signature, the objects that the handlers
-- answer with, logging, heartbeats, failures of the database, the processors of other jobs, the
-- ingestion of results, the structures and grading rule sets of an institution, the preview of a
-- rollover, and the other services of the repository.
pub mod Common
pub mod Authority
pub mod Requests
pub mod Jobs
pub mod Idempotency
pub mod RateLimit
pub mod Cache
pub mod Examples
pub mod Academics
pub mod Batches
pub mod Grading
pub mod Registers
pub mod Uploads
