-- ===== src/Jobs.antt =====
-- Background jobs: the table `BackgroundJob` with its webhook deliveries and domain events
-- (apps/api/src/modules/jobs/job-worker.service.ts, and queue.service.ts and retry-policy.service.ts
-- of apps/api/src/modules/platform/services). Times are milliseconds.
pub mod Types
pub mod Retry
pub mod Queue
pub mod Claim
pub mod Finish
pub mod System
pub mod Changes
pub mod Consistent
pub mod Exclusive
pub mod Final
pub mod Order
pub mod Delay
