-- ===== src/Idempotency.antt =====
-- apps/api/src/modules/platform/services/idempotency.service.ts: requests that carry a key are run
-- once, and a repeated one gets the recorded answer.
pub mod Records
pub mod Execute
pub mod Replay
pub mod Once
