-- ===== src/RateLimit.antt =====
-- apps/api/src/modules/platform/services/rate-limit.service.ts.
pub mod Window
pub mod Admission
pub mod Cleanup
pub mod Policy
pub mod Limits
pub mod Range
