-- ===== src/Examples.antt =====
-- The theorems applied to concrete inputs, and runs of the code.
mod Requests
mod RateLimit
mod Jobs
mod Idempotency
mod Cache
mod Authority
mod Academics
mod Sessions
mod Uploads
mod Grades
mod Registers
