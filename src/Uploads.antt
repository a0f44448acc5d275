-- ===== src/Uploads.antt =====
-- The upload of a register of students as a file of comma-separated values
-- (apps/api/src/modules/jobs/bulk-upload-parser.service.ts).
pub mod Csv
pub mod Rows
pub mod RoundTrip
pub mod Students
