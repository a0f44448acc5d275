-- ===== src/Registers.antt =====
-- The registers of students that an institution sends in (`ingestStudents` of
-- apps/api/src/modules/gateway/ingestion/ingestion.service.ts).
pub mod Ingest
pub mod Again
