-- ===== src/Grading.antt =====
-- The grading of scores (apps/api/src/modules/gateway/ingestion/ingestion.service.ts). A number is
-- counted in ten-thousandths, with exact arithmetic.
pub mod Scale
pub mod Rows
pub mod Standard
pub mod Highest
pub mod Bounds
