-- ===== src/Evidence.antt =====
-- backend/src/expense_api/evidence: what is read off the documents of a trip.
pub mod Extraction
pub mod Dedup
pub mod Corrections
pub mod Classify
pub mod Store
pub mod Uploads
