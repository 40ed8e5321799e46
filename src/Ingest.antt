-- ===== src/Ingest.antt =====
-- The write path: app/repositories/event_repository.py, app/services/ingestion_service.py and
-- app/api/routes/events.py.
pub mod Store
pub mod Single
pub mod Keys
pub mod Service
pub mod Requests
pub mod Served
pub mod Batch
pub mod Respond
pub mod Answers
pub mod Resend
pub mod Route
