-- ===== src/Ingestion.antt =====
-- src/ingestion and the document lifecycle of src/l0/ports.
pub mod Documents
pub mod Chunks
pub mod Uploads
