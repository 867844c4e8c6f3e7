-- ===== src/Formats.antt =====
-- internal/formats: the containers of the results.
pub mod TfRecord
mod Tests
