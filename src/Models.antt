-- ===== src/Models.antt =====
-- The value types of src/evidencetool/models, one module for each file.
pub mod Value
pub mod Observation
pub mod Redaction
pub mod Evidence
pub mod Policy
pub mod Correlation
pub mod Decision
