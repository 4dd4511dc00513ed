-- ===== src/Diagnostic.antt =====
-- internal/diagnostic
mod Examples
pub mod Handler
pub mod Record
pub mod Redact
