-- ===== src/Server.antt =====
-- internal/server
mod Examples
pub mod Handler
pub mod Pages
pub mod Model
pub mod Validate
pub mod Store
pub mod Service
