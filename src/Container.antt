-- ===== src/Container.antt =====
-- internal/container
mod Examples
pub mod Handler
pub mod Pages
pub mod Client
pub mod Service
pub mod Status
pub mod Summary
