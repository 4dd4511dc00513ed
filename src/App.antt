-- ===== src/App.antt =====
-- internal/app
mod Examples
pub mod Handler
pub mod Lifecycle
pub mod Poller
pub mod Routes
