-- ===== src/Auth.antt =====
-- internal/auth
mod Examples
pub mod Samples
pub mod Csrf
pub mod Handler
pub mod Password
pub mod RateLimit
pub mod Store
pub mod Service
