-- ===== src/Auth.antt =====
-- The Web UI's administrator authentication: src/core/admin_auth_service.h and
-- src/core/admin_auth_service.cpp.
pub mod Compare
pub mod Stored
pub mod Cookie
pub mod Service
mod Examples
