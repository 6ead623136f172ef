-- ===== src/Auth.antt =====
-- Who may log in: crates/qdrust-server/src/auth.rs and header_auth.rs, and the parts of api.rs that
-- call them.
pub mod Limiter
pub mod Headers
