-- ===== src/Otp.antt =====
-- One-time passwords: crates/qdrust-core/src/totp.rs and crates/qdrust-server/src/totp.rs.
pub mod Base32
pub mod Code
