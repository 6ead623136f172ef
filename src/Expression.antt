-- ===== src/Expression.antt =====
-- crates/qdrust-core/src/expression.rs: the functions that a template's expressions may call.
pub mod Uu
pub mod Qp
pub mod MutableSeq
