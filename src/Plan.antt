-- ===== src/Plan.antt =====
-- crates/greeg-index/src/plan.rs: from a pattern to the trigrams that its matches must contain.
-- `Query` holds the queries and what they mean, `Sets` the byte-string sets, `Hir` the expressions
-- that regex-syntax hands over and what they match, `Analyze` the analysis, `Flatten` the cleanup,
-- `Planner` the trigram plan and `ByWord` the word plan.
pub mod Query
pub mod Sets
pub mod Hir
pub mod Analyze
pub mod Flatten
pub mod Planner
pub mod ByWord
mod Tests
