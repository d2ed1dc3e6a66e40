-- ===== src/BooleanIndexer.antt =====
-- components/boolean_indexer: an inverted index over boolean expressions, and its scanner.
pub mod Ids
pub mod Cursor
pub mod Field
pub mod Document
pub mod Parser
pub mod Container
pub mod Builder
pub mod Scanner
mod Tests
