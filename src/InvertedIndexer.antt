-- ===== src/InvertedIndexer.antt =====
-- components/inverted_indexer: documents found by the values of their fields, over bitmaps.
pub mod Bitmap
pub mod Manager
pub mod Merger
pub mod Query
mod Tests
