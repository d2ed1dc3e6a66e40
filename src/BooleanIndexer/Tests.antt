-- ===== src/BooleanIndexer/Tests.antt =====
-- Runs of the boolean indexer on small inputs: components/boolean_indexer.
mod Ids
mod Documents
mod Cursors
mod Lists
mod Scans
mod Runs
mod Data
