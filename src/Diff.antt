-- ===== src/Diff.antt =====
-- Snapshot diffs (internal/model/diff.go): change kinds, parsing, the change tree, extraction.
pub mod Kinds
pub mod Entry
pub mod Extract
pub mod Tree
pub mod Examples
