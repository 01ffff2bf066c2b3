-- ===== src/Merge.antt =====
-- internal/merge: the three-way merge of texts.
pub mod Lines
pub mod Diff
pub mod Hunks
pub mod ThreeWay
mod Tests
