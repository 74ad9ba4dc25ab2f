-- ===== src/Tests.antt =====
-- Runs of the code at concrete inputs, and the theorems applied there.
pub mod Leaf
pub mod NonLeaf
pub mod Pages
pub mod Records
pub mod Engine
pub mod Index
pub mod Files
pub mod Trees
pub mod Inserts
pub mod Indexed
