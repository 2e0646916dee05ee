-- ===== src/Tests.antt =====
-- Runs of the model on small inputs, and each theorem with hypotheses applied at one of them.
pub mod Masks
pub mod Matrices
pub mod Regions
pub mod Rows
pub mod Tiles
pub mod Overlap
pub mod Options
pub mod Layouts
pub mod Partitions
pub mod Halos
