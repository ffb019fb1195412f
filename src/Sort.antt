-- ===== src/Sort.antt =====
-- The sorting functions of c++/algos/sort, one child module for each file.
pub mod Order
pub mod Bubble
pub mod Selection
pub mod Gap
pub mod Insertion
pub mod Shell
pub mod HeapSort
pub mod Merge
mod Tests
