-- ===== src/BTree.antt =====
-- B+ tree pages: src/storage/page/b_plus_tree_*.cpp.
pub mod Order
pub mod Entries
pub mod Search
pub mod Sorted
pub mod Leaf
pub mod Internal
pub mod Pages
pub mod Tree
pub mod PageSet
pub mod Growth
pub mod Shrink
pub mod Iterator
mod Tests
