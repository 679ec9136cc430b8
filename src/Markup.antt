-- ===== src/Markup.antt =====
-- backends/markup-tree.c and backends/markup-backend.c: the backend that keeps a configuration in
-- XML files, as the tree that it has in memory.
pub mod Entry
pub mod Dir
pub mod Backend
pub mod View
pub mod Walk
pub mod Changes
pub mod Query
pub mod Answers
pub mod Marks
pub mod Marked
pub mod Cleared
pub mod Listed
pub mod Sync
pub mod Saves
pub mod Composed
pub mod Listing
mod Tests
