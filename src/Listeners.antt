-- ===== src/Listeners.antt =====
-- gconf/gconf-listeners.c: tables of listeners, who are notified of changes below their location.
pub mod Tree
pub mod Table
pub mod Order
pub mod Insert
pub mod Notify
pub mod Ids
pub mod Notified
pub mod Remove
pub mod Removed
pub mod Found
mod Tests
