-- ===== src/Board/Managing.antt =====
-- The calls that manage a queue, on a server that is up and where the queue's data is consistent.
pub mod Removing
pub mod Merging
pub mod Listing
pub mod Deleting
pub mod Draining
pub mod Retrying
pub mod Sweeping
pub mod Cleaning
