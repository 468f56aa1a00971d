-- ===== src/Invariant.antt =====
-- The data of one queue on the server: the type of each key's value, and that the lists and sets
-- hold job ids.
pub mod Fits
pub mod Effects
pub mod Replies
pub mod Keeps
pub mod Rules
pub mod Workers
pub mod Pickups
pub mod Checks
pub mod Queues
pub mod Draining
pub mod Running
pub mod Logging
