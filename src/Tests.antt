-- ===== src/Tests.antt =====
-- Tests at concrete inputs, one module for each part of the program.
pub mod Protocol
pub mod Control
pub mod Writer
pub mod Reader
pub mod Ids
pub mod Spinlock
pub mod Capacity
pub mod NameCache
pub mod Barrier
pub mod Lifecycle
pub mod Mutex
pub mod Coordinator
pub mod Invitations
pub mod Recovery
