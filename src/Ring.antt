-- ===== src/Ring.antt =====
-- One ring: include/sintra/detail/ipc/rings.h, from the bits of a slot's word up to the readers and
-- the writer that share it.
pub mod State
pub mod Access
pub mod Stack
pub mod Control
pub mod Lifecycle
pub mod Layout
pub mod Capacity
pub mod Writer
pub mod Reader
pub mod Transitions
pub mod Protocol
