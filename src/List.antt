-- ===== src/List.antt =====
-- The doubly linked list of src/cfulist.c.
pub mod Store
pub mod Ends
pub mod Inner
pub mod Chain
pub mod Steps
pub mod Push
pub mod Unshift
pub mod Pop
pub mod Shift
pub mod Apart
pub mod Unlink
pub mod Nth
pub mod Remove
pub mod Walk
pub mod Sweep
pub mod Whole
pub mod Relative
pub mod Join
pub mod Map
mod Tests
