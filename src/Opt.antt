-- ===== src/Opt.antt =====
-- The parser of command lines of src/cfuopt.c.
pub mod Spec
pub mod Context
pub mod Args
pub mod Parse
pub mod Items
pub mod Line
pub mod Meaning
pub mod Kept
pub mod Names
pub mod Help
pub mod Shown
pub mod Column
pub mod Longest
pub mod Summary
mod Tests
