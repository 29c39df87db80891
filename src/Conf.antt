-- ===== src/Conf.antt =====
-- The parser of configuration files of src/cfuconf.c.
pub mod Lexer
pub mod Dict
pub mod Parse
pub mod Words
pub mod Items
pub mod Valid
pub mod Moves
pub mod Meaning
pub mod Stored
pub mod Balanced
pub mod Refused
pub mod Access
pub mod Read
pub mod Lines
pub mod Slurp
mod Tests
