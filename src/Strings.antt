-- ===== src/Strings.antt =====
-- The growing string of src/cfustring.c.
pub mod Memory
pub mod Buffer
pub mod Room
pub mod Append
pub mod Split
pub mod Piece
pub mod Fields
pub mod Whole
pub mod Format
pub mod Printf
pub mod Convert
pub mod Rendered
pub mod Scan
pub mod Printing
pub mod Directives
pub mod Sprintf
pub mod Plain
pub mod PastEnd
pub mod Sample
mod Tests
