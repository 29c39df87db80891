-- ===== src/Hash.antt =====
-- The hash table of src/cfuhash.c: what its entries, flags and outside functions are.
pub mod Size
pub mod Value
pub mod Home
pub mod Key
pub mod Chain
pub mod Table
pub mod Rehash
pub mod Access
pub mod Walk
pub mod Whole
pub mod View
pub mod Valid
pub mod Moves
pub mod Resize
pub mod Laws
pub mod Put
pub mod Delete
pub mod Listing
pub mod Cursor
pub mod Sweep
pub mod Clear
pub mod Bencode
pub mod Found
pub mod Encoded
pub mod PrettyPrint
pub mod Copied
pub mod Merged
mod Tests
