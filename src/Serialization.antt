-- ===== src/Serialization.antt =====
-- serialization/mod.rs: integers to octets, taking arrays off a slice, and concatenation. A
-- `usize` is a number below 2 ^ 64.
pub mod Integers
pub mod Arrays
unfoldable pub use Integers.*
unfoldable pub use Arrays.*
