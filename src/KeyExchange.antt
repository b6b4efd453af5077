-- ===== src/KeyExchange.antt =====
-- key_exchange/: the serialized forms, the interface, the parts that the protocols share, and the
-- protocols.
pub mod Serialized
pub mod Trait
pub mod Shared
pub mod TripleDh
pub mod TripleDhKem
pub mod SigmaI
pub mod Groups
