-- ===== src/KeyExchange/Groups.antt =====
-- key_exchange/group/: the groups that the crate implements. What they call of the curve crates is a
-- record of operations for each, with the laws that those crates document.
pub mod Edwards
pub mod Ed25519
pub mod Ristretto255
pub mod Curve25519
pub mod EllipticCurve
