-- ===== src/KeyExchange/Groups/Edwards.antt =====
-- The crates curve25519-dalek (edwards), ed25519-dalek (hazmat) and sha2, as far as
-- key_exchange/group/ed25519.rs calls them. `CompressedEdwardsY` wraps its 32 bytes, and is those.
use opaque_vx.Prelude.{Bool, false, Option, some, Bytes, length, ◌≡◌}
use opaque_vx.Hash.{Hash}

pub record Edwards : Type 1 where
  pub sha512 : Hash
  pub EdwardsPoint : Type 0
  pub Scalar : Type 0
  pub mul_base : Scalar → EdwardsPoint
  pub compress : EdwardsPoint → Bytes
  pub decompress : Bytes → Option EdwardsPoint
  pub is_identity : EdwardsPoint → Bool
  pub neg : EdwardsPoint → EdwardsPoint
  pub vartime_double_scalar_mul_basepoint : Scalar → EdwardsPoint → Scalar → EdwardsPoint
  pub mul : Scalar → Scalar → Scalar
  pub add : Scalar → Scalar → Scalar
  pub from_hash : sha512.Hasher → Scalar
  pub from_canonical_bytes : Bytes → Option Scalar
  pub to_bytes : Scalar → Bytes
  -- `ExpandedSecretKey::from`: the clamped scalar and the prefix of the hash.
  pub expanded_secret_key : Bytes → Scalar × Bytes

-- `EdwardsPoint` stands for the points of the curve, not for their coordinates. They form a group, the
-- torsion points included. A `Scalar` is an integer below the order of the basepoint, and acts as that
-- integer; sums and products of scalars are reduced by that order, so that they are described at the
-- basepoint only, and not at points with a torsion part. The two multiplications of the crate are this
-- action, at the basepoint and at a given point.
pub record EdwardsLaws (c : Edwards) : Type 0 where
  pub point_add : c.EdwardsPoint → c.EdwardsPoint → c.EdwardsPoint
  pub identity : c.EdwardsPoint
  pub act : c.Scalar → c.EdwardsPoint → c.EdwardsPoint
  pub basepoint : c.EdwardsPoint
  pub point_add_assoc :
      (p q r : c.EdwardsPoint) → point_add (point_add p q) r ≡ point_add p (point_add q r)
  pub identity-point_add : (p : c.EdwardsPoint) → point_add identity p ≡ p
  pub neg-point_add : (p : c.EdwardsPoint) → point_add (c.neg p) p ≡ identity
  pub act-add :
      (a b : c.Scalar) → act (c.add a b) basepoint ≡ point_add (act a basepoint) (act b basepoint)
  pub act-mul : (a b : c.Scalar) → act (c.mul a b) basepoint ≡ act a (act b basepoint)
  pub act-neg : (a : c.Scalar) (p : c.EdwardsPoint) → act a (c.neg p) ≡ c.neg (act a p)
  pub mul_base_lem : (a : c.Scalar) → c.mul_base a ≡ act a basepoint
  pub vartime_double_scalar_mul_basepoint_lem :
      (a : c.Scalar) (p : c.EdwardsPoint) (b : c.Scalar)
      → c.vartime_double_scalar_mul_basepoint a p b ≡ point_add (act a p) (act b basepoint)

-- Encodings have 32 bytes and read back, only the encoding of a point or scalar is read, and the public
-- key of an expanded secret key, whose scalar is clamped, is not the identity.
pub record EdwardsEncodings (c : Edwards) : Type 0 where
  pub length-compress : (p : c.EdwardsPoint) → length (c.compress p) ≡ 32
  pub decompress-compress : (p : c.EdwardsPoint) → c.decompress (c.compress p) ≡ some p
  pub length-to_bytes : (s : c.Scalar) → length (c.to_bytes s) ≡ 32
  pub from_canonical_bytes-to_bytes :
      (s : c.Scalar) → c.from_canonical_bytes (c.to_bytes s) ≡ some s
  pub to_bytes-from_canonical_bytes :
      (b : Bytes) (s : c.Scalar) → c.from_canonical_bytes b ≡ some s → c.to_bytes s ≡ b
  pub clamped : (seed : Bytes) → c.is_identity (c.mul_base (c.expanded_secret_key seed).0) ≡ false
