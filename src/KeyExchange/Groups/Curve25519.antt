-- ===== src/KeyExchange/Groups/Curve25519.antt =====
-- key_exchange/group/curve25519.rs: Curve25519, over the crate curve25519-dalek (montgomery, scalar).
-- `NonIdentity(MontgomeryPoint([u8; 32]))` and `Scalar([u8; 32])` wrap 32 bytes, and are those here.
pub mod Keys
use opaque_vx.Prelude.{Bool, Bytes, bytes_eq, if◌then◌else◌}
use opaque_vx.Prelude.Results.{Result, ok, err}
use opaque_vx.Prelude.Act.{Act, pure, lift, ◌>>=◌}
use opaque_vx.Errors.{serialization_error}
use opaque_vx.Serialization.{take_array}
use opaque_vx.Oprf.{OprfCs, Failure}
use opaque_vx.Group.{Group, DiffieHellman}

pub record Montgomery : Type 0 where
  pub is_identity : Bytes → Bool
  pub clamp_integer : Bytes → Bytes
  pub mul_base_clamped : Bytes → Bytes
  pub mul_clamped : Bytes → Bytes → Bytes

module _ (o : OprfCs) (c : Montgomery) where
  -- `NonIdentity::from_bytes`
  unfoldable pub non_identity_from_bytes : Bytes → Result (Failure o) Bytes
  non_identity_from_bytes bytes = if c.is_identity bytes then err serialization_error else ok bytes

  -- `Scalar::from_bytes`: only what clamping leaves alone is a scalar.
  unfoldable pub scalar_from_bytes : Bytes → Result (Failure o) Bytes
  scalar_from_bytes bytes =
      let scalar = c.clamp_integer bytes in
      if bytes_eq scalar bytes then ok scalar else err serialization_error

  unfoldable pub random_curve25519_sk : o.Rng → Bytes × o.Rng
  random_curve25519_sk rng =
      let (scalar_bytes, rng') = o.fill_bytes 32 rng in (c.clamp_integer scalar_bytes, rng')

  unfoldable pub deserialize_take_curve25519_pk : Act (Failure o) Bytes Bytes
  deserialize_take_curve25519_pk = do
    bytes ← take_array 32 "public key"
    lift (non_identity_from_bytes bytes)

  unfoldable pub deserialize_take_curve25519_sk : Act (Failure o) Bytes Bytes
  deserialize_take_curve25519_sk = do
    bytes ← take_array 32 "secret key"
    lift (scalar_from_bytes bytes)

  -- `impl Group for Curve25519`
  abbrev pub curve25519 : Group o
  curve25519 = record {
    Pk = Bytes;
    pk_len = 32;
    Sk = Bytes;
    sk_len = 32;
    serialize_pk = λ pk. pk;
    deserialize_take_pk = deserialize_take_curve25519_pk;
    random_sk = random_curve25519_sk;
    derive_scalar = λ seed. ok (c.clamp_integer seed);
    public_key = c.mul_base_clamped;
    serialize_sk = λ sk. sk;
    deserialize_take_sk = deserialize_take_curve25519_sk;
  }

  -- `impl DiffieHellman<Curve25519> for Scalar`
  abbrev pub curve25519_diffie_hellman : DiffieHellman curve25519
  curve25519_diffie_hellman = record { diffie_hellman = λ sk pk. c.mul_clamped pk sk }
