-- ===== src/KeyExchange/Groups/EllipticCurve.antt =====
-- key_exchange/group/elliptic_curve.rs: the curves of the crate elliptic-curve, such as NIST P-256.
pub mod Keys
use opaque_vx.Prelude.{ℕ, Option, Bytes}
use opaque_vx.Prelude.Results.{Result, ok, ok_or, map_err, unwrap, bind}
use opaque_vx.Prelude.Act.{Act, pure, lift, ◌>>=◌}
use opaque_vx.Errors.{serialization_error, oprf_error}
use opaque_vx.Serialization.{take_array}
use opaque_vx.Oprf.{OprfCs, Failure, InternalFailure}
use opaque_vx.Group.{Group, DiffieHellman, str_opaque_derive_auth_key_pair}

-- `CurveArithmetic` with the encodings, at one curve. A `NonIdentityPoint` is
-- `NonIdentity<ProjectivePoint<G>>`.
pub record CurveArithmetic (o : OprfCs) : Type 1 where
  pub NonIdentityPoint : Type 0
  pub Scalar : Type 0
  pub NonZeroScalar : Type 0
  pub SecretKey : Type 0
  pub field_bytes_size : ℕ
  pub compressed_point_size : ℕ
  -- `to_sec1_point(true)`
  pub to_sec1_point : NonIdentityPoint → Bytes
  pub point_from_bytes : Bytes → Option NonIdentityPoint
  pub generate_from_rng : o.Rng → SecretKey × o.Rng
  -- `voprf::derive_key::<G>(seed, info, Mode::Oprf)`
  pub derive_key : Bytes → Bytes → Result o.Error Scalar
  pub non_zero_scalar_new : Scalar → Option NonZeroScalar
  pub secret_key_from : NonZeroScalar → SecretKey
  pub to_nonzero_scalar : SecretKey → NonZeroScalar
  pub mul_by_generator : NonZeroScalar → NonIdentityPoint
  pub mul : NonIdentityPoint → NonZeroScalar → NonIdentityPoint
  pub to_bytes : SecretKey → Bytes
  pub from_bytes : Bytes → Option SecretKey

module _ {o : OprfCs} (c : CurveArithmetic o) where
  unfoldable pub deserialize_take_point : Act (Failure o) Bytes c.NonIdentityPoint
  deserialize_take_point = do
    bytes ← take_array c.compressed_point_size "public key"
    lift (ok_or serialization_error (c.point_from_bytes bytes))

  unfoldable pub deserialize_take_secret_key : Act (Failure o) Bytes c.SecretKey
  deserialize_take_secret_key = do
    bytes ← take_array c.field_bytes_size "secret key"
    lift (ok_or serialization_error (c.from_bytes bytes))

  -- A zero scalar is a panic.
  unfoldable pub derive_secret_key : Bytes → Result (InternalFailure o) c.SecretKey
  derive_secret_key seed =
      bind (map_err oprf_error (c.derive_key seed str_opaque_derive_auth_key_pair)) λ scalar.
        bind (unwrap {E = Unit {0}} (ok_or tt (c.non_zero_scalar_new scalar)))
          λ non_zero. ok (c.secret_key_from non_zero)

  -- `impl<G> Group for G`
  abbrev pub elliptic_curve : Group o
  elliptic_curve = record {
    Pk = c.NonIdentityPoint;
    pk_len = c.compressed_point_size;
    Sk = c.SecretKey;
    sk_len = c.field_bytes_size;
    serialize_pk = c.to_sec1_point;
    deserialize_take_pk = deserialize_take_point;
    random_sk = c.generate_from_rng;
    derive_scalar = derive_secret_key;
    public_key = λ sk. c.mul_by_generator (c.to_nonzero_scalar sk);
    serialize_sk = c.to_bytes;
    deserialize_take_sk = deserialize_take_secret_key;
  }

  -- `impl<G> DiffieHellman<G> for SecretKey<G>`
  abbrev pub elliptic_curve_diffie_hellman : DiffieHellman elliptic_curve
  elliptic_curve_diffie_hellman = record {
    diffie_hellman = λ sk pk. c.to_sec1_point (c.mul pk (c.to_nonzero_scalar sk));
  }
