-- ===== src/KeyExchange/Groups/EllipticCurve/Keys.antt =====
-- key_exchange/group/elliptic_curve.rs: the keys, their encodings and the shared secret.
use opaque_vx.Prelude.{some, Bytes, length, ◌≡◌, ◌++◌, ap}
use opaque_vx.Prelude.Results.{ok, passes}
use opaque_vx.Serialization.{take_array-append}
use opaque_vx.Oprf.{OprfCs}
use opaque_vx.Group.{GroupLaws, DiffieHellmanLaws}
use opaque_vx.KeyExchange.Groups.EllipticCurve.{
  CurveArithmetic, deserialize_take_point, deserialize_take_secret_key, elliptic_curve,
  elliptic_curve_diffie_hellman,
}

-- Encodings have their lengths and read back, and scalars commute.
pub record CurveLaws {o : OprfCs} (c : CurveArithmetic o) : Type 0 where
  pub length-to_sec1_point :
      (p : c.NonIdentityPoint) → length (c.to_sec1_point p) ≡ c.compressed_point_size
  pub point_from_bytes-to_sec1_point :
      (p : c.NonIdentityPoint) → c.point_from_bytes (c.to_sec1_point p) ≡ some p
  pub length-to_bytes : (sk : c.SecretKey) → length (c.to_bytes sk) ≡ c.field_bytes_size
  pub from_bytes-to_bytes : (sk : c.SecretKey) → c.from_bytes (c.to_bytes sk) ≡ some sk
  pub mul_comm :
      (a b : c.NonZeroScalar) → c.mul (c.mul_by_generator b) a ≡ c.mul (c.mul_by_generator a) b

module _ {o : OprfCs} (c : CurveArithmetic o) (laws : CurveLaws c) where
  pub take_point :
      (p : c.NonIdentityPoint) (rest : Bytes)
      → deserialize_take_point c (c.to_sec1_point p ++ rest) ≡ ok (p, rest)
  unfolding deserialize_take_point
  take_point p rest = simp (
    take_array-append c.compressed_point_size "public key" _ rest (laws.length-to_sec1_point p),
    laws.point_from_bytes-to_sec1_point,
    passes,
  )

  pub take_secret_key :
      (sk : c.SecretKey) (rest : Bytes)
      → deserialize_take_secret_key c (c.to_bytes sk ++ rest) ≡ ok (sk, rest)
  unfolding deserialize_take_secret_key
  take_secret_key sk rest = simp (
    take_array-append c.field_bytes_size "secret key" _ rest (laws.length-to_bytes sk),
    laws.from_bytes-to_bytes,
    passes,
  )

  abbrev pub elliptic_curve-GroupLaws : GroupLaws (elliptic_curve c)
  elliptic_curve-GroupLaws = record {
    SkIsValid = λ sk. Unit;
    PkIsValid = λ pk. Unit;
    random_sk-SkIsValid = λ filled rng. tt;
    derive_scalar-SkIsValid = λ seed sk measured derived. tt;
    public_key-PkIsValid = λ sk valid. tt;
    length-serialize_pk = λ pk valid. laws.length-to_sec1_point pk;
    take_pk = λ pk rest valid. take_point pk rest;
    length-serialize_sk = λ sk valid. laws.length-to_bytes sk;
    take_sk = λ sk rest valid. take_secret_key sk rest;
  }

  abbrev pub elliptic_curve-DiffieHellmanLaws :
      DiffieHellmanLaws (elliptic_curve c) (elliptic_curve_diffie_hellman c)
  elliptic_curve-DiffieHellmanLaws = record {
    agree =
        λ a b. ap c.to_sec1_point (laws.mul_comm (c.to_nonzero_scalar a) (c.to_nonzero_scalar b));
  }
