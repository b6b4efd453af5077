-- ===== src/KeyExchange/Groups/Ristretto255.antt =====
-- key_exchange/group/ristretto255.rs: Ristretto255, over the crates curve25519-dalek (ristretto) and voprf.
-- `NonIdentity` and `NonZeroScalar` wrap a point and a scalar, and are those here.
pub mod Keys
use mathlib.Core.WellFounded.{Acc}
use opaque_vx.Prelude.{
  Bool, true, false, Bool-cases, inl, inr, Option, Bytes, if◌then◌else◌, ◌≡◌, refl,
}
use opaque_vx.Prelude.Results.{Result, ok, err, ok_or, map_err, bind}
use opaque_vx.Prelude.Act.{Act, pure, lift, ◌>>=◌}
use opaque_vx.Errors.{serialization_error, oprf_error}
use opaque_vx.Serialization.{take_array}
use opaque_vx.Oprf.{OprfCs, Failure, InternalFailure}
use opaque_vx.Group.{Group, DiffieHellman, str_opaque_derive_auth_key_pair}

pub record Ristretto (o : OprfCs) : Type 1 where
  pub RistrettoPoint : Type 0
  pub Scalar : Type 0
  pub basepoint : RistrettoPoint
  pub mul : RistrettoPoint → Scalar → RistrettoPoint
  pub compress : RistrettoPoint → Bytes
  pub decompress : Bytes → Option RistrettoPoint
  pub is_identity : RistrettoPoint → Bool
  pub is_zero : Scalar → Bool
  pub from_bytes_mod_order_wide : Bytes → Scalar
  pub to_bytes : Scalar → Bytes
  pub from_canonical_bytes : Bytes → Option Scalar
  -- `voprf::derive_key::<Ristretto255>(seed, info, Mode::Oprf)`
  pub derive_key : Bytes → Bytes → Result o.Error Scalar

module _ {o : OprfCs} (c : Ristretto o) where
  -- The scalar that one round of the loop in `random_sk` draws, and the generator after it.
  unfoldable pub draw_scalar : o.Rng → c.Scalar × o.Rng
  draw_scalar rng =
      let (bytes, rng') = o.fill_bytes 64 rng in (c.from_bytes_mod_order_wide bytes, rng')

  -- The loop goes on from `rng'` after `rng`.
  abbrev pub Redraws : o.Rng → o.Rng → Type 0
  Redraws rng' rng = (c.is_zero (draw_scalar rng).0 ≡ true) × (rng' ≡ (draw_scalar rng).1)

  -- `random_sk`: the loop ends where the generator does not draw zero for ever.
  unfoldable pub random_ristretto_sk : (rng : o.Rng) → Acc Redraws rng → c.Scalar × o.Rng
  random_ristretto_sk rng (Acc.intro _ next) = elim (Bool-cases (c.is_zero (draw_scalar rng).0)) [
    | inl zero ↦ random_ristretto_sk (draw_scalar rng).1 (next (draw_scalar rng).1 (zero, refl))
    | inr nonzero ↦ draw_scalar rng
  ]

  -- `NonIdentity::from_point`
  unfoldable pub from_point : c.RistrettoPoint → Result (Failure o) c.RistrettoPoint
  from_point point = if c.is_identity point then err serialization_error else ok point

  -- `NonZeroScalar::from_scalar`
  unfoldable pub from_scalar : c.Scalar → Result (Failure o) c.Scalar
  from_scalar scalar = if c.is_zero scalar then err serialization_error else ok scalar

  unfoldable pub deserialize_take_ristretto_pk : Act (Failure o) Bytes c.RistrettoPoint
  deserialize_take_ristretto_pk = do
    bytes ← take_array 32 "public key"
    point ← lift (ok_or serialization_error (c.decompress bytes))
    lift (from_point point)

  unfoldable pub deserialize_take_ristretto_sk : Act (Failure o) Bytes c.Scalar
  deserialize_take_ristretto_sk = do
    bytes ← take_array 32 "secret key"
    scalar ← lift (ok_or serialization_error (c.from_canonical_bytes bytes))
    lift (from_scalar scalar)

  unfoldable pub derive_ristretto_scalar : Bytes → Result (InternalFailure o) c.Scalar
  derive_ristretto_scalar seed =
      map_err oprf_error (c.derive_key seed str_opaque_derive_auth_key_pair)

  -- `impl Group for Ristretto255`
  abbrev pub ristretto255 : ((rng : o.Rng) → Acc Redraws rng) → Group o
  ristretto255 ends = record {
    Pk = c.RistrettoPoint;
    pk_len = 32;
    Sk = c.Scalar;
    sk_len = 32;
    serialize_pk = c.compress;
    deserialize_take_pk = deserialize_take_ristretto_pk;
    random_sk = λ rng. random_ristretto_sk rng (ends rng);
    derive_scalar = derive_ristretto_scalar;
    public_key = λ sk. c.mul c.basepoint sk;
    serialize_sk = c.to_bytes;
    deserialize_take_sk = deserialize_take_ristretto_sk;
  }

  -- `impl DiffieHellman<Ristretto255> for NonZeroScalar`
  abbrev pub ristretto255_diffie_hellman :
      (ends : (rng : o.Rng) → Acc Redraws rng) → DiffieHellman (ristretto255 ends)
  ristretto255_diffie_hellman ends = record { diffie_hellman = λ sk pk. c.compress (c.mul pk sk) }
