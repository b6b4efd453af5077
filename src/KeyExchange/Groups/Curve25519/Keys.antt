-- ===== src/KeyExchange/Groups/Curve25519/Keys.antt =====
-- key_exchange/group/curve25519.rs: the keys, their encodings and the shared secret.
use opaque_vx.Prelude.{
  ℕ, false, Bool-cases, inl, inr, Bytes, length, bytes_eq, bytes_eq_refl, bytes_eq_sound, ◌≡◌, ◌++◌,
  ◌≤◌, ◌*◌, refl, sym, ap, ◌∙◌, arith, length-append,
}
use opaque_vx.Prelude.Results.{Result, ok, passes, bind, bind_ok}
use opaque_vx.Serialization.{take_array_lem, take_array-append, take_array-eq-ok}
use opaque_vx.Oprf.{OprfCs, InternalFailure}
use opaque_vx.Group.{GroupLaws, TakesKeys, DiffieHellmanLaws}
use opaque_vx.Envelope.Totality.{EnvelopeFits}
use opaque_vx.Errors.{serialization_error, size_error}
use opaque_vx.KeyExchange.Groups.Curve25519.{
  Montgomery, non_identity_from_bytes, scalar_from_bytes, random_curve25519_sk,
  deserialize_take_curve25519_pk, deserialize_take_curve25519_sk, curve25519,
  curve25519_diffie_hellman,
}

-- Clamping sets fixed bits, and the multiples of points by clamped scalars commute and are never the
-- identity at the base point.
pub record MontgomeryLaws (c : Montgomery) : Type 0 where
  pub clamp_twice : (b : Bytes) → c.clamp_integer (c.clamp_integer b) ≡ c.clamp_integer b
  pub length-clamp_integer : (b : Bytes) → length (c.clamp_integer b) ≡ length b
  pub length-mul_base_clamped : (b : Bytes) → length (c.mul_base_clamped b) ≡ 32
  pub base_proper : (b : Bytes) → c.is_identity (c.mul_base_clamped b) ≡ false
  pub mul_clamped_comm :
      (a b : Bytes)
      → c.mul_clamped (c.mul_base_clamped b) a ≡ c.mul_clamped (c.mul_base_clamped a) b

module _ (o : OprfCs) (c : Montgomery) where
  pub record IsScalar (sk : Bytes) : Type 0 where
    pub length-scalar : length sk ≡ 32
    pub clamped : c.clamp_integer sk ≡ sk

  pub record IsProper (pk : Bytes) : Type 0 where
    pub length-point : length pk ≡ 32
    pub proper : c.is_identity pk ≡ false

  pub take_curve25519_pk :
      (pk rest : Bytes)
      → IsProper pk
      → deserialize_take_curve25519_pk o c (pk ++ rest) ≡ ok (pk, rest)
  unfolding deserialize_take_curve25519_pk non_identity_from_bytes
  take_curve25519_pk pk rest valid =
      simp (take_array-append 32 "public key" pk rest valid.length-point, valid.proper, passes)

  pub curve25519-TakesKeys : TakesKeys (curve25519 o c)
  unfolding deserialize_take_curve25519_pk non_identity_from_bytes bind
  curve25519-TakesKeys input =
      elim (take_array_lem {V = o.Error} {W = o.InternalError} 32 "public key" input) [
        | inl (short, refused) ↦ inr (size_error "public key" 32 (length input), simp refused)
        | inr (front, back, cut, measured, joined) ↦ elim (Bool-cases (c.is_identity front)) [
          | inl identity ↦ inr (serialization_error, simp (cut, identity))
          | inr proper ↦ inl (
            front,
            back,
            simp (cut, proper),
            omega (arith, ap length joined, length-append front back),
            measured,
          )
        ]
      ]

  pub take_curve25519_sk :
      (sk rest : Bytes)
      → IsScalar sk
      → deserialize_take_curve25519_sk o c (sk ++ rest) ≡ ok (sk, rest)
  unfolding deserialize_take_curve25519_sk scalar_from_bytes
  take_curve25519_sk sk rest valid = simp (
    take_array-append 32 "secret key" sk rest valid.length-scalar,
    valid.clamped,
    bytes_eq_refl,
    passes,
  )

  scalar_from_bytes-eq-ok :
      (bytes sk : Bytes)
      → scalar_from_bytes o c bytes ≡ ok sk
      → (sk ≡ bytes) × (c.clamp_integer sk ≡ sk)
  unfolding scalar_from_bytes
  scalar_from_bytes-eq-ok bytes sk h = elim (Bool-cases (bytes_eq (c.clamp_integer bytes) bytes)) [
    | inl same ↦
        let h' = rw same at h in
        let kept : c.clamp_integer bytes ≡ sk = cc in
        let equal = bytes_eq_sound _ _ same in (cc, cc)
    | inr differs ↦ let h' = rw differs at h in cc
  ]

  -- Whatever bytes are taken for a secret key, they are clamped already, and they are the bytes that the
  -- key is written as.
  pub deserialize_take_curve25519_sk-eq-ok :
      (input rest sk : Bytes)
      → deserialize_take_curve25519_sk o c input ≡ ok (sk, rest)
      → (input ≡ sk ++ rest) × IsScalar sk
  unfolding deserialize_take_curve25519_sk
  deserialize_take_curve25519_sk-eq-ok input rest sk h = bind_ok _ _ h λ taken e h1.
      bind_ok _ _ h1 λ key made h2.
        let (measured, joined) = take_array-eq-ok 32 "secret key" input taken.0 taken.1 e in
        let (bytes, clamped) = scalar_from_bytes-eq-ok taken.0 key made in
        let key_eq : key ≡ sk = cc in
        let bytes' : taken.0 ≡ sk = cc in
        let end : taken.1 ≡ rest = cc in
        (
          sym joined ∙ ap (λ b. b ++ taken.1) bytes' ∙ ap (λ b. sk ++ b) end,
          record { length-scalar = rw (← bytes') measured; clamped = rw (← key_eq) clamped },
        )

  module _ (laws : MontgomeryLaws c) where
    clamped-IsScalar : (b : Bytes) → length b ≡ 32 → IsScalar (c.clamp_integer b)
    clamped-IsScalar b measured = record {
      length-scalar = laws.length-clamp_integer b ∙ measured;
      clamped = laws.clamp_twice b;
    }

    pub random_curve25519_sk-IsScalar :
        ((n : ℕ) (r : o.Rng) → length (o.fill_bytes n r).0 ≡ n)
        → (rng : o.Rng) → IsScalar (random_curve25519_sk o c rng).0
    unfolding random_curve25519_sk
    random_curve25519_sk-IsScalar filled rng = clamped-IsScalar _ (filled 32 rng)

    pub derived-IsScalar :
        (seed sk : Bytes)
        → length seed ≡ 32
        → ◌≡◌ {A = Result (InternalFailure o) Bytes} (ok (c.clamp_integer seed)) (ok sk)
        → IsScalar sk
    derived-IsScalar seed sk measured derived =
        let same : c.clamp_integer seed ≡ sk = cc in rw (← same) (clamped-IsScalar seed measured)

    pub mul_base_clamped-IsProper : (sk : Bytes) → IsProper (c.mul_base_clamped sk)
    mul_base_clamped-IsProper sk = record {
      length-point = laws.length-mul_base_clamped sk;
      proper = laws.base_proper sk;
    }

    pub curve25519-EnvelopeFits : 32 ≤ 255 * o.hash.output_size → EnvelopeFits (curve25519 o c)
    curve25519-EnvelopeFits fits = record {
      seed_fits = fits;
      derives = λ seed measured.
          (c.clamp_integer seed, refl, laws.length-mul_base_clamped (c.clamp_integer seed));
      pk_fits = omega arith;
    }

    abbrev pub curve25519-GroupLaws : GroupLaws (curve25519 o c)
    curve25519-GroupLaws = record {
      SkIsValid = IsScalar;
      PkIsValid = IsProper;
      random_sk-SkIsValid = random_curve25519_sk-IsScalar;
      derive_scalar-SkIsValid = derived-IsScalar;
      public_key-PkIsValid = λ sk valid. mul_base_clamped-IsProper sk;
      length-serialize_pk = λ pk valid. valid.length-point;
      take_pk = take_curve25519_pk;
      length-serialize_sk = λ sk valid. valid.length-scalar;
      take_sk = take_curve25519_sk;
    }

    abbrev pub curve25519-DiffieHellmanLaws :
        DiffieHellmanLaws (curve25519 o c) (curve25519_diffie_hellman o c)
    curve25519-DiffieHellmanLaws = record { agree = λ a b. laws.mul_clamped_comm a b }
