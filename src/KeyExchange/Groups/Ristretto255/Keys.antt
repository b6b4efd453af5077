-- ===== src/KeyExchange/Groups/Ristretto255/Keys.antt =====
-- key_exchange/group/ristretto255.rs: the keys, their encodings and the shared secret.
use mathlib.Core.WellFounded.{Acc}
use opaque_vx.Prelude.{
  false, Bool-cases, inl, inr, some, Bytes, length, ◌≡◌, ◌++◌, refl, sym, ap, ◌∙◌,
}
use opaque_vx.Prelude.Results.{ok, passes, bind_ok, ok_or-eq-ok, map_err-eq-ok}
use opaque_vx.Serialization.{take_array-append, take_array-eq-ok}
use opaque_vx.Oprf.{OprfCs}
use opaque_vx.Group.{GroupLaws, DiffieHellmanLaws}
use opaque_vx.KeyExchange.Groups.Ristretto255.{
  Ristretto, draw_scalar, Redraws, random_ristretto_sk, from_point, from_scalar,
  deserialize_take_ristretto_pk, deserialize_take_ristretto_sk, derive_ristretto_scalar,
  ristretto255, ristretto255_diffie_hellman,
}

-- Encodings have 32 bytes, read back and are the only ones that read; scalars commute; a scalar that is not
-- zero does not take the base point to the identity; and `derive_key` does not return zero.
pub record RistrettoLaws {o : OprfCs} (c : Ristretto o) : Type 0 where
  pub length-compress : (p : c.RistrettoPoint) → length (c.compress p) ≡ 32
  pub decompress-compress : (p : c.RistrettoPoint) → c.decompress (c.compress p) ≡ some p
  pub compress-decompress :
      (b : Bytes) (p : c.RistrettoPoint) → c.decompress b ≡ some p → c.compress p ≡ b
  pub length-to_bytes : (s : c.Scalar) → length (c.to_bytes s) ≡ 32
  pub from_canonical_bytes-to_bytes :
      (s : c.Scalar) → c.from_canonical_bytes (c.to_bytes s) ≡ some s
  pub to_bytes-from_canonical_bytes :
      (b : Bytes) (s : c.Scalar) → c.from_canonical_bytes b ≡ some s → c.to_bytes s ≡ b
  pub mul_comm : (p : c.RistrettoPoint) (a b : c.Scalar) → c.mul (c.mul p a) b ≡ c.mul (c.mul p b) a
  pub base_proper :
      (s : c.Scalar) → c.is_zero s ≡ false → c.is_identity (c.mul c.basepoint s) ≡ false
  pub derive_key_nonzero :
      (seed info : Bytes) (s : c.Scalar) → c.derive_key seed info ≡ ok s → c.is_zero s ≡ false

module _ {o : OprfCs} (c : Ristretto o) where
  -- From a generator that does not draw zero for ever, the loop that draws a secret key ends, and the
  -- key is not zero.
  pub random_ristretto_sk_nonzero :
      (rng : o.Rng) (ends : Acc (Redraws c) rng)
      → c.is_zero (random_ristretto_sk c rng ends).0 ≡ false
  unfolding random_ristretto_sk
  random_ristretto_sk_nonzero rng (Acc.intro _ next) =
      elim (Bool-cases (c.is_zero (draw_scalar c rng).0))
        as (λ b.
          c.is_zero
            (elim b as (λ _. c.Scalar × o.Rng) [
              | inl zero ↦
                  random_ristretto_sk c (draw_scalar c rng).1
                    (next (draw_scalar c rng).1 (zero, refl))
              | inr nonzero ↦ draw_scalar c rng
            ]).0
          ≡ false) [
            | inl zero ↦ random_ristretto_sk_nonzero _ (next _ (zero, refl))
            | inr nonzero ↦ nonzero
          ]

  from_point_lem :
      (point : c.RistrettoPoint) → c.is_identity point ≡ false → from_point c point ≡ ok point
  unfolding from_point
  from_point_lem point proper = rw (proper)

  from_scalar_lem :
      (scalar : c.Scalar) → c.is_zero scalar ≡ false → from_scalar c scalar ≡ ok scalar
  unfolding from_scalar
  from_scalar_lem scalar nonzero = rw (nonzero)

  from_scalar-eq-ok :
      (scalar sk : c.Scalar) → from_scalar c scalar ≡ ok sk → (scalar ≡ sk) × (c.is_zero sk ≡ false)
  unfolding from_scalar
  from_scalar-eq-ok scalar sk h = elim (Bool-cases (c.is_zero scalar)) [
    | inl zero ↦ let h' = rw zero at h in cc
    | inr nonzero ↦
        let h' = rw nonzero at h in let same : scalar ≡ sk = cc in (same, rw (← same) nonzero)
  ]

  module _ (laws : RistrettoLaws c) where
    pub take_ristretto_pk :
        (pk : c.RistrettoPoint) (rest : Bytes)
        → c.is_identity pk ≡ false
        → deserialize_take_ristretto_pk c (c.compress pk ++ rest) ≡ ok (pk, rest)
    unfolding deserialize_take_ristretto_pk
    take_ristretto_pk pk rest proper = simp (
      take_array-append 32 "public key" (c.compress pk) rest (laws.length-compress pk),
      laws.decompress-compress,
      from_point_lem pk proper,
      passes,
    )

    pub take_ristretto_sk :
        (sk : c.Scalar) (rest : Bytes)
        → c.is_zero sk ≡ false
        → deserialize_take_ristretto_sk c (c.to_bytes sk ++ rest) ≡ ok (sk, rest)
    unfolding deserialize_take_ristretto_sk
    take_ristretto_sk sk rest nonzero = simp (
      take_array-append 32 "secret key" (c.to_bytes sk) rest (laws.length-to_bytes sk),
      laws.from_canonical_bytes-to_bytes,
      from_scalar_lem sk nonzero,
      passes,
    )

    -- Whatever bytes are taken for a secret key, it is not zero, and they are the bytes that the key is
    -- written as.
    pub deserialize_take_ristretto_sk-eq-ok :
        (input rest : Bytes) (sk : c.Scalar)
        → deserialize_take_ristretto_sk c input ≡ ok (sk, rest)
        → (input ≡ c.to_bytes sk ++ rest) × (c.is_zero sk ≡ false)
    unfolding deserialize_take_ristretto_sk
    deserialize_take_ristretto_sk-eq-ok input rest sk h = bind_ok _ _ h λ taken e h1.
        bind_ok _ _ h1 λ drawn lifted h2. bind_ok _ _ lifted λ scalar read h3.
          bind_ok _ _ h2 λ key made h4.
            let (measured, joined) = take_array-eq-ok 32 "secret key" input taken.0 taken.1 e in
            let (same, nonzero) = from_scalar-eq-ok drawn.0 key made in
            let scalar_eq : scalar ≡ drawn.0 = cc in
            let slice : taken.1 ≡ drawn.1 = cc in
            let canonical =
              laws.to_bytes-from_canonical_bytes taken.0 scalar (ok_or-eq-ok _ _ read) in
            let key_eq : key ≡ sk = cc in
            let bytes : taken.0 ≡ c.to_bytes sk = cc in
            let end : taken.1 ≡ rest = cc in
            (
              sym joined ∙ ap (λ b. b ++ taken.1) bytes ∙ ap (λ b. c.to_bytes sk ++ b) end,
              rw (← key_eq) nonzero,
            )

    pub derived_nonzero :
        (seed : Bytes) (sk : c.Scalar)
        → length seed ≡ 32
        → derive_ristretto_scalar c seed ≡ ok sk
        → c.is_zero sk ≡ false
    unfolding derive_ristretto_scalar
    derived_nonzero seed sk measured h = laws.derive_key_nonzero seed _ sk (map_err-eq-ok _ _ h)

    module _ (ends : (rng : o.Rng) → Acc (Redraws c) rng) where
      -- Ristretto255 is a group: no key of it is zero or the identity, and its keys read back.
      abbrev pub ristretto255-GroupLaws : GroupLaws (ristretto255 c ends)
      ristretto255-GroupLaws = record {
        SkIsValid = λ sk. c.is_zero sk ≡ false;
        PkIsValid = λ pk. c.is_identity pk ≡ false;
        random_sk-SkIsValid = λ filled rng. random_ristretto_sk_nonzero rng (ends rng);
        derive_scalar-SkIsValid = derived_nonzero;
        public_key-PkIsValid = laws.base_proper;
        length-serialize_pk = λ pk valid. laws.length-compress pk;
        take_pk = take_ristretto_pk;
        length-serialize_sk = λ sk valid. laws.length-to_bytes sk;
        take_sk = take_ristretto_sk;
      }

      abbrev pub ristretto255-DiffieHellmanLaws :
          DiffieHellmanLaws (ristretto255 c ends) (ristretto255_diffie_hellman c ends)
      ristretto255-DiffieHellmanLaws = record {
        agree = λ a b. ap c.compress (laws.mul_comm c.basepoint b a);
      }
