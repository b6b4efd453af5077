-- ===== src/Group.antt =====
-- key_exchange/group/mod.rs: the trait `Group`, and the trait `DiffieHellman` of
-- key_exchange/shared.rs, with the laws that the protocol relies on.
use opaque_vx.Prelude.{ℕ, ◌≡◌, ◌+◌, ◌⊎◌, Bytes, bytes, length, ◌++◌}
use opaque_vx.Prelude.Results.{Result, ok, err}
use opaque_vx.Prelude.Act.{Act}
use opaque_vx.Oprf.{OprfCs, Failure, InternalFailure}

abbrev pub str_opaque_derive_auth_key_pair : Bytes
str_opaque_derive_auth_key_pair = bytes "OPAQUE-DeriveDiffieHellmanKeyPair"

module _ (o : OprfCs) where
  pub record Group : Type 1 where
    pub Pk : Type 0
    pub pk_len : ℕ
    pub Sk : Type 0
    pub sk_len : ℕ
    pub serialize_pk : Pk → Bytes
    pub deserialize_take_pk : Act (Failure o) Bytes Pk
    pub random_sk : o.Rng → Sk × o.Rng
    pub derive_scalar : Bytes → Result (InternalFailure o) Sk
    pub public_key : Sk → Pk
    pub serialize_sk : Sk → Bytes
    pub deserialize_take_sk : Act (Failure o) Bytes Sk

module _ {o : OprfCs} where
  -- The fields of a group's keys are private, so that a key is valid by the way it was made. The
  -- encodings of valid keys have their lengths and read back.
  pub record GroupLaws (g : Group o) : Type 1 where
    pub SkIsValid : g.Sk → Type 0
    pub PkIsValid : g.Pk → Type 0
    pub random_sk-SkIsValid :
        ((n : ℕ) (r : o.Rng) → length (o.fill_bytes n r).0 ≡ n)
        → (rng : o.Rng) → SkIsValid (g.random_sk rng).0
    pub derive_scalar-SkIsValid :
        (seed : Bytes) (sk : g.Sk)
        → length seed ≡ g.sk_len
        → g.derive_scalar seed ≡ ok sk
        → SkIsValid sk
    pub public_key-PkIsValid : (sk : g.Sk) → SkIsValid sk → PkIsValid (g.public_key sk)
    pub length-serialize_pk : (pk : g.Pk) → PkIsValid pk → length (g.serialize_pk pk) ≡ g.pk_len
    pub take_pk :
        (pk : g.Pk) (rest : Bytes)
        → PkIsValid pk
        → g.deserialize_take_pk (g.serialize_pk pk ++ rest) ≡ ok (pk, rest)
    pub length-serialize_sk : (sk : g.Sk) → SkIsValid sk → length (g.serialize_sk sk) ≡ g.sk_len
    pub take_sk :
        (sk : g.Sk) (rest : Bytes)
        → SkIsValid sk
        → g.deserialize_take_sk (g.serialize_sk sk ++ rest) ≡ ok (sk, rest)

  pub record DiffieHellman (g : Group o) : Type 0 where
    pub diffie_hellman : g.Sk → g.Pk → Bytes

  -- Both sides compute the same secret.
  pub record DiffieHellmanLaws (g : Group o) (d : DiffieHellman g) : Type 0 where
    pub agree :
        (a b : g.Sk) → d.diffie_hellman a (g.public_key b) ≡ d.diffie_hellman b (g.public_key a)

-- A public key takes its length off the slice and is written in as many bytes, or it is refused.
abbrev pub TakesKeys : {o : OprfCs} → Group o → Type 0
TakesKeys {o} g =
    (input : Bytes)
    → ((pk : g.Pk) × (rest : Bytes) × (g.deserialize_take_pk input ≡ ok (pk, rest))
        × (length input ≡ g.pk_len + length rest)
        × (length (g.serialize_pk pk) ≡ g.pk_len))
      ⊎ ((e : Failure o) × (g.deserialize_take_pk input ≡ err e))
