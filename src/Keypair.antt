-- ===== src/Keypair.antt =====
-- keypair.rs: key pairs and the wrappers of keys. `PublicKey<G>` and `PrivateKey<G>` wrap one field,
-- and are that field here.
use opaque_vx.Prelude.{Bytes, ◌≡◌, ◌++◌}
use opaque_vx.Prelude.Results.{Result, ok, bind, unwrap, passes}
use opaque_vx.Prelude.Act.{Act, pure, lift, total, ◌>>=◌}
use opaque_vx.Oprf.{OprfCs, Failure}
use opaque_vx.Group.{Group, GroupLaws}

module _ {o : OprfCs} where
  abbrev pub PublicKey : Group o → Type 0
  PublicKey g = g.Pk

  abbrev pub PrivateKey : Group o → Type 0
  PrivateKey g = g.Sk

  -- `KeyPair<G, SK>`; `new`, `public` and `private` are the record and its fields.
  pub record KeyPair (g : Group o) (SK : Type 0) : Type 0 where
    pub pk : PublicKey g
    pub sk : SK

module _ (o : OprfCs) (g : Group o) where
  unfoldable pub random : o.Rng → KeyPair g (PrivateKey g) × o.Rng
  random rng = let (sk, rng') = g.random_sk rng in (record { pk = g.public_key sk; sk = sk }, rng')

  -- The seed is drawn first; an error of `derive_scalar` is unwrapped.
  unfoldable pub derive_random : Act (Failure o) o.Rng (KeyPair g (PrivateKey g))
  derive_random = do
    scalar_bytes ← total (o.fill_bytes g.sk_len)
    sk ← lift (unwrap (g.derive_scalar scalar_bytes))
    pure (record { pk = g.public_key sk; sk = sk })

  -- `<PrivateKey<G> as PrivateKeySerialization>`: only the secret key is written, and the public key
  -- is computed again.
  unfoldable pub serialize_key_pair : KeyPair g (PrivateKey g) → Bytes
  serialize_key_pair key_pair = g.serialize_sk key_pair.sk

  unfoldable pub deserialize_take_key_pair : Act (Failure o) Bytes (KeyPair g (PrivateKey g))
  deserialize_take_key_pair = do
    sk ← g.deserialize_take_sk
    pure (record { pk = g.public_key sk; sk = sk })

  -- `PrivateKey::deserialize` and `PublicKey::deserialize`: what follows the key is not looked at.
  unfoldable pub deserialize_private_key : Bytes → Result (Failure o) (PrivateKey g)
  deserialize_private_key input = bind (g.deserialize_take_sk input) λ result. ok result.0

  unfoldable pub deserialize_public_key : Bytes → Result (Failure o) (PublicKey g)
  deserialize_public_key key_bytes = bind (g.deserialize_take_pk key_bytes) λ result. ok result.0

  module _ (laws : GroupLaws g) where
    -- Valid keys read back, whatever follows.
    pub deserialize_private_key-serialize_sk :
        (sk : PrivateKey g) (rest : Bytes)
        → laws.SkIsValid sk
        → deserialize_private_key (g.serialize_sk sk ++ rest) ≡ ok sk
    unfolding deserialize_private_key
    deserialize_private_key-serialize_sk sk rest valid = simp (laws.take_sk sk rest valid, passes)

    pub deserialize_public_key-serialize_pk :
        (pk : PublicKey g) (rest : Bytes)
        → laws.PkIsValid pk
        → deserialize_public_key (g.serialize_pk pk ++ rest) ≡ ok pk
    unfolding deserialize_public_key
    deserialize_public_key-serialize_pk pk rest valid = simp (laws.take_pk pk rest valid, passes)
