-- ===== src/KeyExchange/Groups/Ed25519.antt =====
-- key_exchange/group/ed25519.rs: Ed25519, and its EdDSA, which the file writes out.
pub mod Signed
pub mod Keys
pub mod Signatures
use opaque_vx.Prelude.{
  Bool, true, false, Option, none, some, List, [], ◌∷◌, Bytes, bytes, bytes_eq, if◌then◌else◌,
}
use opaque_vx.Prelude.Results.{Result, ok, err, ok_or, bind}
use opaque_vx.Prelude.Act.{Act, pure, lift, ◌>>=◌}
use opaque_vx.Errors.{invalid_login_error, serialization_error}
use opaque_vx.Serialization.{take_array, cat}
use opaque_vx.Hash.{chain_iter}
use opaque_vx.Oprf.{OprfCs, Failure}
use opaque_vx.Group.{Group}
use opaque_vx.KeyExchange.Groups.Edwards.{Edwards}
use opaque_vx.KeyExchange.SigmaI.Messages.{
  Message, MessageBuilder, CachedMessage, sign_message, verify_message, build_message, to_cached,
  hash_message,
}
use opaque_vx.KeyExchange.SigmaI.PreHash.{PreHash, serialize_pre_hash, deserialize_take_pre_hash}
use opaque_vx.KeyExchange.SigmaI.PureEddsa.{PureEddsaImpl}
use opaque_vx.KeyExchange.SigmaI.HashEddsa.{HashEddsaImpl}

pub record VerifyingKey (c : Edwards) : Type 0 where
  pub point : c.EdwardsPoint
  pub compressed : Bytes

pub record SigningKey (c : Edwards) : Type 0 where
  pub sk : Bytes
  pub verifying_key : VerifyingKey c
  pub scalar : c.Scalar
  pub hash_prefix : Bytes

-- The field `R` is `r`.
pub record Signature (c : Edwards) : Type 0 where
  pub r : Bytes
  pub s : c.Scalar

-- `SigningKey::from_bytes`
unfoldable pub signing_key_from_bytes : (c : Edwards) → Bytes → SigningKey c
signing_key_from_bytes c sk =
    let (scalar, hash_prefix) = c.expanded_secret_key sk in
    let point = c.mul_base scalar in
    record {
      sk = sk;
      verifying_key = record { point = point; compressed = c.compress point };
      scalar = scalar;
      hash_prefix = hash_prefix;
    }

module _ (c : Edwards) where
  -- `filter(|point| !point.is_identity())`
  abbrev pub not_identity : Option c.EdwardsPoint → Option c.EdwardsPoint
  not_identity none = none
  not_identity (some point) = if c.is_identity point then none else some point

  -- A new hasher, with the domain of Ed25519ph where the message is hashed before.
  unfoldable pub start_hash : Bool → c.sha512.Hasher
  start_hash pre_hash =
      if pre_hash
      then chain_iter c.sha512 c.sha512.new
          (bytes "SigEd25519 no Ed25519 collisions" ∷ (1 ∷ []) ∷ (0 ∷ []) ∷ [])
      else c.sha512.new

  unfoldable pub ed25519_sign : SigningKey c → Bool → List Bytes → Signature c
  ed25519_sign sk pre_hash message =
      let h = c.sha512.update (start_hash pre_hash) sk.hash_prefix in
      let r = c.from_hash (chain_iter c.sha512 h message) in
      let big_r = c.compress (c.mul_base r) in
      let h' =
        c.sha512.update (c.sha512.update (start_hash pre_hash) big_r) sk.verifying_key.compressed in
      let k = c.from_hash (chain_iter c.sha512 h' message) in
      record { r = big_r; s = c.add (c.mul k sk.scalar) r }

  module _ (o : OprfCs) where
    -- `VerifyingKey::from_bytes`
    unfoldable pub verifying_key_from_bytes : Bytes → Result (Failure o) (VerifyingKey c)
    verifying_key_from_bytes bytes =
        bind (ok_or serialization_error (not_identity (c.decompress bytes)))
          λ point. ok (record { point = point; compressed = bytes })

    unfoldable pub ed25519_verify :
        VerifyingKey c → Bool → List Bytes → Signature c → Result (Failure o) (Unit {0})
    ed25519_verify pk pre_hash message signature =
        let h = c.sha512.update (c.sha512.update (start_hash pre_hash) signature.r) pk.compressed in
        let k = c.from_hash (chain_iter c.sha512 h message) in
        let minus_a = c.neg pk.point in
        let expected_r = c.compress (c.vartime_double_scalar_mul_basepoint k minus_a signature.s) in
        if bytes_eq expected_r signature.r then ok tt else err invalid_login_error

    -- `Signature::deserialize_take`; `from_slice` is this on a whole slice.
    unfoldable pub deserialize_take_ed25519_signature : Act (Failure o) Bytes (Signature c)
    deserialize_take_ed25519_signature = do
      r ← take_array 32 "signature R"
      s_bytes ← take_array 32 "signature s"
      s ← lift (ok_or serialization_error (c.from_canonical_bytes s_bytes))
      pure (record { r = r; s = s })

    -- `impl Group for Ed25519`
    unfoldable pub deserialize_take_ed25519_pk : Act (Failure o) Bytes (VerifyingKey c)
    deserialize_take_ed25519_pk = do
      bytes ← take_array 32 "public key"
      lift (verifying_key_from_bytes bytes)

    unfoldable pub deserialize_take_ed25519_sk : Act (Failure o) Bytes (SigningKey c)
    deserialize_take_ed25519_sk = do
      bytes ← take_array 32 "secret key"
      pure (signing_key_from_bytes c bytes)

    unfoldable pub random_ed25519_sk : o.Rng → SigningKey c × o.Rng
    random_ed25519_sk rng =
        let (sk, rng') = o.fill_bytes 32 rng in (signing_key_from_bytes c sk, rng')

    abbrev pub ed25519 : Group o
    ed25519 = record {
      Pk = VerifyingKey c;
      pk_len = 32;
      Sk = SigningKey c;
      sk_len = 32;
      serialize_pk = λ pk. pk.compressed;
      deserialize_take_pk = deserialize_take_ed25519_pk;
      random_sk = random_ed25519_sk;
      derive_scalar = λ seed. ok (signing_key_from_bytes c seed);
      public_key = λ sk. sk.verifying_key;
      serialize_sk = λ sk. sk.sk;
      deserialize_take_sk = deserialize_take_ed25519_sk;
    }

  -- `Signature::serialize`
  unfoldable pub serialize_ed25519_signature : Signature c → Bytes
  serialize_ed25519_signature self = cat self.r (c.to_bytes self.s)

  module _ (o : OprfCs) where
    -- `impl PureEddsaImpl for Ed25519`
    unfoldable pub pure_sign : SigningKey c → Message → Signature c × CachedMessage
    pure_sign sk message = (ed25519_sign sk false (sign_message message), to_cached message)

    unfoldable pub pure_verify :
        VerifyingKey c
        → MessageBuilder
        → CachedMessage
        → Signature c
        → Result (Failure o) (Unit {0})
    pure_verify pk message_builder state signature =
        ed25519_verify o pk false (verify_message (build_message message_builder state)) signature

    abbrev pub ed25519_pure_eddsa : PureEddsaImpl (ed25519 o)
    ed25519_pure_eddsa = record {
      Signature = Signature c;
      sign = pure_sign;
      verify = pure_verify;
      deserialize_take_signature = deserialize_take_ed25519_signature o;
      serialize_signature = serialize_ed25519_signature;
    }

    -- `impl HashEddsaImpl for Ed25519`
    unfoldable pub hash_sign : SigningKey c → Message → Signature c × PreHash
    hash_sign sk message =
        let hash = hash_message c.sha512 message in
        (ed25519_sign sk true (c.sha512.finalize hash.sign ∷ []), c.sha512.finalize hash.verify)

    unfoldable pub hash_verify :
        VerifyingKey c → PreHash → Signature c → Result (Failure o) (Unit {0})
    hash_verify pk state signature = ed25519_verify o pk true (state ∷ []) signature

    abbrev pub ed25519_hash_eddsa : HashEddsaImpl (ed25519 o)
    ed25519_hash_eddsa = record {
      Signature = Signature c;
      VerifyState = PreHash;
      sign = hash_sign;
      verify = hash_verify;
      deserialize_take_signature = deserialize_take_ed25519_signature o;
      serialize_signature = serialize_ed25519_signature;
      serialize_verify_state = serialize_pre_hash;
      deserialize_take_verify_state = deserialize_take_pre_hash o c.sha512;
    }
