-- ===== src/Envelope.antt =====
-- envelope.rs: sealing and opening the client's envelope. The hasher is the HKDF of the randomized
-- password.
pub mod Seal
pub mod Codec
pub mod RoundTrip
pub mod Sealed
pub mod Aad
pub mod Totality
use opaque_vx.Prelude.{
  ℕ, zero, suc, ◌+◌, List, [], ◌∷◌, ◌++◌, true, false, Bytes, bytes, replicate, if◌then◌else◌, ◌==◌,
}
use opaque_vx.Prelude.Results.{Result, ok, err, ok_or, map_err, guard, ◌>>=◌, ◌>>◌}
use opaque_vx.Errors.{
  library_error, hkdf_error, hmac_error, seal_open_hmac_error, incompatible_envelope_mode_error,
  serialization_error,
}
use opaque_vx.Serialization.{take_array, concat_ext}
use opaque_vx.Hash.{mac_update_iter}
use opaque_vx.Oprf.{OprfCs, Failure, InternalFailure}
use opaque_vx.Group.{Group}
use opaque_vx.Keypair.{KeyPair, PublicKey, PrivateKey}
use opaque_vx.KeyExchange.Serialized.{
  Identifiers, SerializedIdentifiers, SerializedIdentifier, nonce_len, identifier_slices,
  from_identifiers,
}

abbrev pub str_auth_key : Bytes
str_auth_key = bytes "AuthKey"

abbrev pub str_export_key : Bytes
str_export_key = bytes "ExportKey"

abbrev pub str_private_key : Bytes
str_private_key = bytes "PrivateKey"

pub data InnerEnvelopeMode : Type 0 where
  zero_mode internal : InnerEnvelopeMode

pub record Envelope : Type 0 where
  pub mode : InnerEnvelopeMode
  pub nonce : Bytes
  pub hmac : Bytes

-- `construct_aad`: the server's key, then its identifier, then the client's.
unfoldable pub construct_aad : List Bytes → List Bytes → Bytes → List Bytes
construct_aad id_u id_s server_s_pk = (server_s_pk ∷ []) ++ (id_s ++ id_u)

module _ (o : OprfCs) where
  -- `TryFrom<u8> for InnerEnvelopeMode`
  unfoldable pub try_from : ℕ → Result (Failure o) InnerEnvelopeMode
  try_from x = if x == 1 then ok internal else err serialization_error

  -- The tag over the nonce and the associated data, and the export key.
  unfoldable pub seal_raw :
      o.hash.Hkdf
      → Bytes
      → List Bytes
      → InnerEnvelopeMode
      → Result (InternalFailure o) (Envelope × Bytes)
  seal_raw hasher nonce aad mode = do
    hmac_key ←
        ok_or hkdf_error
          (o.hash.expand_multi_info hasher (nonce ∷ str_auth_key ∷ []) o.hash.output_size)
    export_key ←
        ok_or hkdf_error
          (o.hash.expand_multi_info hasher (nonce ∷ str_export_key ∷ []) o.hash.output_size)
    hmac ← ok_or hmac_error (o.hash.new_from_slice hmac_key)
    ok (
      record {
        mode = mode;
        nonce = nonce;
        hmac = o.hash.mac_finalize (mac_update_iter o.hash (o.hash.mac_update hmac nonce) aad);
      },
      export_key,
    )

  -- The export key, if the tag is that of the nonce and the associated data.
  unfoldable pub open_raw : Envelope → o.hash.Hkdf → List Bytes → Result (InternalFailure o) Bytes
  open_raw self hasher aad = do
    hmac_key ←
        ok_or hkdf_error
          (o.hash.expand_multi_info hasher (self.nonce ∷ str_auth_key ∷ []) o.hash.output_size)
    export_key ←
        ok_or hkdf_error
          (o.hash.expand_multi_info hasher (self.nonce ∷ str_export_key ∷ []) o.hash.output_size)
    hmac ← ok_or hmac_error (o.hash.new_from_slice hmac_key)
    guard (o.hash.verify (mac_update_iter o.hash (o.hash.mac_update hmac self.nonce) aad) self.hmac)
        seal_open_hmac_error
    ok export_key

  -- An envelope that serializes to zeros.
  unfoldable pub dummy_envelope : Envelope
  dummy_envelope = record {
    mode = zero_mode;
    nonce = replicate nonce_len 0;
    hmac = replicate o.hash.output_size 0;
  }

  -- The mode is not written.
  unfoldable pub serialize_envelope : Envelope → Bytes
  serialize_envelope self = concat_ext self.nonce self.hmac

module _ (o : OprfCs) (g : Group o) where
  -- What an opened envelope gives: the client's key pair, the export key and the identifiers.
  pub record OpenedEnvelope : Type 0 where
    pub client_static_keypair : KeyPair g (PrivateKey g)
    pub export_key : Bytes
    pub identifiers : SerializedIdentifiers

  unfoldable pub build_inner_envelope_internal :
      o.hash.Hkdf → Bytes → Result (Failure o) (PublicKey g)
  build_inner_envelope_internal hasher nonce = do
    keypair_seed ←
        ok_or (library_error hkdf_error)
          (o.hash.expand_multi_info hasher (nonce ∷ str_private_key ∷ []) g.sk_len)
    client_s_sk ← map_err library_error (g.derive_scalar keypair_seed)
    ok (g.public_key client_s_sk)

  unfoldable pub recover_keys_internal :
      o.hash.Hkdf → Bytes → Result (Failure o) (KeyPair g (PrivateKey g))
  recover_keys_internal hasher nonce = do
    keypair_seed ←
        ok_or (library_error hkdf_error)
          (o.hash.expand_multi_info hasher (nonce ∷ str_private_key ∷ []) g.sk_len)
    client_s_sk ← map_err library_error (g.derive_scalar keypair_seed)
    ok (record { pk = g.public_key client_s_sk; sk = client_s_sk })

  unfoldable pub recover_by_mode :
      InnerEnvelopeMode → o.hash.Hkdf → Bytes → Result (Failure o) (KeyPair g (PrivateKey g))
  recover_by_mode zero_mode hasher nonce = err (library_error incompatible_envelope_mode_error)
  recover_by_mode internal hasher nonce = recover_keys_internal hasher nonce

  -- The mode decides first; then the tag is checked against the identifiers, which default to the
  -- keys.
  unfoldable pub open_envelope :
      Envelope → o.hash.Hkdf → PublicKey g → Identifiers → Result (Failure o) OpenedEnvelope
  open_envelope self hasher server_s_pk optional_ids = do
    client_static_keypair ← recover_by_mode self.mode hasher self.nonce
    let server_s_pk_bytes = g.serialize_pk server_s_pk
    identifiers ←
        from_identifiers o optional_ids (g.serialize_pk client_static_keypair.pk) server_s_pk_bytes
    let aad =
        construct_aad (identifier_slices identifiers.client) (identifier_slices identifiers.server)
          server_s_pk_bytes
    export_key ← map_err library_error (open_raw o self hasher aad)
    ok (record {
      client_static_keypair = client_static_keypair;
      export_key = export_key;
      identifiers = identifiers;
    })
