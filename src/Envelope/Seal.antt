-- ===== src/Envelope/Seal.antt =====
-- envelope.rs: `Envelope::seal`.
use opaque_vx.Prelude.{Bytes}
use opaque_vx.Prelude.Results.{map_err}
use opaque_vx.Prelude.Act.{Act, pure, lift, total, ◌>>=◌}
use opaque_vx.Errors.{library_error}
use opaque_vx.Oprf.{OprfCs, Failure}
use opaque_vx.Group.{Group}
use opaque_vx.Keypair.{PublicKey}
use opaque_vx.KeyExchange.Serialized.{Identifiers, nonce_len, identifier_slices, from_identifiers}
use opaque_vx.Envelope.{Envelope, internal, construct_aad, seal_raw, build_inner_envelope_internal}

module _ (o : OprfCs) (g : Group o) where
  -- A fresh nonce, the client's public key derived under it, and the sealed envelope with the export
  -- key.
  unfoldable pub seal :
      o.hash.Hkdf
      → PublicKey g
      → Identifiers
      → Act (Failure o) o.Rng (Envelope × PublicKey g × Bytes)
  seal hasher server_s_pk ids = do
    nonce ← total (o.fill_bytes nonce_len)
    client_s_pk ← lift (build_inner_envelope_internal o g hasher nonce)
    let server_s_pk_bytes = g.serialize_pk server_s_pk
    identifiers ← lift (from_identifiers o ids (g.serialize_pk client_s_pk) server_s_pk_bytes)
    let aad =
        construct_aad (identifier_slices identifiers.client) (identifier_slices identifiers.server)
          server_s_pk_bytes
    result ← lift (map_err library_error (seal_raw o hasher nonce aad internal))
    pure (result.0, client_s_pk, result.1)
