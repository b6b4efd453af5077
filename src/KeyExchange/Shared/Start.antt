-- ===== src/KeyExchange/Shared/Start.antt =====
-- key_exchange/shared.rs: the steps that draw randomness.
use opaque_vx.Prelude.{Bytes}
use opaque_vx.Prelude.Act.{Act, pure, total, ◌>>=◌}
use opaque_vx.Hash.{Hash}
use opaque_vx.Oprf.{OprfCs, Failure}
use opaque_vx.Group.{Group, DiffieHellman}
use opaque_vx.Keypair.{PublicKey, derive_random}
use opaque_vx.KeyExchange.Serialized.{
  SerializedIdentifiers, SerializedContext, SerializedCredentialRequest,
  SerializedCredentialResponse, nonce_len,
}
use opaque_vx.KeyExchange.Trait.{GenerateKe1Result}
use opaque_vx.KeyExchange.Shared.{Ke1State, Ke1Message, to_iter, transcript}

unfoldable pub generate_nonce : (o : OprfCs) → o.Rng → Bytes × o.Rng
generate_nonce o rng = o.fill_bytes nonce_len rng

module _ (o : OprfCs) (g : Group o) where
  unfoldable pub generate_ke1 :
      Act (Failure o) o.Rng (GenerateKe1Result (Ke1State g) (Ke1Message g))
  generate_ke1 = do
    client_e_kp ← derive_random o g
    client_nonce ← total (generate_nonce o)
    pure (record {
      state = record { client_e_sk = client_e_kp.sk; client_nonce = client_nonce };
      message = record { client_nonce = client_nonce; client_e_pk = client_e_kp.pk };
    })

  module _ (h : Hash) where
    -- The server state that `TripleDh` and `TripleDhKem` share.
    pub record Ke2BuilderCommon : Type 0 where
      pub server_nonce : Bytes
      pub transcript_hasher : h.Hasher
      pub client_e_pk : PublicKey g
      pub server_e_pk : PublicKey g
      pub shared_secret_1 : Bytes
      pub shared_secret_3 : Bytes

    unfoldable pub ke2_builder_common :
        DiffieHellman g
        → SerializedCredentialRequest
        → Ke1Message g
        → SerializedCredentialResponse
        → PublicKey g
        → SerializedIdentifiers
        → SerializedContext
        → Act (Failure o) o.Rng Ke2BuilderCommon
    ke2_builder_common d credential_request ke1_message credential_response client_s_pk identifiers
          context =
        do
          server_ephemeral ← derive_random o g
          server_nonce ← total (generate_nonce o)
          pure (record {
            server_nonce = server_nonce;
            transcript_hasher =
                transcript h context identifiers credential_request (to_iter g ke1_message)
                  credential_response server_nonce (g.serialize_pk server_ephemeral.pk);
            client_e_pk = ke1_message.client_e_pk;
            server_e_pk = server_ephemeral.pk;
            shared_secret_1 = d.diffie_hellman server_ephemeral.sk ke1_message.client_e_pk;
            shared_secret_3 = d.diffie_hellman server_ephemeral.sk client_s_pk;
          })
