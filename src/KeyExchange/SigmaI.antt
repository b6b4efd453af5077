-- ===== src/KeyExchange/SigmaI.antt =====
-- key_exchange/sigma_i/mod.rs: SIGMA-I, as a `KeyExchange`.
pub mod Messages
pub mod Signed
pub mod Protocol
pub mod Agreement
pub mod Totality
pub mod Codec
pub mod Encodings
pub mod PreHash
pub mod PureEddsa
pub mod HashEddsa
pub mod Ecdsa
use opaque_vx.Prelude.{[], ◌∷◌, Bytes, bytes_eq}
use opaque_vx.Prelude.Results.{Result, ok, bind, guard, ok_or}
use opaque_vx.Prelude.Act.{Act, pure, lift, total, ◌>>=◌}
use opaque_vx.Errors.{invalid_login_error, library_error, hmac_error}
use opaque_vx.Hash.{Hash, mac_update_iter}
use opaque_vx.Oprf.{OprfCs, Failure}
use opaque_vx.Group.{Group, DiffieHellman}
use opaque_vx.Keypair.{PublicKey, PrivateKey, derive_random}
use opaque_vx.KeyExchange.Serialized.{
  Identifiers, SerializedIdentifier, SerializedIdentifiers, SerializedContext,
  SerializedCredentialRequest, SerializedCredentialResponse, identifier_slices, from_identifier,
}
use opaque_vx.KeyExchange.Trait.{
  KeyExchange, GenerateKe1Result, GenerateKe2Result, GenerateKe3Result,
}
use opaque_vx.KeyExchange.Shared.{
  Ke1State, Ke1Message, Ke1MessageIter, to_iter, transcript, derive_keys,
}
use opaque_vx.KeyExchange.Shared.Start.{generate_nonce}
use opaque_vx.KeyExchange.Shared.Start
use Messages.{Message, CachedMessage, server_role, client_role}
use Protocol.{SignatureProtocol}

module _ {o : OprfCs} where
  pub record Ke2Builder (g ke : Group o) : Type 0 where
    pub transcript : Message
    pub server_nonce : Bytes
    pub client_s_pk : PublicKey g
    pub server_e_pk : PublicKey ke
    pub expected_mac : Bytes
    pub session_key : Bytes

  pub record Ke2State {g : Group o} (sig : SignatureProtocol g) : Type 0 where
    pub client_s_pk : PublicKey g
    pub session_key : Bytes
    pub verify_state : sig.VerifyState
    pub expected_mac : Bytes

  pub record Ke2Message {g : Group o} (sig : SignatureProtocol g) (ke : Group o) : Type 0 where
    pub server_nonce : Bytes
    pub server_e_pk : PublicKey ke
    pub signature : sig.Signature
    pub mac : Bytes

  pub record Ke3Message {g : Group o} (sig : SignatureProtocol g) : Type 0 where
    pub signature : sig.Signature
    pub mac : Bytes

-- The MAC of an identifier: `new_from_slice`, `update_iter`, `finalize`.
unfoldable pub identifier_mac :
    (o : OprfCs) (h : Hash) → Bytes → SerializedIdentifier → Result (Failure o) Bytes
identifier_mac o h key identifier =
    bind (ok_or (library_error hmac_error) (h.new_from_slice key))
      λ mac. ok (h.mac_finalize (mac_update_iter h mac (identifier_slices identifier)))

module _ (o : OprfCs) (g : Group o) (sig : SignatureProtocol g) (ke : Group o)
    (d : DiffieHellman ke) (h : Hash) where
  unfoldable pub sigma_ke2_builder :
      SerializedCredentialRequest
      → Ke1Message ke
      → SerializedCredentialResponse
      → PublicKey g
      → SerializedIdentifiers
      → SerializedContext
      → Act (Failure o) o.Rng (Ke2Builder g ke)
  sigma_ke2_builder credential_request ke1_message credential_response client_s_pk identifiers
        context =
      do
        server_e ← derive_random o ke
        server_nonce ← total (generate_nonce o)
        let ke1_message_iter = to_iter ke ke1_message
        let server_e_pk = ke.serialize_pk server_e.pk
        let transcript_hasher =
            transcript h context identifiers credential_request ke1_message_iter credential_response
              server_nonce server_e_pk
        let shared_secret = d.diffie_hellman server_e.sk ke1_message.client_e_pk
        derived_keys ← lift (derive_keys o h (shared_secret ∷ []) (h.finalize transcript_hasher))
        server_mac ← lift (identifier_mac o h derived_keys.km2 identifiers.server)
        client_mac ← lift (identifier_mac o h derived_keys.km3 identifiers.client)
        pure (record {
          transcript = record {
            role = server_role;
            context = context;
            identifiers = identifiers;
            cache = record {
              credential_request = credential_request;
              ke1_message = ke1_message_iter;
              credential_response = credential_response;
              server_nonce = server_nonce;
              server_e_pk = server_e_pk;
              server_mac = server_mac;
            };
          };
          server_nonce = server_nonce;
          client_s_pk = client_s_pk;
          server_e_pk = server_e.pk;
          expected_mac = client_mac;
          session_key = derived_keys.session_key;
        })

  unfoldable pub sigma_ke2_builder_data : Ke2Builder g ke → Message
  sigma_ke2_builder_data builder = builder.transcript

  unfoldable pub sigma_generate_ke2_input :
      Ke2Builder g ke → PrivateKey g → o.Rng → (sig.Signature × sig.VerifyState) × o.Rng
  sigma_generate_ke2_input builder server_s_sk rng = sig.sign server_s_sk builder.transcript rng

  unfoldable pub sigma_build_ke2 :
      Ke2Builder g ke
      → sig.Signature × sig.VerifyState
      → Result (Failure o) (GenerateKe2Result (Ke2State sig) (Ke2Message sig ke))
  sigma_build_ke2 builder input = ok (record {
    state = record {
      client_s_pk = builder.client_s_pk;
      session_key = builder.session_key;
      verify_state = input.1;
      expected_mac = builder.expected_mac;
    };
    message = record {
      server_nonce = builder.server_nonce;
      server_e_pk = builder.server_e_pk;
      signature = input.0;
      mac = builder.transcript.cache.server_mac;
    };
  })

  unfoldable pub sigma_generate_ke3 :
      SerializedCredentialRequest
      → Ke1Message ke
      → SerializedCredentialResponse
      → Ke1State ke
      → Ke2Message sig ke
      → PublicKey g
      → PrivateKey g
      → SerializedIdentifiers
      → SerializedContext
      → Act (Failure o) o.Rng (GenerateKe3Result (Ke3Message sig))
  sigma_generate_ke3 credential_request ke1_message credential_response ke1_state ke2_message
        server_s_pk client_s_sk identifiers context =
      do
        let ke1_message_iter = to_iter ke ke1_message
        let server_e_pk = ke.serialize_pk ke2_message.server_e_pk
        let transcript_hasher =
            transcript h context identifiers credential_request ke1_message_iter credential_response
              ke2_message.server_nonce server_e_pk
        let shared_secret = d.diffie_hellman ke1_state.client_e_sk ke2_message.server_e_pk
        derived_keys ← lift (derive_keys o h (shared_secret ∷ []) (h.finalize transcript_hasher))
        server_mac ← lift (identifier_mac o h derived_keys.km2 identifiers.server)
        checked ← lift (guard (bytes_eq server_mac ke2_message.mac) invalid_login_error)
        client_mac ← lift (identifier_mac o h derived_keys.km3 identifiers.client)
        let message : Message = record {
          role = client_role;
          context = context;
          identifiers = identifiers;
          cache = record {
            credential_request = credential_request;
            ke1_message = ke1_message_iter;
            credential_response = credential_response;
            server_nonce = ke2_message.server_nonce;
            server_e_pk = server_e_pk;
            server_mac = server_mac;
          };
        }
        signed ← total (sig.sign client_s_sk message)
        verified ← lift (
            sig.verify server_s_pk
              (record { role = client_role; context = context; identifier = identifiers.server })
              signed.1 ke2_message.signature)
        pure (record {
          session_key = derived_keys.session_key;
          message = record { signature = signed.0; mac = client_mac };
        })

  unfoldable pub sigma_finish_ke :
      Ke2State sig → Ke3Message sig → Identifiers → SerializedContext → Result (Failure o) Bytes
  sigma_finish_ke ke2_state ke3_message identifiers context =
      bind (from_identifier o identifiers.client (g.serialize_pk ke2_state.client_s_pk))
        λ identifier.
          bind
            (sig.verify ke2_state.client_s_pk
              (record { role = server_role; context = context; identifier = identifier })
              ke2_state.verify_state ke3_message.signature)
            λ verified.
              bind (guard (bytes_eq ke2_state.expected_mac ke3_message.mac) invalid_login_error)
                λ checked. ok ke2_state.session_key

  -- `impl KeyExchange for SigmaI<SIG, KE, KEH>`
  abbrev pub sigma_i : KeyExchange o
  sigma_i = record {
    group = g;
    hash = h;
    Ke1State = Ke1State ke;
    Ke2State = Ke2State sig;
    Ke1Message = Ke1Message ke;
    Ke2Builder = Ke2Builder g ke;
    Ke2BuilderData = Message;
    Ke2BuilderInput = sig.Signature × sig.VerifyState;
    Ke2Message = Ke2Message sig ke;
    Ke3Message = Ke3Message sig;
    generate_ke1 = Start.generate_ke1 o ke;
    ke2_builder = sigma_ke2_builder;
    ke2_builder_data = sigma_ke2_builder_data;
    generate_ke2_input = sigma_generate_ke2_input;
    build_ke2 = sigma_build_ke2;
    generate_ke3 = sigma_generate_ke3;
    finish_ke = sigma_finish_ke;
  }
