-- ===== src/KeyExchange/TripleDh.antt =====
-- key_exchange/tripledh.rs: the Triple Diffie-Hellman key exchange, as a `KeyExchange`.
pub mod Agreement
pub mod Codec
pub mod Encodings
pub mod Totality
pub mod Produced
use opaque_vx.Prelude.{[], ◌∷◌, Bytes, bytes_eq, if◌then◌else◌}
use opaque_vx.Prelude.Results.{Result, ok, err, ◌>>=◌}
use opaque_vx.Prelude.Act.{Act}
use opaque_vx.Prelude.Act
use opaque_vx.Errors.{invalid_login_error}
use opaque_vx.Hash.{Hash}
use opaque_vx.Oprf.{OprfCs, Failure}
use opaque_vx.Group.{Group, DiffieHellman}
use opaque_vx.Keypair.{PublicKey, PrivateKey}
use opaque_vx.KeyExchange.Serialized.{
  Identifiers, SerializedIdentifiers, SerializedContext, SerializedCredentialRequest,
  SerializedCredentialResponse,
}
use opaque_vx.KeyExchange.Trait.{KeyExchange, GenerateKe2Result, GenerateKe3Result}
use opaque_vx.KeyExchange.Shared.{
  Ke1State, Ke1Message, to_iter, transcript, derive_keys, compute_ke2_macs, finalize_ke3_transcript,
}
use opaque_vx.KeyExchange.Shared.Start.{Ke2BuilderCommon, generate_ke1, ke2_builder_common}

pub record Ke2State : Type 0 where
  pub session_key : Bytes
  pub expected_mac : Bytes

pub record Ke2Message {o : OprfCs} (g : Group o) : Type 0 where
  pub server_nonce : Bytes
  pub server_e_pk : PublicKey g
  pub mac : Bytes

pub record Ke3Message : Type 0 where
  pub mac : Bytes

module _ (o : OprfCs) (g : Group o) (d : DiffieHellman g) (h : Hash) where
  -- `Ke2Builder` has the fields of the shared part, and no other.
  abbrev pub Ke2Builder : Type 0
  Ke2Builder = Ke2BuilderCommon o g h

  unfoldable pub ke2_builder :
      SerializedCredentialRequest
      → Ke1Message g
      → SerializedCredentialResponse
      → PublicKey g
      → SerializedIdentifiers
      → SerializedContext
      → Act (Failure o) o.Rng Ke2Builder
  ke2_builder credential_request ke1_message credential_response client_s_pk identifiers context =
      ke2_builder_common o g h d credential_request ke1_message credential_response client_s_pk
        identifiers context

  -- The public key that a remote private key is to be combined with.
  unfoldable pub ke2_builder_data : Ke2Builder → PublicKey g
  ke2_builder_data builder = builder.client_e_pk

  unfoldable pub generate_ke2_input : Ke2Builder → PrivateKey g → o.Rng → Bytes × o.Rng
  generate_ke2_input builder server_s_sk rng =
      (d.diffie_hellman server_s_sk builder.client_e_pk, rng)

  unfoldable pub build_ke2 :
      Ke2Builder → Bytes → Result (Failure o) (GenerateKe2Result Ke2State (Ke2Message g))
  build_ke2 builder shared_secret_2 = do
    let transcript_digest = h.finalize builder.transcript_hasher
    derived_keys ←
        derive_keys o h (builder.shared_secret_1 ∷ shared_secret_2 ∷ builder.shared_secret_3 ∷ [])
          transcript_digest
    macs ← compute_ke2_macs o h builder.transcript_hasher derived_keys transcript_digest
    ok (record {
      state = record { session_key = derived_keys.session_key; expected_mac = macs.2 };
      message = record {
        server_nonce = builder.server_nonce;
        server_e_pk = builder.server_e_pk;
        mac = macs.1;
      };
    })

  -- The client's half; it draws no randomness.
  unfoldable pub finish_ke3 :
      SerializedCredentialRequest
      → Ke1Message g
      → SerializedCredentialResponse
      → Ke1State g
      → Ke2Message g
      → PublicKey g
      → PrivateKey g
      → SerializedIdentifiers
      → SerializedContext
      → Result (Failure o) (GenerateKe3Result Ke3Message)
  finish_ke3 credential_request ke1_message credential_response ke1_state ke2_message server_s_pk
        client_s_sk identifiers context =
      do
        let transcript_hasher =
            transcript h context identifiers credential_request (to_iter g ke1_message)
              credential_response ke2_message.server_nonce (g.serialize_pk ke2_message.server_e_pk)
        let shared_secret_1 = d.diffie_hellman ke1_state.client_e_sk ke2_message.server_e_pk
        let shared_secret_2 = d.diffie_hellman ke1_state.client_e_sk server_s_pk
        let shared_secret_3 = d.diffie_hellman client_s_sk ke2_message.server_e_pk
        result ←
            finalize_ke3_transcript o h transcript_hasher
              (shared_secret_1 ∷ shared_secret_2 ∷ shared_secret_3 ∷ []) ke2_message.mac
        ok (record { session_key = result.0.session_key; message = record { mac = result.1 } })

  unfoldable pub generate_ke3 :
      SerializedCredentialRequest
      → Ke1Message g
      → SerializedCredentialResponse
      → Ke1State g
      → Ke2Message g
      → PublicKey g
      → PrivateKey g
      → SerializedIdentifiers
      → SerializedContext
      → Act (Failure o) o.Rng (GenerateKe3Result Ke3Message)
  generate_ke3 credential_request ke1_message credential_response ke1_state ke2_message server_s_pk
        client_s_sk identifiers context =
      Act.lift (
        finish_ke3 credential_request ke1_message credential_response ke1_state ke2_message
          server_s_pk client_s_sk identifiers context)

  unfoldable pub finish_ke :
      Ke2State → Ke3Message → Identifiers → SerializedContext → Result (Failure o) Bytes
  finish_ke ke2_state ke3_message identifiers context =
      if bytes_eq ke2_state.expected_mac ke3_message.mac
      then ok ke2_state.session_key
      else err invalid_login_error

  -- `impl KeyExchange for TripleDh<G, H>`
  abbrev pub triple_dh : KeyExchange o
  triple_dh = record {
    group = g;
    hash = h;
    Ke1State = Ke1State g;
    Ke2State = Ke2State;
    Ke1Message = Ke1Message g;
    Ke2Builder = Ke2Builder;
    Ke2BuilderData = PublicKey g;
    Ke2BuilderInput = Bytes;
    Ke2Message = Ke2Message g;
    Ke3Message = Ke3Message;
    generate_ke1 = generate_ke1 o g;
    ke2_builder = ke2_builder;
    ke2_builder_data = ke2_builder_data;
    generate_ke2_input = generate_ke2_input;
    build_ke2 = build_ke2;
    generate_ke3 = generate_ke3;
    finish_ke = finish_ke;
  }
