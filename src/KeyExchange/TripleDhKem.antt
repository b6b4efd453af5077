-- ===== src/KeyExchange/TripleDhKem.antt =====
-- key_exchange/tripledh_kem.rs: Triple Diffie-Hellman with the secret of a key encapsulation mechanism
-- added, as a `KeyExchange`.
pub mod Mechanism
pub mod Adapter
pub mod Provided
pub mod Codec
pub mod Encodings
pub mod Agreement
use opaque_vx.Prelude.{[], ◌∷◌, Bytes, bytes_eq, if◌then◌else◌}
use opaque_vx.Prelude.Results.{Result, ok, err, bind}
use opaque_vx.Prelude.Act.{Act, pure, lift, ◌>>=◌}
use opaque_vx.Errors.{invalid_login_error}
use opaque_vx.Hash.{Hash}
use opaque_vx.Oprf.{OprfCs, Failure}
use opaque_vx.Group.{Group, DiffieHellman}
use opaque_vx.Keypair.{PublicKey, PrivateKey}
use opaque_vx.KeyExchange.Serialized.{
  Identifiers, SerializedIdentifiers, SerializedContext, SerializedCredentialRequest,
  SerializedCredentialResponse,
}
use opaque_vx.KeyExchange.Trait.{
  KeyExchange, GenerateKe1Result, GenerateKe2Result, GenerateKe3Result,
}
use opaque_vx.KeyExchange.Shared.{
  Ke1State, Ke1Message, to_iter, transcript, derive_keys, compute_ke2_macs, finalize_ke3_transcript,
}
use opaque_vx.KeyExchange.Shared.Start.{ke2_builder_common}
use opaque_vx.KeyExchange.Shared.Start
use opaque_vx.KeyExchange.TripleDh.{Ke2State, Ke2Message, Ke3Message}
use Mechanism.{Kem}

module _ {o : OprfCs} where
  pub record KemKe1State (g : Group o) (k : Kem o) : Type 0 where
    pub dh_state : Ke1State g
    pub kem_decapsulation_key : k.DecapsulationKey

  pub record KemKe1Message (g : Group o) : Type 0 where
    pub dh_message : Ke1Message g
    pub kem_encapsulation_key : Bytes

  pub record KemKe2Message (g : Group o) : Type 0 where
    pub dh_message : Ke2Message g
    pub kem_ciphertext : Bytes

pub record KemKe2State : Type 0 where
  pub base_state : Ke2State
  pub kem_encapsulation_key : Bytes
  pub server_kem_ciphertext : Bytes

module _ (o : OprfCs) (g : Group o) (d : DiffieHellman g) (h : Hash) (k : Kem o) where
  pub record KemKe2Builder : Type 0 where
    pub server_nonce : Bytes
    pub transcript_hasher : h.Hasher
    pub client_e_pk : PublicKey g
    pub server_e_pk : PublicKey g
    pub shared_secret_1 : Bytes
    pub shared_secret_3 : Bytes
    pub kem_encapsulation_key : Bytes
    pub kem_ciphertext : Bytes
    pub kem_shared_secret : Bytes

  -- The Diffie-Hellman part first, then the key pair of the mechanism.
  unfoldable pub generate_kem_ke1 :
      Act (Failure o) o.Rng (GenerateKe1Result (KemKe1State g k) (KemKe1Message g))
  generate_kem_ke1 = do
    base ← Start.generate_ke1 o g
    kem_keys ← k.generate
    pure (record {
      state = record { dh_state = base.state; kem_decapsulation_key = kem_keys.0 };
      message = record {
        dh_message = base.message;
        kem_encapsulation_key = k.serialize_encapsulation_key kem_keys.1;
      };
    })

  unfoldable pub kem_ke2_builder :
      SerializedCredentialRequest
      → KemKe1Message g
      → SerializedCredentialResponse
      → PublicKey g
      → SerializedIdentifiers
      → SerializedContext
      → Act (Failure o) o.Rng KemKe2Builder
  kem_ke2_builder credential_request ke1_message credential_response client_s_pk identifiers
        context =
      do
        common ←
            ke2_builder_common o g h d credential_request ke1_message.dh_message credential_response
              client_s_pk identifiers context
        encapsulation_key ← lift (k.deserialize_encapsulation_key ke1_message.kem_encapsulation_key)
        kem ← k.encapsulate encapsulation_key.0
        pure (record {
          server_nonce = common.server_nonce;
          transcript_hasher =
              h.update (h.update common.transcript_hasher ke1_message.kem_encapsulation_key) kem.0;
          client_e_pk = common.client_e_pk;
          server_e_pk = common.server_e_pk;
          shared_secret_1 = common.shared_secret_1;
          shared_secret_3 = common.shared_secret_3;
          kem_encapsulation_key = ke1_message.kem_encapsulation_key;
          kem_ciphertext = kem.0;
          kem_shared_secret = kem.1;
        })

  unfoldable pub kem_ke2_builder_data : KemKe2Builder → PublicKey g × Bytes
  kem_ke2_builder_data builder = (builder.client_e_pk, builder.kem_encapsulation_key)

  unfoldable pub generate_kem_ke2_input : KemKe2Builder → PrivateKey g → o.Rng → Bytes × o.Rng
  generate_kem_ke2_input builder server_s_sk rng =
      (d.diffie_hellman server_s_sk builder.client_e_pk, rng)

  unfoldable pub build_kem_ke2 :
      KemKe2Builder → Bytes → Result (Failure o) (GenerateKe2Result KemKe2State (KemKe2Message g))
  build_kem_ke2 builder shared_secret_2 =
      let transcript_digest = h.finalize builder.transcript_hasher in
      bind
        (derive_keys o h
          (builder.shared_secret_1 ∷ shared_secret_2 ∷ builder.shared_secret_3
            ∷ builder.kem_shared_secret ∷ [])
          transcript_digest)
        λ derived_keys.
          bind (compute_ke2_macs o h builder.transcript_hasher derived_keys transcript_digest)
            λ macs. ok (record {
              state = record {
                base_state = record {
                  session_key = derived_keys.session_key;
                  expected_mac = macs.2;
                };
                kem_encapsulation_key = builder.kem_encapsulation_key;
                server_kem_ciphertext = builder.kem_ciphertext;
              };
              message = record {
                dh_message = record {
                  server_nonce = builder.server_nonce;
                  server_e_pk = builder.server_e_pk;
                  mac = macs.1;
                };
                kem_ciphertext = builder.kem_ciphertext;
              };
            })

  unfoldable pub generate_kem_ke3 :
      SerializedCredentialRequest
      → KemKe1Message g
      → SerializedCredentialResponse
      → KemKe1State g k
      → KemKe2Message g
      → PublicKey g
      → PrivateKey g
      → SerializedIdentifiers
      → SerializedContext
      → Act (Failure o) o.Rng (GenerateKe3Result Ke3Message)
  generate_kem_ke3 credential_request ke1_message credential_response ke1_state ke2_message
        server_s_pk client_s_sk identifiers context =
      do
        let base_hasher =
            transcript h context identifiers credential_request (to_iter g ke1_message.dh_message)
              credential_response ke2_message.dh_message.server_nonce
              (g.serialize_pk ke2_message.dh_message.server_e_pk)
        let transcript_hasher =
            h.update (h.update base_hasher ke1_message.kem_encapsulation_key)
              ke2_message.kem_ciphertext
        let shared_secret_1 =
            d.diffie_hellman ke1_state.dh_state.client_e_sk ke2_message.dh_message.server_e_pk
        let shared_secret_2 = d.diffie_hellman ke1_state.dh_state.client_e_sk server_s_pk
        let shared_secret_3 = d.diffie_hellman client_s_sk ke2_message.dh_message.server_e_pk
        kem_shared_secret ←
            lift (k.decapsulate ke1_state.kem_decapsulation_key ke2_message.kem_ciphertext)
        result ← lift (
            finalize_ke3_transcript o h transcript_hasher
              (shared_secret_1 ∷ shared_secret_2 ∷ shared_secret_3 ∷ kem_shared_secret ∷ [])
              ke2_message.dh_message.mac)
        pure (record { session_key = result.0.session_key; message = record { mac = result.1 } })

  unfoldable pub finish_kem_ke :
      KemKe2State → Ke3Message → Identifiers → SerializedContext → Result (Failure o) Bytes
  finish_kem_ke ke2_state ke3_message identifiers context =
      if bytes_eq ke2_state.base_state.expected_mac ke3_message.mac
      then ok ke2_state.base_state.session_key
      else err invalid_login_error

  -- `impl KeyExchange for TripleDhKem<G, H, K>`
  abbrev pub triple_dh_kem : KeyExchange o
  triple_dh_kem = record {
    group = g;
    hash = h;
    Ke1State = KemKe1State g k;
    Ke2State = KemKe2State;
    Ke1Message = KemKe1Message g;
    Ke2Builder = KemKe2Builder;
    Ke2BuilderData = PublicKey g × Bytes;
    Ke2BuilderInput = Bytes;
    Ke2Message = KemKe2Message g;
    Ke3Message = Ke3Message;
    generate_ke1 = generate_kem_ke1;
    ke2_builder = kem_ke2_builder;
    ke2_builder_data = kem_ke2_builder_data;
    generate_ke2_input = generate_kem_ke2_input;
    build_ke2 = build_kem_ke2;
    generate_ke3 = generate_kem_ke3;
    finish_ke = finish_kem_ke;
  }
