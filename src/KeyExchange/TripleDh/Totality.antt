-- ===== src/KeyExchange/TripleDh/Totality.antt =====
-- key_exchange/tripledh.rs: what the steps of the exchange give on every input.
use opaque_vx.Prelude.{
  ℕ, ◌<◌, [], ◌∷◌, Bytes, bytes_eq, bytes_eq_sound, bytes_eq_refl, length, ◌≡◌, ◌⊎◌, inl, inr, refl,
  Bool-cases, ◌≢◌, sym,
}
use opaque_vx.Prelude.Results.{ok, err, passes, bind}
use opaque_vx.Errors.{invalid_login_error}
use opaque_vx.Hash.{Hash, HashLaws}
use opaque_vx.Oprf.{OprfCs}
use opaque_vx.Group.{Group, DiffieHellman}
use opaque_vx.Keypair.{PublicKey, PrivateKey}
use opaque_vx.KeyExchange.Serialized.{
  Identifiers, SerializedIdentifiers, SerializedContext, SerializedCredentialRequest,
  SerializedCredentialResponse,
}
use opaque_vx.KeyExchange.Trait.{GenerateKe2Result, GenerateKe3Result, Refuses, KeyExchangeTotal}
use opaque_vx.KeyExchange.Shared.{Ke1State, Ke1Message, to_iter, transcript}
use opaque_vx.KeyExchange.Shared.Start.{Ke2BuilderCommon, ke2_builder_common, generate_nonce}
use opaque_vx.KeyExchange.Shared.Totality.{
  derive_keys_total, compute_ke2_macs_total, finalize_ke3_transcript_lem,
}
use opaque_vx.KeyExchange.Shared.Fresh.{derive_random_total, generate_ke1_total}
use opaque_vx.KeyExchange.TripleDh.{
  Ke2State, Ke2Message, Ke3Message, ke2_builder, build_ke2, finish_ke3, generate_ke3, finish_ke,
  triple_dh,
}

module _ (o : OprfCs) (g : Group o) (d : DiffieHellman g) (h : Hash) where
  module _ (laws : HashLaws h) (small : h.output_size < 256) where
    -- The server's message is built from every builder and every shared secret, for hashes of less
    -- than 256 bytes: with the builder's nonce and ephemeral key, and with a session key and two MACs
    -- that are each as long as the hash.
    pub build_ke2_total :
        (builder : Ke2BuilderCommon o g h) (shared_secret_2 : Bytes)
        → (ke2 : GenerateKe2Result Ke2State (Ke2Message g)) × (build_ke2 o g d h builder
              shared_secret_2
            ≡ ok ke2)
          × (ke2.message.server_nonce ≡ builder.server_nonce)
          × (ke2.message.server_e_pk ≡ builder.server_e_pk)
          × (length ke2.message.mac ≡ h.output_size)
          × (length ke2.state.session_key ≡ h.output_size)
          × (length ke2.state.expected_mac ≡ h.output_size)
    unfolding build_ke2
    build_ke2_total builder shared_secret_2 =
        let digest = h.finalize builder.transcript_hasher in
        let (keys, derived, session, _, _) =
          derive_keys_total o h laws small
            (builder.shared_secret_1 ∷ shared_secret_2 ∷ builder.shared_secret_3 ∷ []) digest
            (laws.length-finalize builder.transcript_hasher) in
        let (mac, expected, computed, l1, l2) =
          compute_ke2_macs_total o h laws small builder.transcript_hasher keys digest in
        (
          record {
            state = record { session_key = keys.session_key; expected_mac = expected };
            message = record {
              server_nonce = builder.server_nonce;
              server_e_pk = builder.server_e_pk;
              mac = mac;
            };
          },
          simp (derived, computed, passes),
          refl,
          refl,
          l1,
          session,
          l2,
        )

    -- The client's half ends in a session key or in `InvalidLoginError`, and in no other error, for
    -- hashes of less than 256 bytes.
    pub finish_ke3_outcome :
        (request : SerializedCredentialRequest) (ke1_message : Ke1Message g)
        (response : SerializedCredentialResponse) (ke1_state : Ke1State g)
        (ke2_message : Ke2Message g) (server_s_pk : PublicKey g) (client_s_sk : PrivateKey g)
        (identifiers : SerializedIdentifiers) (context : SerializedContext)
        → ((ke3 : GenerateKe3Result Ke3Message) × (finish_ke3 o g d h request ke1_message response
                ke1_state ke2_message server_s_pk client_s_sk identifiers context
              ≡ ok ke3))
          ⊎ (finish_ke3 o g d h request ke1_message response ke1_state ke2_message server_s_pk
                client_s_sk identifiers context
              ≡ err invalid_login_error)
    unfolding finish_ke3 bind
    finish_ke3_outcome request ke1_message response ke1_state ke2_message server_s_pk client_s_sk
          identifiers context =
        let (mac, keys, answer, _, outcome) =
          finalize_ke3_transcript_lem o h laws small
            (transcript h context identifiers request (to_iter g ke1_message) response
              ke2_message.server_nonce (g.serialize_pk ke2_message.server_e_pk))
            (d.diffie_hellman ke1_state.client_e_sk ke2_message.server_e_pk
              ∷ d.diffie_hellman ke1_state.client_e_sk server_s_pk
              ∷ d.diffie_hellman client_s_sk ke2_message.server_e_pk
              ∷ []) in
        elim (Bool-cases (bytes_eq mac ke2_message.mac)) [
          | inl right ↦ inl (
            record {
              session_key = keys.session_key;
              message = record { mac = answer ke2_message.mac };
            },
            simp (outcome ke2_message.mac, right),
          )
          | inr wrong ↦ inr (simp (outcome ke2_message.mac, wrong))
        ]

    pub triple_dh-Refuses : Refuses (triple_dh o g d h)
    unfolding generate_ke3 bind
    triple_dh-Refuses request ke1_message response ke1_state ke2_message server_s_pk client_s_sk
          identifiers context r =
        elim (finish_ke3_outcome request ke1_message response ke1_state ke2_message server_s_pk
          client_s_sk identifiers context) [
            | inl (ke3, finishes) ↦ inl (ke3, r, simp finishes)
            | inr refused ↦ inr (simp refused)
          ]

  -- The server gives its session key for the MAC that it expects and for no other, which is an
  -- invalid login.
  pub finish_ke_outcome :
      (state : Ke2State) (message : Ke3Message) (ids : Identifiers) (context : SerializedContext)
      → ((message.mac ≡ state.expected_mac)
          × (finish_ke o g d h state message ids context ≡ ok state.session_key))
        ⊎ ((message.mac ≢ state.expected_mac)
            × (finish_ke o g d h state message ids context ≡ err invalid_login_error))
  unfolding finish_ke
  finish_ke_outcome state message ids context =
      elim (Bool-cases (bytes_eq state.expected_mac message.mac)) [
        | inl right ↦ inl (sym (bytes_eq_sound _ _ right), rw right)
        | inr wrong ↦ inr (λ same. let equal = bytes_eq_refl state.expected_mac in cc, rw wrong)
      ]

  module _ (laws : HashLaws h) (small : h.output_size < 256)
      (filled : (n : ℕ) (r : o.Rng) → length (o.fill_bytes n r).0 ≡ n)
      (derives : (seed : Bytes)
        → length seed ≡ g.sk_len
        → (sk : g.Sk) × (g.derive_scalar seed ≡ ok sk)) where
    ke2_builder_total :
        (request : SerializedCredentialRequest) (ke1_message : Ke1Message g)
        (response : SerializedCredentialResponse) (client_s_pk : PublicKey g)
        (identifiers : SerializedIdentifiers) (context : SerializedContext) (r : o.Rng)
        → (builder : Ke2BuilderCommon o g h) × (r' : o.Rng) × (ke2_builder o g d h request
              ke1_message response client_s_pk identifiers context r
            ≡ ok (builder, r'))
    unfolding ke2_builder ke2_builder_common
    ke2_builder_total request ke1_message response client_s_pk identifiers context r =
        let (pair, r', drawn) = derive_random_total o g filled derives r in
        let nonce = generate_nonce o r' in
        (
          record {
            server_nonce = nonce.0;
            transcript_hasher =
                transcript h context identifiers request (to_iter g ke1_message) response nonce.0
                  (g.serialize_pk pair.pk);
            client_e_pk = ke1_message.client_e_pk;
            server_e_pk = pair.pk;
            shared_secret_1 = d.diffie_hellman pair.sk ke1_message.client_e_pk;
            shared_secret_3 = d.diffie_hellman pair.sk client_s_pk;
          },
          nonce.1,
          simp (drawn, passes),
        )

    pub triple_dh-KeyExchangeTotal : KeyExchangeTotal (triple_dh o g d h)
    triple_dh-KeyExchangeTotal = record {
      generate_ke1_total = generate_ke1_total o g filled derives;
      ke2_builder_total = ke2_builder_total;
      build_ke2_total = λ builder input.
          let (ke2, built, _, _, _, _, _) = build_ke2_total laws small builder input in
          (ke2, built);
    }
