-- ===== src/KeyExchange/TripleDh/Agreement.antt =====
-- Both sides of a Triple Diffie-Hellman exchange accept each other and agree on the session key.
use opaque_vx.Prelude.{◌≡◌, bytes_eq_refl}
use opaque_vx.Prelude.Results.{ok, bind_ok, ok_first, passes}
use opaque_vx.Prelude.Act.{lift_ok}
use opaque_vx.Hash.{Hash, HashLaws}
use opaque_vx.Oprf.{OprfCs}
use opaque_vx.Group.{Group, DiffieHellman, DiffieHellmanLaws}
use opaque_vx.Keypair.{KeyPair, PrivateKey, PublicKey, derive_random}
use opaque_vx.KeyExchange.Serialized.{
  Identifiers, SerializedIdentifiers, SerializedContext, SerializedCredentialRequest,
  SerializedCredentialResponse,
}
use opaque_vx.KeyExchange.Shared.{Ke1State, Ke1Message, to_iter, transcript}
use opaque_vx.KeyExchange.Shared.Start.{Ke2BuilderCommon, generate_ke1, ke2_builder_common}
use opaque_vx.KeyExchange.Shared.Agreement.{finalize-compute}
use opaque_vx.KeyExchange.Trait.{
  GenerateKe1Result, GenerateKe2Result, GenerateKe3Result, KeyExchangeLaws,
}
use opaque_vx.KeyExchange.TripleDh.{
  triple_dh, ke2_builder, build_ke2, Ke2State, Ke2Message, Ke3Message, finish_ke3, generate_ke3,
  finish_ke, generate_ke2_input,
}

module _ (o : OprfCs) (g : Group o) where
  -- The two keys of a derived pair belong together.
  pub derive_random-pair :
      (r r' : o.Rng) (pair : KeyPair g (PrivateKey g))
      → derive_random o g r ≡ ok (pair, r')
      → pair.pk ≡ g.public_key pair.sk
  unfolding derive_random
  derive_random-pair r r' pair h = lift_ok _ _ _ (ok_first _ _ h) λ sk e h'. cc

  -- The client's message shows the public key of the secret key that it keeps.
  pub generate_ke1-pair :
      (r r' : o.Rng) (ke1 : GenerateKe1Result (Ke1State g) (Ke1Message g))
      → generate_ke1 o g r ≡ ok (ke1, r')
      → ke1.message.client_e_pk ≡ g.public_key ke1.state.client_e_sk
  unfolding generate_ke1
  generate_ke1-pair r r' ke1 h =
      bind_ok _ _ h
        λ p e h'. let paired = derive_random-pair r p.1 p.0 e in let h'' = ok_first _ _ h' in cc

  -- What the server's builder holds: one ephemeral key goes into all its parts.
  pub ke2_builder_common-parts :
      (h : Hash) (d : DiffieHellman g) (request : SerializedCredentialRequest)
      (ke1_message : Ke1Message g) (response : SerializedCredentialResponse)
      (client_s_pk : PublicKey g) (identifiers : SerializedIdentifiers)
      (context : SerializedContext) (r r' : o.Rng) (builder : Ke2BuilderCommon o g h)
      → ke2_builder_common o g h d request ke1_message response client_s_pk identifiers context r
        ≡ ok (builder, r')
      → (sk : PrivateKey g) × (builder.server_e_pk ≡ g.public_key sk)
        × (builder.client_e_pk ≡ ke1_message.client_e_pk)
        × (builder.transcript_hasher
            ≡ transcript h context identifiers request
                (to_iter g ke1_message)
                response
                builder.server_nonce
                (g.serialize_pk builder.server_e_pk))
        × (builder.shared_secret_1 ≡ d.diffie_hellman sk ke1_message.client_e_pk)
        × (builder.shared_secret_3 ≡ d.diffie_hellman sk client_s_pk)
  unfolding ke2_builder_common
  ke2_builder_common-parts h d request ke1_message response client_s_pk identifiers context r r'
        builder built =
      bind_ok _ _ built λ p e h'.
        let h'' = ok_first _ _ h' in
        (p.0.sk, let paired = derive_random-pair r p.1 p.0 e in cc, cc, cc, cc, cc)

module _ (o : OprfCs) (g : Group o) (d : DiffieHellman g) (h : Hash) where
  -- Where the server built its message for the client's first one, under the same request, response,
  -- identifiers, context and static keys as the client: the client's `generate_ke3` accepts the
  -- server's message, and the server's `finish_ke` accepts the client's answer, with the client's
  -- session key.
  pub finish_ke-generate_ke3 :
      HashLaws h
      → DiffieHellmanLaws g d
      → (request : SerializedCredentialRequest) (response : SerializedCredentialResponse)
        (client_s_sk server_s_sk : PrivateKey g) (ids : Identifiers)
        (identifiers : SerializedIdentifiers) (context : SerializedContext)
        (r1 r1' r2 r2' r3 r4 : o.Rng) (ke1 : GenerateKe1Result (Ke1State g) (Ke1Message g))
        (builder : Ke2BuilderCommon o g h) (ke2 : GenerateKe2Result Ke2State (Ke2Message g))
      → generate_ke1 o g r1 ≡ ok (ke1, r1')
      → ke2_builder o g d h request ke1.message response
          (g.public_key client_s_sk)
          identifiers
          context
          r2
        ≡ ok (builder, r2')
      → build_ke2 o g d h builder (generate_ke2_input o g d h builder server_s_sk r3).0 ≡ ok ke2
      → (ke3 : GenerateKe3Result Ke3Message) × (generate_ke3 o g d h request ke1.message response
            ke1.state ke2.message
            (g.public_key server_s_sk)
            client_s_sk
            identifiers
            context
            r4
          ≡ ok (ke3, r4))
        × (finish_ke o g d h ke2.state ke3.message ids context ≡ ok ke3.session_key)
  unfolding ke2_builder build_ke2 generate_ke3 finish_ke3 finish_ke generate_ke2_input
  finish_ke-generate_ke3 laws dh_laws request response client_s_sk server_s_sk ids identifiers
        context r1 r1' r2 r2' r3 r4 ke1 builder ke2 started built replied =
      let started' = generate_ke1-pair o g r1 r1' ke1 started in
      let (sk, e_pk, c_pk, hasher, s1, s3) =
        ke2_builder_common-parts o g h d request ke1.message response _ identifiers context r2 r2'
          builder built in
      bind_ok _ _ replied λ keys derived rest. bind_ok _ _ rest λ macs computed done.
        let accepted =
          finalize-compute o h laws builder.transcript_hasher macs.0 _ keys macs.1 macs.2 derived
            computed in
        let s1' : builder.shared_secret_1
            ≡ d.diffie_hellman ke1.state.client_e_sk ke2.message.server_e_pk =
          let agrees = dh_laws.agree ke1.state.client_e_sk sk in cc in
        let s2' : d.diffie_hellman server_s_sk builder.client_e_pk
            ≡ d.diffie_hellman ke1.state.client_e_sk (g.public_key server_s_sk) =
          let agrees = dh_laws.agree ke1.state.client_e_sk server_s_sk in cc in
        let s3' : builder.shared_secret_3 ≡ d.diffie_hellman client_s_sk ke2.message.server_e_pk =
          let agrees = dh_laws.agree client_s_sk sk in cc in
        let same_hasher : transcript h context identifiers request (to_iter g ke1.message) response
              ke2.message.server_nonce (g.serialize_pk ke2.message.server_e_pk)
            ≡ builder.transcript_hasher =
          cc in
        (
          record { session_key = keys.session_key; message = record { mac = macs.2 } },
          let mac : ke2.message.mac ≡ macs.1 = cc in
              simp (same_hasher, ← s1', ← s2', ← s3', mac, accepted, passes),
          let expected : ke2.state.expected_mac ≡ macs.2 = cc in
              let key : ke2.state.session_key ≡ keys.session_key = cc in
              rw (expected, bytes_eq_refl, key),
        )

  pub triple_dh-KeyExchangeLaws :
      (SkIsValid : g.Sk → Type 0)
      → HashLaws h
      → DiffieHellmanLaws g d
      → KeyExchangeLaws (triple_dh o g d h) SkIsValid
  triple_dh-KeyExchangeLaws SkIsValid laws dh_laws = record {
    agreement =
        λ request response client_s_sk server_s_sk ids identifiers context r1 r1' r2 r2' r3 r4 ke1
            builder ke2 client_valid server_valid named started built replied.
          let (ke3, accepted, finished) =
            finish_ke-generate_ke3 laws dh_laws request response client_s_sk server_s_sk ids
              identifiers context r1 r1' r2 r2' r3 r4 ke1 builder ke2 started built replied in
          (ke3, r4, accepted, finished);
  }
