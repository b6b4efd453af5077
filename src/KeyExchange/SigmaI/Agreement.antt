-- ===== src/KeyExchange/SigmaI/Agreement.antt =====
-- key_exchange/sigma_i/mod.rs: both sides accept each other and agree on the session key.
use opaque_vx.Prelude.{Bytes, [], ◌∷◌, ◌≡◌, ap, bytes_eq_refl}
use opaque_vx.Prelude.Results.{ok, bind_ok, ok_first, guard, passes}
use opaque_vx.Prelude.Act.{lift_ok}
use opaque_vx.Hash.{Hash}
use opaque_vx.Oprf.{OprfCs}
use opaque_vx.Group.{Group, DiffieHellman, DiffieHellmanLaws}
use opaque_vx.Keypair.{PrivateKey, PublicKey}
use opaque_vx.KeyExchange.Serialized.{
  Identifiers, SerializedIdentifiers, SerializedContext, SerializedCredentialRequest,
  SerializedCredentialResponse, from_identifiers, from_identifier,
}
use opaque_vx.KeyExchange.Shared.{
  Ke1State, Ke1Message, DerivedKeys, to_iter, transcript, derive_keys,
}
use opaque_vx.KeyExchange.Shared.Start.{generate_ke1, generate_nonce}
use opaque_vx.KeyExchange.Trait.{
  GenerateKe1Result, GenerateKe2Result, GenerateKe3Result, KeyExchangeLaws,
}
use opaque_vx.KeyExchange.TripleDh.Agreement.{generate_ke1-pair, derive_random-pair}
use opaque_vx.KeyExchange.SigmaI.Messages.{Message, server_role, client_role}
use opaque_vx.KeyExchange.SigmaI.Signed.{verify_message-sign_message, peer_builder, peer_message}
use opaque_vx.KeyExchange.SigmaI.Protocol.{SignatureProtocol, SignatureLaws}
use opaque_vx.KeyExchange.SigmaI.{
  Ke2Builder, Ke2State, Ke2Message, Ke3Message, identifier_mac, sigma_ke2_builder, sigma_build_ke2,
  sigma_generate_ke2_input, sigma_generate_ke3, sigma_finish_ke, sigma_i,
}

module _ (o : OprfCs) (g : Group o) (sig : SignatureProtocol g) (ke : Group o)
    (d : DiffieHellman ke) (h : Hash) where
  -- What the server's builder holds.
  sigma_ke2_builder-parts :
      (request : SerializedCredentialRequest) (ke1_message : Ke1Message ke)
      (response : SerializedCredentialResponse) (client_s_pk : PublicKey g)
      (identifiers : SerializedIdentifiers) (context : SerializedContext) (r r' : o.Rng)
      (b : Ke2Builder g ke)
      → sigma_ke2_builder o g sig ke d h request ke1_message response client_s_pk identifiers
          context r
        ≡ ok (b, r')
      → (sk : PrivateKey ke) × (keys : DerivedKeys) × (server_mac : Bytes) × (b.server_e_pk
          ≡ ke.public_key sk)
        × (derive_keys o h (d.diffie_hellman sk ke1_message.client_e_pk ∷ []) (
              h.finalize (
                transcript h context identifiers request
                  (to_iter ke ke1_message)
                  response
                  b.server_nonce
                  (ke.serialize_pk b.server_e_pk)))
            ≡ ok keys)
        × (identifier_mac o h keys.km2 identifiers.server ≡ ok server_mac)
        × (identifier_mac o h keys.km3 identifiers.client ≡ ok b.expected_mac)
        × (b.session_key ≡ keys.session_key)
        × (b.client_s_pk ≡ client_s_pk)
        × (b.transcript ≡ record {
          role = server_role;
          context = context;
          identifiers = identifiers;
          cache = record {
            credential_request = request;
            ke1_message = to_iter ke ke1_message;
            credential_response = response;
            server_nonce = b.server_nonce;
            server_e_pk = ke.serialize_pk b.server_e_pk;
            server_mac = server_mac;
          };
        })
  unfolding sigma_ke2_builder
  sigma_ke2_builder-parts request ke1_message response client_s_pk identifiers context r r' b
        built =
      bind_ok _ _ built λ pair e h1.
        let h2 = ok_first _ _ h1 in
        lift_ok _ _ _ h2 λ keys derived h3. lift_ok _ _ _ h3 λ server_mac made h4.
          lift_ok _ _ _ h4 λ client_mac made' h5.
            let paired = derive_random-pair o ke r pair.1 pair.0 e in
            let nonce : (generate_nonce o pair.1).0 ≡ b.server_nonce = cc in
            let pk : pair.0.pk ≡ b.server_e_pk = cc in
            let mac : client_mac ≡ b.expected_mac = cc in
            (
              pair.0.sk,
              keys,
              server_mac,
              cc,
              rw (← nonce, ← pk) derived,
              made,
              rw (← mac) made',
              cc,
              cc,
              cc,
            )

  -- The client's message to sign, with the server's.
  abbrev client_message :
      SerializedCredentialRequest
      → Ke1Message ke
      → SerializedCredentialResponse
      → SerializedIdentifiers
      → SerializedContext
      → Ke2Message sig ke
      → Message
  client_message request ke1_message response identifiers context ke2_message = record {
    role = client_role;
    context = context;
    identifiers = identifiers;
    cache = record {
      credential_request = request;
      ke1_message = to_iter ke ke1_message;
      credential_response = response;
      server_nonce = ke2_message.server_nonce;
      server_e_pk = ke.serialize_pk ke2_message.server_e_pk;
      server_mac = ke2_message.mac;
    };
  }

  -- The identifier that the server computes again at the end is the client's.
  from_identifiers-client :
      (ids : Identifiers) (client_s_pk server_s_pk : Bytes) (identifiers : SerializedIdentifiers)
      → from_identifiers o ids client_s_pk server_s_pk ≡ ok identifiers
      → from_identifier o ids.client client_s_pk ≡ ok identifiers.client
  unfolding from_identifiers
  from_identifiers-client ids client_s_pk server_s_pk identifiers named =
      bind_ok _ _ named λ client made rest.
        bind_ok _ _ rest
          λ server made' done. let same : client ≡ identifiers.client = cc in rw (← same) made

  -- In SIGMA-I, where the server built and signed its message for the client's first one, under the same
  -- request, response, identifiers, context and static keys as the client: the client's `generate_ke3`
  -- accepts the server's message, and the server's `finish_ke` accepts the client's answer, with the
  -- client's session key.
  pub sigma_finish_ke-sigma_generate_ke3 :
      DiffieHellmanLaws ke d
      → {SkIsValid : g.Sk → Type 0} → SignatureLaws sig SkIsValid
      → (request : SerializedCredentialRequest) (response : SerializedCredentialResponse)
        (client_s_sk server_s_sk : PrivateKey g) (ids : Identifiers)
        (identifiers : SerializedIdentifiers) (context : SerializedContext)
        (r1 r1' r2 r2' r3 r4 : o.Rng) (ke1 : GenerateKe1Result (Ke1State ke) (Ke1Message ke))
        (builder : Ke2Builder g ke) (ke2 : GenerateKe2Result (Ke2State sig) (Ke2Message sig ke))
      → SkIsValid client_s_sk
      → SkIsValid server_s_sk
      → from_identifiers o ids
          (g.serialize_pk (g.public_key client_s_sk))
          (g.serialize_pk (g.public_key server_s_sk))
        ≡ ok identifiers
      → generate_ke1 o ke r1 ≡ ok (ke1, r1')
      → sigma_ke2_builder o g sig ke d h request ke1.message response
          (g.public_key client_s_sk)
          identifiers
          context
          r2
        ≡ ok (builder, r2')
      → sigma_build_ke2 o g sig ke d h builder
          (sigma_generate_ke2_input o g sig ke d h builder server_s_sk r3).0
        ≡ ok ke2
      → (ke3 : GenerateKe3Result (Ke3Message sig)) × (r4' : o.Rng) × (sigma_generate_ke3 o g sig ke
            d h request ke1.message response ke1.state ke2.message
            (g.public_key server_s_sk)
            client_s_sk
            identifiers
            context
            r4
          ≡ ok (ke3, r4'))
        × (sigma_finish_ke o g sig ke d h ke2.state ke3.message ids context ≡ ok ke3.session_key)
  unfolding sigma_build_ke2 sigma_generate_ke3 sigma_finish_ke sigma_generate_ke2_input guard
  sigma_finish_ke-sigma_generate_ke3 dh_laws laws request response client_s_sk server_s_sk ids
        identifiers context r1 r1' r2 r2' r3 r4 ke1 builder ke2 client_valid server_valid named
        started built replied =
      let paired = generate_ke1-pair o ke r1 r1' ke1 started in
      let (sk, keys, server_mac, e_pk, derived, smac, cmac, key, c_pk, view) =
        sigma_ke2_builder-parts request ke1.message response _ identifiers context r2 r2' builder
          built in
      let m = client_message request ke1.message response identifiers context ke2.message in
      let nonce : builder.server_nonce ≡ ke2.message.server_nonce = cc in
      let pk : builder.server_e_pk ≡ ke2.message.server_e_pk = cc in
      let mac : server_mac ≡ ke2.message.mac = cc in
      let view' : builder.transcript ≡ peer_message m = cc in
      let secret : d.diffie_hellman ke1.state.client_e_sk ke2.message.server_e_pk
          ≡ d.diffie_hellman sk ke1.message.client_e_pk =
        let agrees = dh_laws.agree ke1.state.client_e_sk sk in cc in
      let signed_by_server =
        laws.verify-sign server_s_sk client_s_sk builder.transcript m r3 r4 server_valid
          (rw view' (verify_message-sign_message m)) in
      let signed_by_client =
        laws.verify-sign client_s_sk server_s_sk m builder.transcript r4 r3 client_valid
          (rw view' (verify_message-sign_message (peer_message m))) in
      let signature : ke2.message.signature ≡ (sig.sign server_s_sk builder.transcript r3).0.0 =
        cc in
      let derived' : derive_keys o h
            (d.diffie_hellman ke1.state.client_e_sk ke2.message.server_e_pk ∷ [])
            (h.finalize (
              transcript h context identifiers request (to_iter ke ke1.message) response
                ke2.message.server_nonce (ke.serialize_pk ke2.message.server_e_pk)))
          ≡ ok keys =
        rw (secret, ← nonce, ← pk) derived in
      let smac' : identifier_mac o h keys.km2 identifiers.server ≡ ok ke2.message.mac =
        rw (← mac) smac in
      let verified : sig.verify (g.public_key server_s_sk) (peer_builder m)
            (sig.sign client_s_sk m r4).0.1 ke2.message.signature
          ≡ ok tt =
        rw signature signed_by_server in
      let same : peer_builder builder.transcript ≡ peer_builder (peer_message m) =
        ap peer_builder view' in
      let finished : sig.verify ke2.state.client_s_pk (peer_builder (peer_message m))
            ke2.state.verify_state (sig.sign client_s_sk m r4).0.0
          ≡ ok tt =
        cc in
      let registered : ke2.state.client_s_pk ≡ g.public_key client_s_sk = cc in
      let expected : ke2.state.expected_mac ≡ builder.expected_mac = cc in
      let agreed : ke2.state.session_key ≡ keys.session_key = cc in
      let identifier : from_identifier o ids.client (g.serialize_pk ke2.state.client_s_pk)
          ≡ ok identifiers.client =
        rw registered (from_identifiers-client ids _ _ identifiers named) in
      (
        record {
          session_key = keys.session_key;
          message = record {
            signature = (sig.sign client_s_sk m r4).0.0;
            mac = builder.expected_mac;
          };
        },
        (sig.sign client_s_sk m r4).1,
        simp (derived', smac', bytes_eq_refl, cmac, verified, passes),
        simp (identifier, finished, expected, bytes_eq_refl, agreed, passes),
      )

  pub sigma_i-KeyExchangeLaws :
      (SkIsValid : g.Sk → Type 0)
      → DiffieHellmanLaws ke d
      → SignatureLaws sig SkIsValid
      → KeyExchangeLaws (sigma_i o g sig ke d h) SkIsValid
  sigma_i-KeyExchangeLaws SkIsValid dh_laws laws = record {
    agreement = sigma_finish_ke-sigma_generate_ke3 dh_laws laws;
  }
